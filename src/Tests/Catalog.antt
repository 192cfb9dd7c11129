-- ===== src/Tests/Catalog.antt =====
-- Witnesses for the theorems about the catalog.
use universal_agent_studio.Prelude.{
  ◌==◌, ◌≡◌, refl, String, true, false, ◌&&◌, ◌||◌, is_some, not, opt_eq, none, some, ok,
}
use universal_agent_studio.Json.{item, get}
use universal_agent_studio.Catalog.{
  PublicationKind, find_agent, find_draft, find_active, find_digest, find_version, max_number,
}
use universal_agent_studio.Publishing.{
  PublicationResult, publish_draft, publish_version, rollback, rollback_version, roll_back_to,
  accepts, claimed_by_other,
}
use universal_agent_studio.Publishing.Atomic.{publish_draft-succeeded, succeeded}
use universal_agent_studio.Publishing.Routing.{IsRouted, publish_draft-IsRouted, rollback-IsRouted}
use universal_agent_studio.Publishing.Pointer.{pointer}
use universal_agent_studio.Tests.Samples.{
  home, calculator, draft, spec, version, catalog, publish_arguments, rollback_arguments,
}

program : Unit {0}
unfolding publish_draft publish_version rollback rollback_version roll_back_to find_agent find_draft
    find_active find_digest find_version max_number get claimed_by_other
program = tt

known : find_agent home "calculator-agent" catalog ≡ some calculator
unfolding program
known = refl

drafted : find_draft home 5 catalog ≡ some draft
unfolding program
drafted = refl

publish_draft-succeeded_example :
    succeeded (publish_draft home none publish_arguments catalog).0 ≡ (
      3 == 3
      && (accepts none draft
          && (not (claimed_by_other calculator catalog)
              && (opt_eq (pointer home 5 catalog) (some 8)
                  && (is_some (find_digest home 5 "d2" catalog)
                      || is_some (item "schema_version" spec))))))
publish_draft-succeeded_example =
    publish_draft-succeeded home none publish_arguments catalog calculator draft known drafted

abbrev pub published : PublicationResult
published = record {
  version = version 30 3 "d2";
  previous_version_id = some 8;
  event = some (record {
    id = 31;
    workspace_id = 1;
    project_id = 10;
    agent_id = 5;
    event_type = PublicationKind.publish;
    previous_version_id = some 8;
    selected_version_id = 30;
    selected_version_digest = "d2";
  });
  reused = false;
}

pub published_now : (publish_draft home none publish_arguments catalog).0 ≡ ok published
unfolding program
published_now = refl

publish_draft-IsRouted_example :
    IsRouted home 5 catalog (publish_draft home none publish_arguments catalog).1 published
    × (◌≡◌ {A = String} "d2" "d2")
    × (pointer home 5 catalog ≡ some 8)
publish_draft-IsRouted_example =
    publish_draft-IsRouted home none publish_arguments catalog calculator draft published known
      drafted published_now

abbrev rolled_back : PublicationResult
rolled_back = record {
  version = version 9 2 "d1";
  previous_version_id = some 8;
  event = some (record {
    id = 32;
    workspace_id = 1;
    project_id = 10;
    agent_id = 5;
    event_type = PublicationKind.rollback;
    previous_version_id = some 8;
    selected_version_id = 9;
    selected_version_digest = "d1";
  });
  reused = true;
}

rolls_back : (rollback home rollback_arguments catalog).0 ≡ ok rolled_back
unfolding program
rolls_back = refl

rollback-IsRouted_example :
    IsRouted home 5 catalog (rollback home rollback_arguments catalog).1 rolled_back
    × (find_version home 5 9 catalog ≡ some (version 9 2 "d1"))
    × (pointer home 5 catalog ≡ some 8)
rollback-IsRouted_example =
    rollback-IsRouted home rollback_arguments catalog calculator rolled_back known rolls_back
