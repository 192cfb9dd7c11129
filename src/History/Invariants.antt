-- ===== src/History/Invariants.antt =====
-- What holds of every catalog that the operations can reach.
use universal_agent_studio.Prelude.{ℕ, ◌≡◌, String, Bool, Option, Result, ok, err, settle}
use universal_agent_studio.History.Frame.{
  versions-rollback, versions-activate, actives-import_version, publications-import_version,
  create_from_active-SameButDrafts, update_draft-SameButDrafts,
}
use universal_agent_studio.Json.{Json}
use universal_agent_studio.Catalog.{Catalog, StoreError, Tenant, find_active}
use universal_agent_studio.Publishing.Pointer.{
  IsLedgered, publish_draft-IsLedgered, rollback-IsLedgered,
}
use universal_agent_studio.Versions.Activation.{activate-IsLedgered}
use universal_agent_studio.Versions.Numbers.{
  IsNumbered, publish_draft-IsNumbered, import_version-IsNumbered,
}
use universal_agent_studio.Versions.{ActivateArguments, ImportArguments, activate, import_version}
use universal_agent_studio.Publishing.{PublishArguments, RollbackArguments, publish_draft, rollback}
use universal_agent_studio.Drafts.{UpdateArguments, create_from_active, update_draft}
use universal_agent_studio.History.{
  Operation, publishes, rolls_back, activates, imports, creates_draft, updates_draft, perform,
  Reaches, start, step,
}

pub record IsConsistent (db : Catalog) : Type 0 where
  pub ledgered : IsLedgered db
  pub numbered : IsNumbered db.versions

settle-keeps :
    (P : Catalog → Type 0) {A : Type 0} (old : Catalog) (r : Result StoreError A × Catalog)
    → P old
    → P r.1
    → P (settle old r).1
settle-keeps P old (ok a, new) h k = k
settle-keeps P old (err e, new) h k = h

-- Consistency reads three tables.
frame-IsLedgered :
    (old new : Catalog)
    → IsLedgered old
    → new.actives ≡ old.actives
    → new.publications ≡ old.publications
    → IsLedgered new
unfolding find_active
frame-IsLedgered old new valid same_actives same_events t id e h =
    rw same_actives (valid t id e (rw same_events at h))

frame-IsConsistent :
    (old new : Catalog)
    → IsConsistent old
    → new.versions ≡ old.versions
    → new.actives ≡ old.actives
    → new.publications ≡ old.publications
    → IsConsistent new
frame-IsConsistent old new valid same_versions same_actives same_events = record {
  ledgered = frame-IsLedgered old new valid.ledgered same_actives same_events;
  numbered = rw same_versions valid.numbered;
}

module _ (t : Tenant) (db : Catalog) (valid : IsConsistent db) where
  publish_draft-IsConsistent :
      (validate : Option (Json → String → Bool)) (args : PublishArguments)
      → IsConsistent (publish_draft t validate args db).1
  publish_draft-IsConsistent validate args = record {
    ledgered = publish_draft-IsLedgered t validate args db valid.ledgered;
    numbered = publish_draft-IsNumbered t validate args db valid.numbered;
  }

  rollback-IsConsistent : (args : RollbackArguments) → IsConsistent (rollback t args db).1
  rollback-IsConsistent args = record {
    ledgered = rollback-IsLedgered t args db valid.ledgered;
    numbered = rw versions-rollback valid.numbered;
  }

  activate-IsConsistent : (args : ActivateArguments) → IsConsistent (activate t args db).1
  activate-IsConsistent args = record {
    ledgered = activate-IsLedgered t args db valid.ledgered;
    numbered = rw versions-activate valid.numbered;
  }

  import_version-IsConsistent : (args : ImportArguments) → IsConsistent (import_version t args db).1
  import_version-IsConsistent args = record {
    ledgered =
        frame-IsLedgered db _ valid.ledgered (actives-import_version t args db)
          (publications-import_version t args db);
    numbered = import_version-IsNumbered t args db valid.numbered;
  }

  create_from_active-IsConsistent :
      (key : String) (layout : Json) (fresh : ℕ)
      → IsConsistent (create_from_active t key layout fresh db).1
  create_from_active-IsConsistent key layout fresh =
      let kept = create_from_active-SameButDrafts t key layout fresh db in
      frame-IsConsistent db _ valid kept.versions kept.actives kept.publications

  update_draft-IsConsistent : (args : UpdateArguments) → IsConsistent (update_draft t args db).1
  update_draft-IsConsistent args =
      let kept = update_draft-SameButDrafts t args db in
      frame-IsConsistent db _ valid kept.versions kept.actives kept.publications

  perform-IsConsistent : (op : Operation) → IsConsistent (perform t op db)
  unfolding perform
  perform-IsConsistent (publishes validate args) =
      settle-keeps IsConsistent db _ valid (publish_draft-IsConsistent validate args)
  perform-IsConsistent (rolls_back args) =
      settle-keeps IsConsistent db _ valid (rollback-IsConsistent args)
  perform-IsConsistent (activates args) =
      settle-keeps IsConsistent db _ valid (activate-IsConsistent args)
  perform-IsConsistent (imports args) =
      settle-keeps IsConsistent db _ valid (import_version-IsConsistent args)
  perform-IsConsistent (creates_draft key layout fresh) =
      settle-keeps IsConsistent db _ valid (create_from_active-IsConsistent key layout fresh)
  perform-IsConsistent (updates_draft args) =
      settle-keeps IsConsistent db _ valid (update_draft-IsConsistent args)

-- Whatever the tenants do, in whatever order and with whatever arguments: every agent that has a
-- ledger entry is routed to the version that its newest entry selected, and no two versions of an
-- agent share a number or a digest.
pub Reaches-IsConsistent : {db : Catalog} → Reaches db → IsConsistent db
Reaches-IsConsistent start = record { ledgered = λ t id e h. cc; numbered = tt }
Reaches-IsConsistent (step {db = db} t op r) = perform-IsConsistent t db (Reaches-IsConsistent r) op
