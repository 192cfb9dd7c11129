-- ===== src/History/Frame.antt =====
-- The tables that each operation leaves alone.
use universal_agent_studio.Prelude.{ℕ, ◌≡◌, String, arith}
use universal_agent_studio.Json.{Json}
use universal_agent_studio.Catalog.{Catalog, Tenant}
use universal_agent_studio.Versions.{ActivateArguments, ImportArguments, activate, import_version}
use universal_agent_studio.Publishing.{RollbackArguments, rollback, rollback_version, roll_back_to}
use universal_agent_studio.Drafts.{UpdateArguments, create_from_active, update_draft}

pub versions-rollback :
    (t : Tenant) (args : RollbackArguments) (db : Catalog)
    → (rollback t args db).1.versions ≡ db.versions
unfolding rollback rollback_version roll_back_to
versions-rollback t args db = ground arith

pub versions-activate :
    (t : Tenant) (args : ActivateArguments) (db : Catalog)
    → (activate t args db).1.versions ≡ db.versions
unfolding activate
versions-activate t args db = ground arith

pub publications-activate :
    (t : Tenant) (args : ActivateArguments) (db : Catalog)
    → (activate t args db).1.publications ≡ db.publications
unfolding activate
publications-activate t args db = ground arith

module _ (t : Tenant) (args : ImportArguments) (db : Catalog) where
  pub actives-import_version : (import_version t args db).1.actives ≡ db.actives
  unfolding import_version
  actives-import_version = ground arith

  pub publications-import_version : (import_version t args db).1.publications ≡ db.publications
  unfolding import_version
  publications-import_version = ground arith

-- The operations on drafts write to no other table.
pub record SameButDrafts (old new : Catalog) : Type 0 where
  pub agents : new.agents ≡ old.agents
  pub versions : new.versions ≡ old.versions
  pub actives : new.actives ≡ old.actives
  pub publications : new.publications ≡ old.publications

pub create_from_active-SameButDrafts :
    (t : Tenant) (key : String) (layout : Json) (fresh : ℕ) (db : Catalog)
    → SameButDrafts db (create_from_active t key layout fresh db).1
unfolding create_from_active
create_from_active-SameButDrafts t key layout fresh db = ground arith

pub update_draft-SameButDrafts :
    (t : Tenant) (args : UpdateArguments) (db : Catalog)
    → SameButDrafts db (update_draft t args db).1
unfolding update_draft
update_draft-SameButDrafts t args db = ground arith
