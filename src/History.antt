-- ===== src/History.antt =====
-- What the catalog can become: any sequence of the repositories' operations, by any tenants, each
-- in its own transaction (`_transaction` of the control API's services).
mod Frame
mod Agents
pub mod Invariants
pub mod Permanence
pub mod Published
pub mod Register
pub mod Refinement
use universal_agent_studio.Prelude.{ℕ, String, Bool, Option, List, [], ◌∷◌, Result, transaction}
use universal_agent_studio.Json.{Json}
use universal_agent_studio.Catalog.{Action, Catalog, Tenant}
use universal_agent_studio.Publishing.{PublishArguments, RollbackArguments, publish_draft, rollback}
use universal_agent_studio.Versions.{ActivateArguments, ImportArguments, activate, import_version}
use universal_agent_studio.Drafts.{UpdateArguments, create_from_active, update_draft}

pub data Operation : Type 0 where
  publishes : Option (Json → String → Bool) → PublishArguments → Operation
  rolls_back : RollbackArguments → Operation
  activates : ActivateArguments → Operation
  imports : ImportArguments → Operation
  creates_draft : String → Json → ℕ → Operation
  updates_draft : UpdateArguments → Operation

unfoldable pub perform : Tenant → Operation → Catalog → Catalog
perform t (publishes validate args) db = (transaction (publish_draft t validate args) db).1
perform t (rolls_back args) db = (transaction (rollback t args) db).1
perform t (activates args) db = (transaction (activate t args) db).1
perform t (imports args) db = (transaction (import_version t args) db).1
perform t (creates_draft key layout fresh) db =
    (transaction (create_from_active t key layout fresh) db).1
perform t (updates_draft args) db = (transaction (update_draft t args) db).1

abbrev pub empty : Catalog
empty = record { agents = []; versions = []; drafts = []; actives = []; publications = [] }

-- The newest step stands first, as the newest row does.
pub data Reaches : Catalog → Type 0 where
  start : Reaches empty
  step : {db : Catalog} (t : Tenant) (op : Operation) → Reaches db → Reaches (perform t op db)
