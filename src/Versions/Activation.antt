-- ===== src/Versions/Activation.antt =====
-- Direct activation against the ledger.
use universal_agent_studio.Prelude.{
  ℕ, refl, ◌≡◌, Bool, true, false, none, List, [], ◌∷◌, arith, find, any,
}
use universal_agent_studio.Catalog.{Catalog, PublicationEvent, Tenant, event_of, find_active}
use universal_agent_studio.Publishing.{set_active}
use universal_agent_studio.Publishing.Pointer.{IsLedgered, same_agent, pointer-set_active}
use universal_agent_studio.Versions.{ActivateArguments, activate, has_publication}

unpublished :
    (p : PublicationEvent → Bool) (rows : List PublicationEvent)
    → any p rows ≡ false
    → find p rows ≡ none
unpublished p [] h = ground arith
unpublished p (e ∷ rows) h = ground (arith, unpublished p rows)

any-same_agent :
    (t u : Tenant) (id jd : ℕ) (rows : List PublicationEvent)
    → same_agent t id u jd ≡ true
    → any (event_of u jd) rows ≡ any (event_of t id) rows
any-same_agent t u id jd [] h = refl
any-same_agent t u id jd (e ∷ rows) h = ground (arith, any-same_agent t u id jd rows)

set_active-IsLedgered :
    (t : Tenant) (id version_id : ℕ) (db : Catalog)
    → IsLedgered db
    → has_publication t id db ≡ false
    → IsLedgered (set_active t id version_id (find_active t id db) db)
unfolding set_active
set_active-IsLedgered t id version_id db valid none_yet u jd e h = ground (
  arith,
  valid u jd e,
  pointer-set_active t u id jd version_id db,
  any-same_agent t u id jd db.publications,
  unpublished (event_of u jd) db.publications,
)

-- Activation keeps the pointer of every agent that has a ledger entry at what its newest entry
-- selected, whether it succeeds or raises.
pub activate-IsLedgered :
    (t : Tenant) (args : ActivateArguments) (db : Catalog)
    → IsLedgered db
    → IsLedgered (activate t args db).1
unfolding activate
activate-IsLedgered t args db valid u jd e h = grind (arith, set_active-IsLedgered, valid)
