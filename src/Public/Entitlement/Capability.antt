-- ===== src/Public/Entitlement/Capability.antt =====
-- What a capability that is verified holds.
use universal_agent_studio.Prelude.{
  Option, none, ℕ, ◌==◌, ◌≡◌, ◌⊎◌, refl, subst, String, str_eq, str_mem, eq_iff, true, false, Bool,
  not, Bool-cases, ◌&&◌, Option-cases, some, ◌∷◌, [], inl, inr, arith, partition, remove_prefix,
  ==_iff,
}
use universal_agent_studio.Json.{Fields, ℤ, pos, negsuc, int, obj, get, json_eq}
use universal_agent_studio.Credentials.{
  ◌>>=◌, check, is_one, Bytes, Library, PublicPrincipal, read_capability, signed_payload,
  require_master_key, text_of, uuid_of, integer_of, expired, verify_run_capability,
}
use universal_agent_studio.Public.{PublicConfig}
use universal_agent_studio.Public.Reading.{scope_of}
use universal_agent_studio.Public.Entitlement.{Field, HoldsCapability, IsAfter, IsSigned, Names}

-- A chain of options that gives a value gave one at its first link.
link :
    {A B : Type 0} (m : Option A) (f : A → Option B) (b : B)
    → (m >>= f) ≡ some b
    → (a : A) × (m ≡ some a) × (f a ≡ some b)
link none f b e = cc
link (some a) f b e = (a, refl, e)

checked : (b : Bool) {u : Unit {0}} → check b ≡ some u → b ≡ true
checked true h = refl
checked false h = cc

some_bytes : {p q : Bytes} → some p ≡ some q → p ≡ q
some_bytes h = cc

signed_payload-IsSigned :
    (lib : Library) (master_key : Bytes) (raw : String) (payload : Bytes)
    → signed_payload lib master_key raw ≡ some payload
    → IsSigned lib master_key raw payload
unfolding signed_payload
signed_payload-IsSigned lib master_key raw payload e =
    let ((front, back), parts, e0) = link (partition b'.' raw) _ payload e in
    let (body, prefixed, e1) = link (remove_prefix "uascap_" front) _ payload e0 in
    let (read, decoded, e2) = link (lib.b64decode body) _ payload e1 in
    let (signature, signed, e3) = link (lib.b64decode back) _ payload e2 in
    let (key, usable, e4) = link (require_master_key master_key) _ payload e3 in
    let (tested, matches, same) =
      link (check (lib.compare_digest signature (lib.mac key read))) _ payload e4 in
    subst (IsSigned lib master_key raw) (some_bytes same) (
      front,
      back,
      parts,
      body,
      prefixed,
      decoded,
      signature,
      signed,
      key,
      usable,
      checked (lib.compare_digest signature (lib.mac key read)) matches,
    )

expired-IsAfter : (now : ℕ) (n : ℤ) → expired now n ≡ false → IsAfter now n
expired-IsAfter now (pos n) h = ground (arith, h)
expired-IsAfter now (negsuc n) h = cc

some_injective : {p q : PublicPrincipal} → some p ≡ some q → p ≡ q
some_injective h = cc

three : (a b c : Bool) → (a && (b && not c)) ≡ true → (a ≡ true) × ((b ≡ true) × (c ≡ false))
three a b c h = ground (arith, h)

is_one-Field :
    (document : Fields)
    → is_one (get "v" document) ≡ true
    → Field document "v" (λ v. json_eq v (int (pos 1)) ≡ true)
is_one-Field document h = elim (Option-cases (get "v" document)) [
  | inl missing ↦ absurd (ground (arith, missing, h))
  | inr (v, there) ↦ (v, there, rw there at h)
]

module _ (lib : Library) (document : Fields) (agent_id : String) (run_id now : ℕ)
    (p : PublicPrincipal) (e : read_capability lib document agent_id run_id now ≡ some p) where
  read_capability-Names :
      Names lib now agent_id run_id (scope_of p) document
      × (p.scopes ≡ "runs:read" ∷ "events:read" ∷ [])
  unfolding read_capability
  read_capability-Names =
      let (one, versioned, e0) = link (check (is_one (get "v" document))) _ p e in
      let (agent, has_agent, e1) = link (get "a" document) _ p e0 in
      let (run, has_run, e2) = link (get "r" document) _ p e1 in
      let (token_run, run_named, e3) = link (uuid_of lib run) _ p e2 in
      let (exp, has_expiry, e4) = link (get "exp" document) _ p e3 in
      let (expires_at, expires, e5) = link (integer_of lib exp) _ p e4 in
      let (tested, passed, e6) =
        link
          (check (
            str_eq (text_of lib agent) agent_id
            && (token_run == run_id && not (expired now expires_at))))
          _ p e5 in
      let (workspace, has_workspace, e7) = link (get "w" document) _ p e6 in
      let (workspace_id, workspace_named, e8) = link (uuid_of lib workspace) _ p e7 in
      let (project, has_project, e9) = link (get "p" document) _ p e8 in
      let (project_id, project_named, made) = link (uuid_of lib project) _ p e9 in
      let (same_agent, (same_run, live)) =
        three (str_eq (text_of lib agent) agent_id) (token_run == run_id) (expired now expires_at)
          (checked _ passed) in
      subst
        (λ (q : PublicPrincipal).
          Names lib now agent_id run_id (scope_of q) document
          × (q.scopes ≡ "runs:read" ∷ "events:read" ∷ []))
        (some_injective made)
        (
          (
            is_one-Field document (checked (is_one (get "v" document)) versioned),
            (agent, has_agent, (eq_iff (text_of lib agent) agent_id).0 same_agent),
            (run, has_run, rw (run_named, (==_iff token_run run_id).0 same_run) refl),
            (workspace, has_workspace, workspace_named),
            (project, has_project, project_named),
            (exp, has_expiry, (expires_at, expires, expired-IsAfter now expires_at live)),
          ),
          refl,
        )

two_scopes :
    (s : String)
    → str_mem s ("runs:read" ∷ "events:read" ∷ []) ≡ true
    → (s ≡ "runs:read") ⊎ (s ≡ "events:read")
two_scopes s h = elim (Bool-cases (str_eq s "runs:read")) [
  | inl runs ↦ inl ((eq_iff s "runs:read").0 runs)
  | inr other ↦ inr ((eq_iff s "events:read").0 (ground (arith, other, h)))
]

pub verified-HoldsCapability :
    (config : PublicConfig) (agent_id : String) (run_id : ℕ) (required_scope raw : String)
    (p : PublicPrincipal)
    → verify_run_capability config.library config.capability_master raw agent_id run_id config.now
      ≡ some p
    → str_mem required_scope p.scopes ≡ true
    → HoldsCapability config agent_id run_id required_scope raw (scope_of p)
unfolding verify_run_capability
verified-HoldsCapability config agent_id run_id required_scope raw p e h =
    elim (Option-cases (signed_payload config.library config.capability_master raw)) [
      | inl unsigned ↦ absurd (ground (arith, unsigned, e))
      | inr (payload, signed) ↦ elim (Option-cases (config.library.loads payload)) [
        | inl unread ↦ absurd (ground (arith, signed, unread, e))
        | inr (obj document, loaded) ↦
            let (names, scopes) =
              read_capability-Names config.library document agent_id run_id config.now p
                (ground (arith, signed, loaded, e)) in
            (
              payload,
              signed_payload-IsSigned config.library config.capability_master raw payload signed,
              document,
              loaded,
              names,
              two_scopes required_scope (rw scopes at h),
            )
        | inr (other, loaded) ↦ absurd (ground (arith, signed, loaded, e))
      ]
    ]
