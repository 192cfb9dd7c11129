-- ===== src/Dispatcher/Targets.antt =====
-- The targets to which the dispatcher sends.
use universal_agent_studio.Prelude.{
  Bool-cases, Option-cases, String, str_eq, str_mem, eq_iff, is_some, not, ◌||◌, ◌≡◌, refl, ◌⊎◌,
  inl, inr, Bool, true, false, Option, none, some, arith, List, [], ◌∷◌, ok, err,
}
use universal_agent_studio.Delivery.{Claim}
use universal_agent_studio.Dispatcher.{
  Config, SplitUrl, UrlError, value_error, origin, origin_at, origin_allowed, rstrip_slash,
  with_port, ◌<>◌, bracketed,
}

-- An origin on the list, up to slashes at its end.
abbrev pub Lists : String → List String → Type 0
Lists o [] = ⊥
Lists o (a ∷ as') = (o ≡ rstrip_slash a) ⊎ Lists o as'

-- A target that the list allows: a URL of HTTP or HTTPS without credentials and fragment, the
-- origin of which is on the list.
abbrev pub IsTarget : Config → Claim → Type 0
IsTarget config claim =
    (url : SplitUrl) × (config.urlsplit claim.target_url ≡ some url)
    × ((url.scheme ≡ "http") ⊎ (url.scheme ≡ "https"))
    × (url.username ≡ none)
    × (url.password ≡ none)
    × (url.fragment ≡ "")
    × (o : String) × (origin (some url) ≡ ok (some o))
    × Lists o config.allowed_origins

-- A URL that `urlsplit` does not take, or the port of which cannot be read.
abbrev pub IsMalformed : Option SplitUrl → Type 0
IsMalformed none = Unit
IsMalformed (some url) = url.port ≡ none

allowed-Lists : (o : String) (as' : List String) → origin_allowed (some o) as' ≡ true → Lists o as'
unfolding origin_allowed
allowed-Lists o [] h = cc
allowed-Lists o (a ∷ as') h = elim (Bool-cases (str_eq o (rstrip_slash a))) [
  | inl same ↦ inl ((eq_iff o (rstrip_slash a)).0 same)
  | inr other ↦ inr (allowed-Lists o as' (ground (arith, other, h)))
]

Lists-allowed : (o : String) (as' : List String) → Lists o as' → origin_allowed (some o) as' ≡ true
unfolding origin_allowed
Lists-allowed o [] h = elim h [ ]
Lists-allowed o (a ∷ as') (inl same) = ground (arith, (eq_iff o (rstrip_slash a)).1 same)
Lists-allowed o (a ∷ as') (inr later) = ground (arith, Lists-allowed o as' later)

schemes : (s : String) → str_mem s ("http" ∷ "https" ∷ []) ≡ true → (s ≡ "http") ⊎ (s ≡ "https")
schemes s h = elim (Bool-cases (str_eq s "http")) [
  | inl plain ↦ inl ((eq_iff s "http").0 plain)
  | inr other ↦ inr ((eq_iff s "https").0 (ground (arith, other, h)))
]

absent : (x : Option String) → is_some x ≡ false → x ≡ none
absent none h = refl
absent (some s) h = cc

four :
    (a b c d : Bool)
    → (not a || (b || (c || not d))) ≡ false
    → (a ≡ true) × ((b ≡ false) × ((c ≡ false) × (d ≡ true)))
four a b c d h = ground (arith, h)

unwanted :
    (url : SplitUrl) (o : String)
    → origin (some url) ≡ ok (some o)
    → (str_mem url.scheme ("http" ∷ "https" ∷ []) ≡ true)
      × ((is_some url.username ≡ false)
          × ((is_some url.password ≡ false) × (str_eq url.fragment "" ≡ true)))
unfolding origin
unwanted url o h =
    let refused =
      not (str_mem url.scheme ("http" ∷ "https" ∷ []))
      || (is_some url.username || (is_some url.password || not (str_eq url.fragment ""))) in
    elim (Bool-cases refused) [
      | inl bad ↦ let none_some = rw bad at h in cc
      | inr fine ↦
          four (str_mem url.scheme ("http" ∷ "https" ∷ [])) (is_some url.username)
            (is_some url.password) (str_eq url.fragment "") fine
    ]

origin_plain :
    (url : SplitUrl) (o : String)
    → origin (some url) ≡ ok (some o)
    → ((url.scheme ≡ "http") ⊎ (url.scheme ≡ "https"))
      × (url.username ≡ none)
      × (url.password ≡ none)
      × (url.fragment ≡ "")
unfolding origin
origin_plain url o h =
    let (plain, (named, secret)) = unwanted url o h in
    (
      schemes url.scheme plain,
      absent url.username named,
      absent url.password secret.0,
      (eq_iff url.fragment "").0 secret.1,
    )

port_malformed :
    (base : String) (port : Option (Option String)) (e : UrlError)
    → with_port base port ≡ err e
    → port ≡ none
port_malformed base none e h = refl
port_malformed base (some none) e h = cc
port_malformed base (some (some port)) e h = cc

at_malformed :
    (url : SplitUrl) (host : Option String) (e : UrlError)
    → origin_at url host ≡ err e
    → url.port ≡ none
at_malformed url none e h = cc
at_malformed url (some host) e h =
    port_malformed (url.scheme <> "://" <> bracketed host) url.port e h

pub origin-IsMalformed :
    (split : Option SplitUrl) (e : UrlError) → origin split ≡ err e → IsMalformed split
unfolding origin
origin-IsMalformed none e h = tt
origin-IsMalformed (some url) e h =
    let refused =
      not (str_mem url.scheme ("http" ∷ "https" ∷ []))
      || (is_some url.username || (is_some url.password || not (str_eq url.fragment ""))) in
    elim (Bool-cases refused) [
      | inl bad ↦ let none_some = rw bad at h in cc
      | inr fine ↦ at_malformed url url.hostname e (rw fine at h)
    ]

disallowed : (as' : List String) → origin_allowed none as' ≡ false
unfolding origin_allowed
disallowed as' = refl

unsplit : (split : Option SplitUrl) → split ≡ none → origin split ≡ err value_error
unfolding origin
unsplit split h = rw h refl

module _ (config : Config) (claim : Claim) where
  pub allowed-IsTarget :
      (o : Option String)
      → origin (config.urlsplit claim.target_url) ≡ ok o
      → origin_allowed o config.allowed_origins ≡ true
      → IsTarget config claim
  allowed-IsTarget none e h = let refused = disallowed config.allowed_origins in cc
  allowed-IsTarget (some o) e h = elim (Option-cases (config.urlsplit claim.target_url)) [
    | inl broken ↦ let raised = unsplit (config.urlsplit claim.target_url) broken in cc
    | inr (url, split) ↦
        let named : origin (some url) ≡ ok (some o) = rw split at e in
        let (scheme, user, password, fragment) = origin_plain url o named in
        (
          url,
          split,
          scheme,
          user,
          password,
          fragment,
          o,
          named,
          allowed-Lists o config.allowed_origins h,
        )
  ]

  pub IsTarget-allowed :
      (o : Option String)
      → origin (config.urlsplit claim.target_url) ≡ ok o
      → IsTarget config claim
      → origin_allowed o config.allowed_origins ≡ true
  IsTarget-allowed o e (url, split, scheme, user, password, fragment, p, named, listed) =
      let same : o ≡ some p = cc in rw same (Lists-allowed p config.allowed_origins listed)
