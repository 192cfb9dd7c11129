-- ===== src/Redaction/Keys.antt =====
-- What the normalisation of a key comes to.
use universal_agent_studio.Prelude.{
  ℕ, ◌≡◌, refl, ◌∙◌, Bool, ◌&&◌, List, [], ◌∷◌, ◌++◌, keep, arith, Bool-cases, inl, inr,
}
use universal_agent_studio.Redaction.{
  is_lower_or_digit, is_upper, lower_char, snake_key, lower, normalized_codes,
}

keep-append : (p : ℕ → Bool) (xs ys : List ℕ) → keep p (xs ++ ys) ≡ keep p xs ++ keep p ys
keep-append p [] ys = refl
keep-append p (x ∷ xs) ys = ground (arith, keep-append p xs ys)

lower-cons :
    (a : ℕ) (cs ds : List ℕ)
    → keep is_lower_or_digit (lower cs) ≡ keep is_lower_or_digit (lower ds)
    → keep is_lower_or_digit (lower (a ∷ cs)) ≡ keep is_lower_or_digit (lower (a ∷ ds))
unfolding lower
lower-cons a cs ds h = cc (
  keep-append is_lower_or_digit (lower_char a) (lower cs),
  keep-append is_lower_or_digit (lower_char a) (lower ds),
)

-- The underscore is dropped.
lower-underscore :
    (cs : List ℕ) → keep is_lower_or_digit (lower (b'_' ∷ cs)) ≡ keep is_lower_or_digit (lower cs)
unfolding lower
lower-underscore cs = refl

snake_key_dropped :
    (key : List ℕ)
    → keep is_lower_or_digit (lower (snake_key key)) ≡ keep is_lower_or_digit (lower key)
unfolding snake_key
snake_key_dropped [] = refl
snake_key_dropped (a ∷ []) = refl
snake_key_dropped (a ∷ b ∷ rest) = elim (Bool-cases (is_lower_or_digit a && is_upper b)) [
  | inl matched ↦ rw matched (
      lower-cons a _ _
        (lower-underscore (b ∷ snake_key rest) ∙ lower-cons b _ _ (snake_key_dropped rest)))
  | inr skipped ↦ rw skipped (lower-cons a _ _ (snake_key_dropped (b ∷ rest)))
]

-- The first substitution of `_normalized_key` has no effect on its result, for any key: the
-- underscore that it puts in is dropped by the second one, so that only the lower-cased letters
-- and digits of the key count.
pub snake_key_redundant : (key : List ℕ) → normalized_codes key ≡ keep is_lower_or_digit (lower key)
unfolding normalized_codes
snake_key_redundant key = snake_key_dropped key
