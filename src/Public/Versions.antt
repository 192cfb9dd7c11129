-- ===== src/Public/Versions.antt =====
-- The text that names the version of a run, and the agent that it names.
use Prim.Native.Nat.{compare, Ordering}
use Prim.Native.Char.{Char, code}
use text.Mathlib.TextEquality.{codes_equal}
use Prim.Native.String.{◌++◌}
use Prim.Native.String.append
use universal_agent_studio.Prelude.{
  ◌==◌, ◌≡◌, refl, subst, ap, String, eq_iff, true, false, some, Option-cases, inl, inr, arith,
}
use universal_agent_studio.Credentials.{Library}
use universal_agent_studio.RunService.{StoredRun}
use universal_agent_studio.Public.Reading.{rpartition_version, belongs_to_agent, behind_mark}

order_eq : (o : Ordering) → elim o [ Ordering.eq ↦ true | _ ↦ false ] ≡ true → o ≡ Ordering.eq
order_eq Ordering.eq h = refl
order_eq Ordering.lt h = cc
order_eq Ordering.gt h = cc

same_char : (c d : Char) → (code c == code d) ≡ true → c ≡ d
same_char c d h = codes_equal c d (order_eq (compare (code c) (code d)) h)

mark_lem :
    (c : Char) (s rest : String) → behind_mark c s ≡ some rest → String.◌∷◌ c s ≡ "-v" ++ rest
mark_lem c String.[] rest e = cc
mark_lem c (String.◌∷◌ d s) rest e =
    let dash : c ≡ "-" = same_char c "-" (ground (arith, e)) in
    let v : d ≡ "v" = same_char d "v" (ground (arith, e)) in
    let same : s ≡ rest = ground (arith, e) in
    rw (append.cons "-" "v" rest, append.cons "v" "" rest, append.nil rest)
      (λ i. String.◌∷◌ (dash i) (String.◌∷◌ (v i) (same i)))

rpartition_version_lem :
    (s before behind : String)
    → rpartition_version s ≡ some (before, behind)
    → s ≡ before ++ ("-v" ++ behind)
unfolding rpartition_version
rpartition_version_lem String.[] before behind e = cc
rpartition_version_lem (String.◌∷◌ c s) before behind e =
    elim (Option-cases (rpartition_version s)) [
      | inr ((front, rest), deeper) ↦
          let fst : String.◌∷◌ c front ≡ before = ground (arith, deeper, e) in
          let snd : rest ≡ behind = ground (arith, deeper, e) in
          rw (← fst, ← snd, append.cons c front ("-v" ++ rest))
            (ap (λ t. String.◌∷◌ c t) (rpartition_version_lem s front rest deeper))
      | inl flat ↦ elim (Option-cases (behind_mark c s)) [
        | inl other ↦ absurd (ground (arith, flat, other, e))
        | inr (rest, marked) ↦
            let fst : String.[] ≡ before = ground (arith, flat, marked, e) in
            let snd : rest ≡ behind = ground (arith, flat, marked, e) in
            rw (← fst, ← snd, append.nil ("-v" ++ rest)) (mark_lem c s rest marked)
      ]
    ]

-- A run that belongs to an agent has a version whose text is that of the agent, "-v" and digits.
pub belongs_to_agent_lem :
    (lib : Library) (run : StoredRun) (agent_id : String)
    → belongs_to_agent lib run agent_id ≡ true
    → (number : String) × (run.agent_version_id ≡ agent_id ++ ("-v" ++ number))
      × (lib.isdigit number ≡ true)
unfolding belongs_to_agent
belongs_to_agent_lem lib run agent_id h =
    elim (Option-cases (rpartition_version run.agent_version_id)) [
      | inl none_found ↦ absurd (ground (arith, none_found, h))
      | inr ((front, number), e) ↦
          let same : front ≡ agent_id = (eq_iff front agent_id).0 (ground (arith, e, h)) in
          (
            number,
            subst (λ (a : String). run.agent_version_id ≡ a ++ ("-v" ++ number)) same
                (rpartition_version_lem run.agent_version_id front number e),
            ground (arith, e, h),
          )
    ]
