-- ===== src/Prelude/Partition.antt =====
-- `str.partition` at a character, and `str.startswith` with `str.removeprefix`, on native texts.
use Prim.Native.Nat.{ℕ}
use Prim.Native.Char.{Char, code}
use Prim.Native.String.{String, ◌++◌}
use Prim.Native.String.append
use mathlib.Core.Path.{◌≡◌, refl}
use mathlib.Core.Bool.{Bool, true, ◌&&◌, not}
use mathlib.Core.Option.{Option, none, some}
use native.Mathlib.Omega.{arith}
use universal_agent_studio.Prelude.Tests.{◌==◌, if◌then◌else◌, ==_refl}

abbrev put_front : Char → Option (String × String) → Option (String × String)
put_front c none = none
put_front c (some (before, behind)) = some (String.◌∷◌ c before, behind)

-- The parts before and behind the first character of the code, if there is one.
abbrev pub partition : ℕ → String → Option (String × String)
partition k String.[] = none
partition k (String.◌∷◌ c s) =
    let rest = put_front c (partition k s) in if code c == k then some (String.[], s) else rest

abbrev pub lacks : ℕ → String → Bool
lacks k String.[] = true
lacks k (String.◌∷◌ c s) = not (code c == k) && lacks k s

abbrev pub remove_prefix : String → String → Option String
remove_prefix String.[] s = some s
remove_prefix (String.◌∷◌ c p) String.[] = none
remove_prefix (String.◌∷◌ c p) (String.◌∷◌ d s) =
    if code c == code d then remove_prefix p s else none

pub remove_prefix-append : (p s : String) → remove_prefix p (p ++ s) ≡ some s
remove_prefix-append String.[] s = rw (append.nil s) refl
remove_prefix-append (String.◌∷◌ c p) s =
    rw (append.cons c p s) (ground (arith, ==_refl (code c), remove_prefix-append p s))

pub lacks-append :
    (k : ℕ) (s t : String) → lacks k s ≡ true → lacks k t ≡ true → lacks k (s ++ t) ≡ true
lacks-append k String.[] t h g = rw (append.nil t) g
lacks-append k (String.◌∷◌ c s) t h g = rw (append.cons c s t) (ground (arith, lacks-append k s t))

pub partition-append :
    (c : Char) (s t : String)
    → lacks (code c) s ≡ true
    → partition (code c) (s ++ String.◌∷◌ c t) ≡ some (s, t)
partition-append c String.[] t h =
    rw (append.nil (String.◌∷◌ c t)) (ground (arith, ==_refl (code c)))
partition-append c (String.◌∷◌ d s) t h =
    rw (append.cons d s (String.◌∷◌ c t)) (ground (arith, partition-append c s t))
