-- ===== src/Base/Bytes.antt =====
-- Go strings as lists of bytes: equality and prefixes.
use Prim.Native.Nat.{ℕ}
use mathlib.Core.Path.{◌≡◌, refl}
use mathlib.Core.Bool.{Bool, true, false, ◌&&◌}
use mathlib.Core.List.{List, [], ◌∷◌, ◌++◌}
use native.Mathlib.Omega.{arith}
use particles.Base.Tests.{◌==◌, if◌then◌else◌}

unfoldable pub name_eq : List ℕ → List ℕ → Bool
name_eq [] [] = true
name_eq (a ∷ x) (b ∷ y) = a == b && name_eq x y
name_eq _ _ = false

-- strings.HasPrefix
unfoldable pub has_prefix : List ℕ → List ℕ → Bool
has_prefix x [] = true
has_prefix (a ∷ x) (b ∷ p) = a == b && has_prefix x p
has_prefix [] (b ∷ p) = false

unfoldable pub trim_prefix : List ℕ → List ℕ → List ℕ
trim_prefix (a ∷ x) (b ∷ p) = let rest = trim_prefix x p in if a == b then rest else a ∷ x
trim_prefix x [] = x
trim_prefix [] (b ∷ p) = []

-- strings.TrimPrefix: nothing is cut where the prefix does not stand
unfoldable pub trimmed : List ℕ → List ℕ → List ℕ
unfolding trim_prefix has_prefix
trimmed x p = if has_prefix x p then trim_prefix x p else x

pub name_eq_sound : (x y : List ℕ) → name_eq x y ≡ true → x ≡ y
unfolding name_eq
name_eq_sound [] [] h = refl
name_eq_sound [] (b ∷ y) h = cc
name_eq_sound (a ∷ x) [] h = cc
name_eq_sound (a ∷ x) (b ∷ y) h = ground (arith, h, name_eq_sound x y)

pub name_eq_refl : (x : List ℕ) → name_eq x x ≡ true
unfolding name_eq
name_eq_refl [] = refl
name_eq_refl (a ∷ x) = ground (arith, name_eq_refl x)

pub has_prefix-append : (p x : List ℕ) → has_prefix (p ++ x) p ≡ true
unfolding has_prefix
has_prefix-append [] x = refl
has_prefix-append (a ∷ p) x = ground (arith, has_prefix-append p x)

-- A prefix, and what follows it
pub has_prefix_sound : (x p : List ℕ) → has_prefix x p ≡ true → (rest : List ℕ) × (x ≡ p ++ rest)
unfolding has_prefix
has_prefix_sound x [] h = (x, refl)
has_prefix_sound [] (b ∷ p) h = cc
has_prefix_sound (a ∷ x) (b ∷ p) h =
    let (rest, e) = has_prefix_sound x p (ground (arith, h)) in (rest, ground (arith, h, e))
