-- ===== src/Base/Sort.antt =====
-- The insertion sort of runtime/manifest.go (`sortStrings`), which also stands for Go's
-- `sort.Strings`: both order the texts by their bytes, which for UTF-8 is the order of code points.
use Prim.Native.String.compare
use Prim.Native.String.{String, compare}
use mathlib.Core.Path.{◌≡◌, refl, subst}
use mathlib.Core.Bool.{Bool, true, false}
use mathlib.Core.Logic.{inl, inr}
use mathlib.Core.List.{
  List, [], ◌∷◌, ◌++◌, Perm, reverse_perm, reverse, reverse_aux, perm_middle, append-nil,
}
use mathlib.Core.List.Perm
use native.Mathlib.Omega.{arith}
use text.Mathlib.Text.{is_lt}
use particles.Base.Tests.{if◌then◌else◌, Bool-cases}

-- a < b
abbrev pub str_lt : String → String → Bool
str_lt a b = is_lt (compare a b)

-- The inner loop: `x` moves to the left past the larger texts. The sorted part is held from right to
-- left, so its head is the neighbour of `x`.
unfoldable pub sink : String → List String → List String
sink x [] = x ∷ []
sink x (y ∷ ys) = let further = y ∷ sink x ys in if str_lt x y then further else x ∷ y ∷ ys

-- The outer loop.
unfoldable pub sort_onto : List String → List String → List String
sort_onto sorted [] = reverse sorted
sort_onto sorted (x ∷ xs) = sort_onto (sink x sorted) xs

unfoldable pub sort_strings : List String → List String
unfolding sort_onto sink
sort_strings s = sort_onto [] s

sink-perm : (x : String) (ys : List String) → Perm (sink x ys) (x ∷ ys)
unfolding sink
sink-perm x [] = Perm.refl (x ∷ [])
sink-perm x (y ∷ ys) = elim (Bool-cases (str_lt x y)) [
  | inl lt ↦ rw lt (Perm.trans (Perm.cons y (sink-perm x ys)) (Perm.swap x y ys))
  | inr ge ↦ rw ge (Perm.refl (x ∷ y ∷ ys))
]

sorted : sort_strings ("b" ∷ "a" ∷ "c" ∷ "a" ∷ []) ≡ "a" ∷ "a" ∷ "b" ∷ "c" ∷ []
unfolding sort_strings
sorted = refl

sort_onto-perm : (done xs : List String) → Perm (sort_onto done xs) (xs ++ done)
unfolding sort_onto
sort_onto-perm done [] = reverse_perm done
sort_onto-perm done (x ∷ xs) =
    Perm.trans (sort_onto-perm (sink x done) xs)
      (Perm.trans (Perm.append_left xs (sink-perm x done)) (perm_middle xs done))

-- The sort keeps every text as often as it stands.
pub sort_strings-perm : (s : List String) → Perm (sort_strings s) s
unfolding sort_strings
sort_strings-perm s = subst (λ z. Perm (sort_onto [] s) z) (append-nil s) (sort_onto-perm [] s)

-- Of two texts only one is below the other.
pub str_lt-asymm : (s t : String) → str_lt s t ≡ true → str_lt t s ≡ false
str_lt-asymm String.[] String.[] h = cc
str_lt-asymm String.[] (String.◌∷◌ d t) h = rw (compare.cons-nil d t)
str_lt-asymm (String.◌∷◌ c s) String.[] h = ground (arith, compare.cons-nil c s)
str_lt-asymm (String.◌∷◌ c s) (String.◌∷◌ d t) h =
    ground (arith, compare.cons-cons c d s t, compare.cons-cons d c t s, str_lt-asymm s t)

-- `a` may stand directly before the texts of `l`.
abbrev pub MayPrecede : String → List String → Type 0
MayPrecede a [] = Unit
MayPrecede a (b ∷ l) = str_lt b a ≡ false

-- No text is above the one after it.
abbrev pub IsSorted : List String → Type 0
IsSorted [] = Unit
IsSorted (a ∷ l) = MayPrecede a l × IsSorted l

abbrev MayFollow : String → List String → Type 0
MayFollow a [] = Unit
MayFollow a (b ∷ l) = str_lt a b ≡ false

-- The sorted part, from right to left.
abbrev IsSortedBack : List String → Type 0
IsSortedBack [] = Unit
IsSortedBack (a ∷ l) = MayFollow a l × IsSortedBack l

sink-MayFollow :
    (a x : String) (l : List String) → MayFollow a l → str_lt a x ≡ false → MayFollow a (sink x l)
unfolding sink
sink-MayFollow a x [] h k = k
sink-MayFollow a x (b ∷ l) h k = ground arith

sink-IsSortedBack : (x : String) (l : List String) → IsSortedBack l → IsSortedBack (sink x l)
unfolding sink
sink-IsSortedBack x [] h = (tt, tt)
sink-IsSortedBack x (b ∷ l) h =
    ground (arith, sink-IsSortedBack x l h.1, sink-MayFollow b x l h.0, str_lt-asymm x b)

-- The right end of the sorted part, and the texts already placed after it.
abbrev Meets : List String → List String → Type 0
Meets [] acc = Unit
Meets (a ∷ l) acc = MayPrecede a acc

Meets-of_follow : (a : String) (l acc : List String) → MayFollow a l → Meets l (a ∷ acc)
Meets-of_follow a [] acc f = tt
Meets-of_follow a (b ∷ l) acc f = f

Meets-nil : (l : List String) → Meets l []
Meets-nil [] = tt
Meets-nil (a ∷ l) = tt

reverse_aux-IsSorted :
    (l acc : List String)
    → IsSortedBack l
    → IsSorted acc
    → Meets l acc
    → IsSorted (reverse_aux l acc)
reverse_aux-IsSorted [] acc h k m = k
reverse_aux-IsSorted (a ∷ l) acc (f, h) k m =
    reverse_aux-IsSorted l (a ∷ acc) h (m, k) (Meets-of_follow a l acc f)

sort_onto-IsSorted : (done xs : List String) → IsSortedBack done → IsSorted (sort_onto done xs)
unfolding sort_onto
sort_onto-IsSorted done [] h = reverse_aux-IsSorted done [] h tt (Meets-nil done)
sort_onto-IsSorted done (x ∷ xs) h =
    sort_onto-IsSorted (sink x done) xs (sink-IsSortedBack x done h)

-- The result of the sort is in order.
pub sort_strings-IsSorted : (s : List String) → IsSorted (sort_strings s)
unfolding sort_strings
sort_strings-IsSorted s = sort_onto-IsSorted [] s tt
