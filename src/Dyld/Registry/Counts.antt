-- ===== src/Dyld/Registry/Counts.antt =====
-- References between the libraries of internal/runtime/dyld/adapter.go, counted.
use particles.Base.{
  ℕ, suc, ◌+◌, ◌≡◌, refl, ap, subst, ◌∙◌, Bool, true, false, Option, none, some, List, [], ◌∷◌,
  ◌++◌, length, sum_of, All, ◌==◌, if◌then◌else◌, arith,
}
use particles.Base.Bytes.{name_eq, name_eq_refl, name_eq_sound}
use mathlib.Core.Option.{some-injective}
use particles.Dyld.Names.{Name}
use particles.Dyld.Info.{NameMap, lookup, nth}
use particles.Dyld.Registry.{Library, remove}

abbrev pub occurs : ℕ → List ℕ → ℕ
occurs x [] = 0
occurs x (y ∷ l) = (if x == y then 1 else 0) + occurs x l

pub occurs-append : (x : ℕ) (l k : List ℕ) → occurs x (l ++ k) ≡ occurs x l + occurs x k
occurs-append x [] k = omega arith
occurs-append x (y ∷ l) k = omega (arith, occurs-append x l k)

abbrev pub deps_of : Option Library → List ℕ
deps_of none = []
deps_of (some lib) = lib.needed_deps

abbrev pub name_of : Option Library → Name
name_of none = []
name_of (some lib) = lib.name

-- How often the loaded libraries need `x`
abbrev pub edges : List Library → NameMap → ℕ → ℕ
edges libs loaded x = sum_of (λ (e : Name × ℕ). occurs x (deps_of (nth libs e.1))) loaded

abbrev pub IsAbsent : Name → NameMap → Type 0
IsAbsent k m = All (λ (e : Name × ℕ). name_eq e.0 k ≡ false) m

abbrev pub HasDistinctKeys : NameMap → Type 0
HasDistinctKeys [] = Unit
HasDistinctKeys ((k, v) ∷ m) = IsAbsent k m × HasDistinctKeys m

remove_absent : (k : Name) (m : NameMap) → IsAbsent k m → remove k m ≡ m
unfolding remove
remove_absent k [] h = refl
remove_absent k ((j, v) ∷ m) (e, h) = ground (arith, e, remove_absent k m h)

pub lookup-remove :
    (k j : Name) (m : NameMap) → lookup j (remove k m) ≡ (if name_eq k j then none else lookup j m)
unfolding lookup remove
lookup-remove k j [] = ground arith
lookup-remove k j ((i, w) ∷ m) = ground (
  arith,
  lookup-remove k j m,
  name_eq_sound i k,
  name_eq_sound i j,
  name_eq_sound k j,
  name_eq_refl k,
  name_eq_refl i,
)

same_key :
    (f : Name × ℕ → ℕ) (k : Name) (i : ℕ) (j : Name) (v : ℕ) (m : NameMap)
    → IsAbsent j m
    → name_eq j k ≡ true
    → some v ≡ some i
    → (f (j, v) ≡ f (k, i)) × (remove k m ≡ m)
same_key f k i j v m absent e h =
    let p = name_eq_sound j k e in
    let q = some-injective v i h in
    (
      ap (λ (n : Name). f (n, v)) p ∙ ap (λ (x : ℕ). f (k, x)) q,
      remove_absent k m (subst (λ (n : Name). IsAbsent n m) p absent),
    )

-- A key that stands in the map takes its share with it.
pub sum_of-remove :
    (f : Name × ℕ → ℕ) (k : Name) (i : ℕ) (m : NameMap)
    → HasDistinctKeys m
    → lookup k m ≡ some i
    → (sum_of f m ≡ f (k, i) + sum_of f (remove k m)) × (length m ≡ suc (length (remove k m)))
unfolding lookup remove
sum_of-remove f k i [] d h = cc
sum_of-remove f k i ((j, v) ∷ m) (absent, d) h =
    ground (arith, h, sum_of-remove f k i m d, name_eq_sound j k, same_key f k i j v m absent)

either : (P : NameMap → Type 0) (b : Bool) (x y : NameMap) → P x → P y → P (if b then x else y)
either P true x y h k = h
either P false x y h k = k

IsAbsent-remove : (j k : Name) (m : NameMap) → IsAbsent j m → IsAbsent j (remove k m)
unfolding remove
IsAbsent-remove j k [] h = tt
IsAbsent-remove j k ((i, v) ∷ m) (e, h) =
    let rest = IsAbsent-remove j k m h in
    either (IsAbsent j) (name_eq i k) (remove k m) ((i, v) ∷ remove k m) rest (e, rest)

pub HasDistinctKeys-remove :
    (k : Name) (m : NameMap) → HasDistinctKeys m → HasDistinctKeys (remove k m)
unfolding remove
HasDistinctKeys-remove k [] d = tt
HasDistinctKeys-remove k ((i, v) ∷ m) (absent, d) =
    let rest = HasDistinctKeys-remove k m d in
    either HasDistinctKeys (name_eq i k) (remove k m) ((i, v) ∷ remove k m) rest
      (IsAbsent-remove i k m absent, rest)

pub All-remove {κ} : (P : Name × ℕ → Type κ) (k : Name) (m : NameMap) → All P m → All P (remove k m)
unfolding remove
All-remove P k [] h = tt
All-remove P k ((j, v) ∷ m) (p, h) =
    elim (name_eq j k) as (λ b. All P (if b then remove k m else (j, v) ∷ remove k m)) [
      | true ↦ All-remove P k m h
      | false ↦ (p, All-remove P k m h)
    ]
