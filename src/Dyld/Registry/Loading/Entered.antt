-- ===== src/Dyld/Registry/Loading/Entered.antt =====
-- Libraries of internal/runtime/dyld that get a reference, or enter the registry (load).
use mathlib.Core.Option.{some-injective}
use particles.Base.{
  ℕ, zero, suc, ◌+◌, ◌<◌, ◌≤◌, ◌≡◌, ◌≢◌, refl, sym, ap, subst, ◌∙◌, Bool, true, false, Option, none,
  some, List, [], ◌∷◌, ◌++◌, length, length-append, sum_of-append, All, All-append, All-map, ltb,
  ◌==◌, if◌then◌else◌, Bool-cases, inl, inr, arith,
}
use particles.Base.Bytes.{name_eq, name_eq_refl, name_eq_sound}
use particles.Dyld.Names.{Name}
use particles.Dyld.Info.{NameMap, lookup, assign, nth}
use particles.Dyld.Linking.Interning.{nth-length}
use particles.Dyld.Registry.{Library, Adapter, raised, is_preloaded, reopen, register}
use particles.Dyld.Registry.Counts.{
  occurs, occurs-append, deps_of, name_of, edges, HasDistinctKeys, IsAbsent,
}
use particles.Dyld.Registry.Unref.{IsOpen, references, IsCounted}

module _ (a : Adapter) (i : ℕ) (holders : List ℕ) (c : IsCounted a holders) where
  raised-IsCounted :
      IsOpen a.libs a.loaded i
      → IsCounted (record a { ref_count = raised i a.ref_count }) (i ∷ holders)
  unfolding raised
  raised-IsCounted o = record {
    keys = c.keys;
    in_range = c.in_range;
    named = c.named;
    exact = λ x p. ground (arith, c.exact x p);
    is_open = λ x p. opened x p;
    used = λ x p. ground (arith, c.used x p);
  }
    where
      opened : (x : ℕ) → 0 < references a.libs a.loaded (i ∷ holders) x → IsOpen a.libs a.loaded x
      opened x p = elim (Bool-cases (x == i)) [
        | inl e ↦ let same : i ≡ x = ground (arith, e) in subst (IsOpen a.libs a.loaded) same o
        | inr e ↦ c.is_open x (ground (arith, e, p))
      ]

-- One more handle on a library that is in the registry: a reference where it is counted.
pub reopen-IsCounted :
    (a : Adapter) (name : Name) (i : ℕ) (holders : List ℕ)
    → IsCounted a holders
    → lookup name a.loaded ≡ some i
    → IsCounted (reopen i a) (if is_preloaded (nth a.libs i) then holders else i ∷ holders)
unfolding reopen
reopen-IsCounted a name i holders c at = elim (Bool-cases (is_preloaded (nth a.libs i))) [
  | inl e ↦ rw e c
  | inr e ↦
      let n = c.named name i at in
      rw e (
        raised-IsCounted a i holders c
          (record { registered = ap (λ (k : Name). lookup k a.loaded) n ∙ at; at_run_time = e }))
]

assign_absent :
    (k : Name) (v : ℕ) (m : NameMap) → lookup k m ≡ none → assign k v m ≡ m ++ ((k, v) ∷ [])
unfolding lookup assign
assign_absent k v [] h = refl
assign_absent k v ((j, w) ∷ m) h = ground (arith, h, assign_absent k v m)

pub lookup-assign :
    (k j : Name) (v : ℕ) (m : NameMap)
    → lookup j (assign k v m) ≡ (if name_eq k j then some v else lookup j m)
unfolding lookup assign
lookup-assign k j v [] = refl
lookup-assign k j v ((i, w) ∷ m) = ground (
  arith,
  lookup-assign k j v m,
  name_eq_sound i k,
  name_eq_sound i j,
  name_eq_sound k j,
  name_eq_refl k,
  name_eq_refl i,
)

lookup-IsAbsent : (k : Name) (m : NameMap) → lookup k m ≡ none → IsAbsent k m
unfolding lookup
lookup-IsAbsent k [] h = tt
lookup-IsAbsent k ((j, w) ∷ m) h = (ground (arith, h), lookup-IsAbsent k m (ground (arith, h)))

distinct_append :
    (m : NameMap) (k : Name) (v : ℕ)
    → IsAbsent k m
    → HasDistinctKeys m
    → HasDistinctKeys (m ++ ((k, v) ∷ []))
distinct_append [] k v h d = (tt, tt)
distinct_append ((j, w) ∷ m) k v (e, h) (absent, d) =
    let other : name_eq k j ≡ false = ground (arith, e, name_eq_sound k j, name_eq_refl j) in
    (All-append _ m ((k, v) ∷ []) absent (other, tt), distinct_append m k v h d)

nth_out : {A : Type 0} (xs : List A) (i : ℕ) → length xs ≤ i → nth xs i ≡ none
unfolding nth
nth_out [] i h = refl
nth_out (x ∷ xs) zero h = absurd (omega (arith, h))
nth_out (x ∷ xs) (suc i) h = nth_out xs i (omega (arith, h))

nth_kept :
    {A : Type 0} (xs : List A) (y : A) (i : ℕ) → i < length xs → nth (xs ++ (y ∷ [])) i ≡ nth xs i
unfolding nth
nth_kept [] y i h = absurd (omega (arith, h))
nth_kept (x ∷ xs) y zero h = refl
nth_kept (x ∷ xs) y (suc i) h = nth_kept xs y i (omega (arith, h))

-- A library that is made later changes nothing for those that are loaded.
edges_kept :
    (libs : List Library) (lib : Library) (m : NameMap) (x : ℕ)
    → All (λ (e : Name × ℕ). e.1 < length libs) m
    → edges (libs ++ (lib ∷ [])) m x ≡ edges libs m x
edges_kept libs lib [] x h = refl
edges_kept libs lib ((k, i) ∷ m) x (p, h) =
    let same = ap (λ (o : Option Library). occurs x (deps_of o)) (nth_kept libs lib i p) in
    omega (arith, same, edges_kept libs lib m x h)

in_range_of :
    (libs : List Library) (k : Name) (i : ℕ) (m : NameMap)
    → All (λ (e : Name × ℕ). e.1 < length libs) m
    → lookup k m ≡ some i
    → i < length libs
unfolding lookup
in_range_of libs k i [] h at = cc
in_range_of libs k i ((j, w) ∷ m) (p, h) at = elim (Bool-cases (name_eq j k)) [
  | inl e ↦
      let q : ◌≡◌ {A = Option ℕ} (some w) (some i) = ground (arith, e, at) in
      subst (λ (n : ℕ). n < length libs) (some-injective w i q) p
  | inr e ↦ in_range_of libs k i m h (ground (arith, e, at))
]

no_library : is_preloaded none ≡ false → ⊥
unfolding is_preloaded
no_library e = cc

other_found :
    (b : Bool) (new x : ℕ) (l : Option ℕ)
    → (if b then some new else l) ≡ some x
    → x ≢ new
    → l ≡ some x
other_found true new x l h other = absurd (other (sym (some-injective new x h)))
other_found false new x l h other = h

module _ (a : Adapter) (lib : Library) (holders : List ℕ)
    (c : IsCounted a (lib.needed_deps ++ holders)) (absent : lookup lib.name a.loaded ≡ none)
    (run_time : lib.preloaded ≡ false) where
  abbrev new : ℕ
  new = length a.libs

  abbrev libs_after : List Library
  libs_after = a.libs ++ (lib ∷ [])

  abbrev loaded_after : NameMap
  loaded_after = assign lib.name new a.loaded

  appended : loaded_after ≡ a.loaded ++ ((lib.name, new) ∷ [])
  appended = assign_absent lib.name new a.loaded absent

  -- The references after: the caller's, those to the libraries it needs, and the others
  references_after :
      (x : ℕ)
      → references libs_after loaded_after (new ∷ holders) x
        ≡ (if x == new then 1 else 0) + references a.libs a.loaded (lib.needed_deps ++ holders) x
  references_after x =
      let split =
        ap (λ (m : NameMap). edges libs_after m x) appended
        ∙ sum_of-append (λ (e : Name × ℕ). occurs x (deps_of (nth libs_after e.1))) a.loaded
            ((lib.name, new) ∷ []) in
      let kept = edges_kept a.libs lib a.loaded x c.in_range in
      let own : occurs x (deps_of (nth libs_after new)) ≡ occurs x lib.needed_deps =
        ap (λ (o : Option Library). occurs x (deps_of o)) (nth-length a.libs lib) in
      omega (arith, split, kept, own, occurs-append x lib.needed_deps holders)

  known : (x : ℕ) → IsOpen a.libs a.loaded x → x < new
  known x o = in_range_of a.libs (name_of (nth a.libs x)) x a.loaded c.in_range o.registered

  unreferenced : references a.libs a.loaded (lib.needed_deps ++ holders) new ≡ 0
  unreferenced =
      elim (Bool-cases (ltb 0 (references a.libs a.loaded (lib.needed_deps ++ holders) new))) [
        | inl e ↦
            let p : 0 < references a.libs a.loaded (lib.needed_deps ++ holders) new =
              ground (arith, e) in
            absurd (omega (arith, known new (c.is_open new p)))
        | inr e ↦ ground (arith, e)
      ]

  is_run_time : is_preloaded (some lib) ≡ false
  unfolding is_preloaded
  is_run_time = run_time

  new-IsOpen : IsOpen libs_after loaded_after new
  new-IsOpen =
      let at = nth-length a.libs lib in
      record {
        registered =
            ap (λ (o : Option Library). lookup (name_of o) loaded_after) at
            ∙ (lookup-assign lib.name lib.name new a.loaded ∙ rw (name_eq_refl lib.name) refl);
        at_run_time = ap is_preloaded at ∙ is_run_time;
      }

  another_name :
      (x : ℕ)
      → lookup (name_of (nth a.libs x)) a.loaded ≡ some x
      → name_eq lib.name (name_of (nth a.libs x)) ≡ false
  another_name x at = elim (Bool-cases (name_eq lib.name (name_of (nth a.libs x)))) [
    | inl e ↦
        let p = name_eq_sound lib.name (name_of (nth a.libs x)) e in
        let q = sym absent ∙ (ap (λ (n : Name). lookup n a.loaded) p ∙ at) in absurd (cc q)
    | inr e ↦ e
  ]

  still-IsOpen : (x : ℕ) → IsOpen a.libs a.loaded x → IsOpen libs_after loaded_after x
  still-IsOpen x o =
      let at = nth_kept a.libs lib x (known x o) in
      record {
        registered =
            ap (λ (p : Option Library). lookup (name_of p) loaded_after) at
            ∙ (lookup-assign lib.name (name_of (nth a.libs x)) new a.loaded
                ∙ rw (another_name x o.registered) o.registered);
        at_run_time = ap is_preloaded at ∙ o.at_run_time;
      }

  within_libs : (x : ℕ) → x ≢ new → IsOpen libs_after loaded_after x → x < new
  within_libs x other o = elim (Bool-cases (ltb x new)) [
    | inl e ↦ ground (arith, e)
    | inr e ↦
        let size = length-append a.libs (lib ∷ []) in
        let beyond : suc new ≤ x = ground (arith, e, other) in
        let gone = nth_out libs_after x (omega (arith, size, beyond)) in
        absurd (no_library (sym (ap is_preloaded gone) ∙ o.at_run_time))
  ]

  was-IsOpen : (x : ℕ) → x ≢ new → IsOpen libs_after loaded_after x → IsOpen a.libs a.loaded x
  was-IsOpen x other o =
      let at = nth_kept a.libs lib x (within_libs x other o) in
      let n : Name = name_of (nth a.libs x) in
      let found : lookup n loaded_after ≡ some x =
        sym (ap (λ (p : Option Library). lookup (name_of p) loaded_after) at) ∙ o.registered in
      let parts = sym (lookup-assign lib.name n new a.loaded) ∙ found in
      record {
        registered = other_found (name_eq lib.name n) new x (lookup n a.loaded) parts other;
        at_run_time = sym (ap is_preloaded at) ∙ o.at_run_time;
      }

  name_kept : (n : Name) (i : ℕ) → lookup n loaded_after ≡ some i → name_of (nth libs_after i) ≡ n
  name_kept n i at =
      let parts = sym (lookup-assign lib.name n new a.loaded) ∙ at in
      elim (Bool-cases (name_eq lib.name n)) [
        | inl e ↦
            let same : ◌≡◌ {A = Option ℕ} (some new) (some i) = ground (arith, e, parts) in
            let p = name_eq_sound lib.name n e in
            ap (λ (k : ℕ). name_of (nth libs_after k)) (sym (some-injective new i same))
            ∙ (ap name_of (nth-length a.libs lib) ∙ p)
        | inr e ↦
            let old : lookup n a.loaded ≡ some i = ground (arith, e, parts) in
            ap name_of (nth_kept a.libs lib i (in_range_of a.libs n i a.loaded c.in_range old))
            ∙ c.named n i old
      ]

  count_is :
      (x : ℕ)
      → IsOpen libs_after loaded_after x
      → (if x == new then 1 else a.ref_count x)
        ≡ references libs_after loaded_after (new ∷ holders) x
  count_is x o = elim (Bool-cases (x == new)) [
    | inl e ↦
        let same : x ≡ new = ground (arith, e) in
        let none_before =
          ap (λ (y : ℕ). references a.libs a.loaded (lib.needed_deps ++ holders) y) same
          ∙ unreferenced in
        ground (arith, e, references_after x, none_before)
    | inr e ↦
        let other : x ≢ new = λ same. ground (arith, e, same) in
        ground (arith, e, references_after x, c.exact x (was-IsOpen x other o))
  ]

  opened :
      (x : ℕ)
      → 0 < references libs_after loaded_after (new ∷ holders) x
      → IsOpen libs_after loaded_after x
  opened x p = elim (Bool-cases (x == new)) [
    | inl e ↦
        let same : new ≡ x = ground (arith, e) in
        subst (IsOpen libs_after loaded_after) same new-IsOpen
    | inr e ↦ still-IsOpen x (c.is_open x (ground (arith, e, p, references_after x)))
  ]

  in_use :
      (x : ℕ)
      → IsOpen libs_after loaded_after x
      → 0 < references libs_after loaded_after (new ∷ holders) x
  in_use x o = elim (Bool-cases (x == new)) [
    | inl e ↦ ground (arith, e)
    | inr e ↦
        let other : x ≢ new = λ same. ground (arith, e, same) in
        ground (arith, e, references_after x, c.used x (was-IsOpen x other o))
  ]

  -- A library that is entered takes over the references to those it needs, and its caller holds one.
  pub register-IsCounted : IsCounted (register lib a) (length a.libs ∷ holders)
  unfolding register
  register-IsCounted = record {
    keys =
        subst HasDistinctKeys (sym appended)
          (distinct_append a.loaded lib.name new (lookup-IsAbsent lib.name a.loaded absent) c.keys);
    in_range = subst (All λ (e : Name × ℕ). e.1 < length libs_after) (sym appended) (
        All-append _ a.loaded ((lib.name, new) ∷ [])
          (All-map _ _ a.loaded (λ e p. omega (arith, p, length-append a.libs (lib ∷ [])))
            c.in_range)
          (omega (arith, length-append a.libs (lib ∷ [])), tt));
    named = name_kept;
    exact = count_is;
    is_open = opened;
    used = in_use;
  }
