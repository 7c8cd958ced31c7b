-- ===== src/Dyld/Registry/Unref.antt =====
-- Releasing a library of internal/runtime/dyld/adapter.go (unref, libraryImpl.Drop).
use particles.Base.{
  ℕ, zero, suc, ◌+◌, ◌<◌, ◌≤◌, ◌≡◌, ◌≢◌, refl, sym, ap, subst, ◌∙◌, true, false, Option, none, some,
  List, [], ◌∷◌, ◌++◌, length, All, ltb, ◌==◌, Bool-cases, inl, inr, arith, ltb→lt,
}
use particles.Base.Bytes.{name_eq, name_eq_refl, name_eq_sound}
use mathlib.Core.Option.{some-injective}
use particles.Dyld.Names.{Name}
use particles.Dyld.Info.{NameMap, lookup, nth}
use particles.Dyld.Registry.{
  Library, Adapter, remove, lowered, release_all, closed, unref, is_preloaded, drop_library,
}
use particles.Dyld.Registry.Counts.{
  occurs, occurs-append, deps_of, name_of, edges, HasDistinctKeys, lookup-remove, sum_of-remove,
  HasDistinctKeys-remove, All-remove,
}

-- The library at `x` was loaded while the program runs, and is in the registry.
pub record IsOpen (libs : List Library) (loaded : NameMap) (x : ℕ) : Type 0 where
  pub registered : lookup (name_of (nth libs x)) loaded ≡ some x
  pub at_run_time : is_preloaded (nth libs x) ≡ false

-- The references to `x`: those of `holders`, the handles and the releases that are still to be done,
-- and those of the loaded libraries that need it
abbrev pub references : List Library → NameMap → List ℕ → ℕ → ℕ
references libs loaded holders x = occurs x holders + edges libs loaded x

-- The counts are exact, and the libraries that are open are those that something refers to.
pub record IsCounted (a : Adapter) (holders : List ℕ) : Type 0 where
  pub keys : HasDistinctKeys a.loaded
  pub in_range : All (λ (e : Name × ℕ). e.1 < length a.libs) a.loaded
  pub named : (n : Name) (i : ℕ) → lookup n a.loaded ≡ some i → name_of (nth a.libs i) ≡ n
  pub exact :
      (x : ℕ) → IsOpen a.libs a.loaded x → a.ref_count x ≡ references a.libs a.loaded holders x
  pub is_open : (x : ℕ) → 0 < references a.libs a.loaded holders x → IsOpen a.libs a.loaded x
  pub used : (x : ℕ) → IsOpen a.libs a.loaded x → 0 < references a.libs a.loaded holders x

abbrev with_lowered : Adapter → ℕ → Adapter
with_lowered a i = record a { ref_count = lowered i a.ref_count }

-- Once the count of `i` is lowered, the others' references are all that is left.
module _ (a : Adapter) (i : ℕ) (holders : List ℕ) (c : IsCounted a (i ∷ holders)) where
  lowered_exact :
      (x : ℕ)
      → IsOpen a.libs a.loaded x
      → lowered i a.ref_count x ≡ references a.libs a.loaded holders x
  unfolding lowered
  lowered_exact x o = ground (arith, c.exact x o)

  first-IsOpen : IsOpen a.libs a.loaded i
  first-IsOpen = c.is_open i (ground arith)

  others_used :
      (x : ℕ) → x ≢ i → IsOpen a.libs a.loaded x → 0 < references a.libs a.loaded holders x
  others_used x other o = ground (arith, c.used x o, other)

  -- A release that leaves references changes nothing but the count.
  kept : 0 < lowered i a.ref_count i → IsCounted (with_lowered a i) holders
  kept left = record {
    keys = c.keys;
    in_range = c.in_range;
    named = c.named;
    exact = lowered_exact;
    is_open = λ x p. c.is_open x (omega (arith, p));
    used = λ x o. still_used x o;
  }
    where
      still_used : (x : ℕ) → IsOpen a.libs a.loaded x → 0 < references a.libs a.loaded holders x
      still_used x o = elim (Bool-cases (x == i)) [
        | inl e ↦
            let same : x ≡ i = ground (arith, e) in
            subst (λ (y : ℕ). 0 < references a.libs a.loaded holders y) (sym same)
              (subst (λ (n : ℕ). 0 < n) (lowered_exact i first-IsOpen) left)
        | inr e ↦ others_used x (λ same. ground (arith, e, same)) o
      ]

  module _ (lib : Library) (e : nth a.libs i ≡ some lib) (last : lowered i a.ref_count i ≡ 0) where
    abbrev remaining : NameMap
    remaining = remove lib.name a.loaded

    here : lookup lib.name a.loaded ≡ some i
    here =
        subst (λ (o : Option Library). lookup (name_of o) a.loaded ≡ some i) e
          first-IsOpen.registered

    -- Its references to others become releases that are still to be done.
    moved :
        (x : ℕ)
        → references a.libs a.loaded holders x
          ≡ references a.libs remaining (lib.needed_deps ++ holders) x
    moved x =
        let share =
          (sum_of-remove (λ (p : Name × ℕ). occurs x (deps_of (nth a.libs p.1))) lib.name i a.loaded
            c.keys here).0 in
        let own : occurs x (deps_of (nth a.libs i)) ≡ occurs x lib.needed_deps =
          ap (λ (o : Option Library). occurs x (deps_of o)) e in
        omega (arith, share, own, occurs-append x lib.needed_deps holders)

    unreferenced : references a.libs a.loaded holders i ≡ 0
    unreferenced = sym (lowered_exact i first-IsOpen) ∙ last

    -- Another open library is still open.
    stays : (x : ℕ) → x ≢ i → IsOpen a.libs a.loaded x → IsOpen a.libs remaining x
    stays x other o = record {
      registered =
          lookup-remove lib.name (name_of (nth a.libs x)) a.loaded ∙ rw differs o.registered;
      at_run_time = o.at_run_time;
    }
      where
        differs : name_eq lib.name (name_of (nth a.libs x)) ≡ false
        differs = elim (Bool-cases (name_eq lib.name (name_of (nth a.libs x)))) [
          | inl same ↦
              let p = name_eq_sound lib.name (name_of (nth a.libs x)) same in
              let q : ◌≡◌ {A = Option ℕ} (some x) (some i) =
                sym o.registered ∙ (ap (λ (n : Name). lookup n a.loaded) (sym p) ∙ here) in
              absurd (other (some-injective x i q))
          | inr e' ↦ e'
        ]

    was-IsOpen : (x : ℕ) → IsOpen a.libs remaining x → (x ≢ i) × IsOpen a.libs a.loaded x
    was-IsOpen x o = elim (Bool-cases (name_eq lib.name (name_of (nth a.libs x)))) [
      | inl same ↦ absurd (gone same)
      | inr differs ↦ (
        λ p. differ differs p,
        record {
          registered = ground (
            arith,
            differs,
            o.registered,
            lookup-remove lib.name (name_of (nth a.libs x)) a.loaded,
          );
          at_run_time = o.at_run_time;
        },
      )
    ]
      where
        gone : name_eq lib.name (name_of (nth a.libs x)) ≡ true → ⊥
        gone same =
            ground
              (arith, same, o.registered, lookup-remove lib.name (name_of (nth a.libs x)) a.loaded)

        differ : name_eq lib.name (name_of (nth a.libs x)) ≡ false → x ≡ i → ⊥
        differ differs p =
            let named : name_of (nth a.libs x) ≡ lib.name =
              ap (λ (y : ℕ). name_of (nth a.libs y)) p ∙ ap name_of e in
            ground (arith, differs, named, name_eq_refl lib.name)

    after_close :
        IsCounted (record (with_lowered a i) { loaded = remaining }) (lib.needed_deps ++ holders)
    after_close = record {
      keys = HasDistinctKeys-remove lib.name a.loaded c.keys;
      in_range = All-remove (λ (p : Name × ℕ). p.1 < length a.libs) lib.name a.loaded c.in_range;
      named = λ n j at. c.named n j (ground (arith, at, lookup-remove lib.name n a.loaded));
      exact = λ x o. lowered_exact x (was-IsOpen x o).1 ∙ moved x;
      is_open = λ x p.
          let p' = subst (λ (n : ℕ). 0 < n) (sym (moved x)) p in
          stays x
            (λ same. zero_not (subst (λ (y : ℕ). 0 < references a.libs a.loaded holders y) same p'))
            (c.is_open x (omega (arith, p')));
      used = λ x o.
          subst (λ (n : ℕ). 0 < n) (moved x) (others_used x (was-IsOpen x o).0 (was-IsOpen x o).1);
    }
      where
        zero_not : 0 < references a.libs a.loaded holders i → ⊥
        zero_not p = omega (arith, p, unreferenced)

-- A release keeps the counts and never makes the registry larger.
unfoldable pub Releases : Adapter → List ℕ → Option Adapter → Type 0
Releases a holders o =
    (a' : Adapter) × (o ≡ some a')
    × IsCounted a' holders
    × (a'.libs ≡ a.libs)
    × ((n : Name) → lookup n a.loaded ≡ none → lookup n a'.loaded ≡ none)
    × (length a'.loaded ≤ length a.loaded)

abbrev pub CanRelease : ℕ → (ℕ → Adapter → Option Adapter) → Type 0
CanRelease fuel release =
    (d : ℕ) (a : Adapter) (holders : List ℕ)
    → IsCounted a (d ∷ holders)
    → length a.loaded < fuel
    → Releases a holders (release d a)

next_release :
    (release : ℕ → Adapter → Option Adapter) (d : ℕ) (deps : List ℕ) (a a1 : Adapter)
    → release d a ≡ some a1
    → release_all release (d ∷ deps) a ≡ release_all release deps a1
unfolding release_all
next_release release d deps a a1 e = ground (arith, e)

pub release_all-Releases :
    (fuel : ℕ) (release : ℕ → Adapter → Option Adapter)
    → CanRelease fuel release
    → (deps : List ℕ) (a : Adapter) (holders : List ℕ) → IsCounted a (deps ++ holders)
    → length a.loaded < fuel
    → Releases a holders (release_all release deps a)
unfolding Releases release_all
release_all-Releases fuel release can [] a holders c h = (a, refl, c, refl, (λ n e. e), omega arith)
release_all-Releases fuel release can (d ∷ deps) a holders c h =
    let (a1, e1, c1, l1, n1, s1) = can d a (deps ++ holders) c h in
    let (a2, e2, c2, l2, n2, s2) =
      release_all-Releases fuel release can deps a1 holders c1 (omega (arith, s1, h)) in
    (
      a2,
      next_release release d deps a a1 e1 ∙ e2,
      c2,
      l2 ∙ l1,
      (λ n e. n2 n (n1 n e)),
      omega (arith, s1, s2),
    )

closed-Releases :
    (fuel i : ℕ) (release : ℕ → Adapter → Option Adapter) (a : Adapter) (holders : List ℕ)
    (o : Option Library)
    → CanRelease fuel release
    → IsCounted a (i ∷ holders)
    → length a.loaded < suc fuel
    → nth a.libs i ≡ o
    → Releases a holders (closed release i o (with_lowered a i))
unfolding Releases closed is_preloaded
closed-Releases fuel i release a holders none can c h e =
    absurd (ground (arith, e, (first-IsOpen a i holders c).at_run_time))
closed-Releases fuel i release a holders (some lib) can c h e =
    elim (Bool-cases (ltb 0 (lowered i a.ref_count i))) [
      | inl t ↦ (
        with_lowered a i,
        rw t refl,
        kept a i holders c (ltb→lt 0 (lowered i a.ref_count i) t),
        refl,
        (λ n e'. e'),
        omega arith,
      )
      | inr f ↦
          let last : lowered i a.ref_count i ≡ 0 = ground (arith, f) in
          let size =
            (sum_of-remove (λ _. 0) lib.name i a.loaded c.keys (here a i holders c lib e last)).1 in
          let (a', e', c', l', n', s') =
            release_all-Releases fuel release can lib.needed_deps
              (record (with_lowered a i) { loaded = remove lib.name a.loaded }) holders
              (after_close a i holders c lib e last) (omega (arith, size, h)) in
          (
            a',
            rw f e',
            c',
            l',
            λ n e1. n' n (ground (arith, e1, lookup-remove lib.name n a.loaded)),
            omega (arith, size, s'),
          )
    ]

-- One round more than there are libraries is enough.
pub unref-Releases :
    (fuel i : ℕ) (a : Adapter) (holders : List ℕ)
    → IsCounted a (i ∷ holders)
    → length a.loaded < fuel
    → Releases a holders (unref fuel i a)
unfolding unref
unref-Releases zero i a holders c h = absurd (omega (arith, h))
unref-Releases (suc fuel) i a holders c h =
    closed-Releases fuel i (unref fuel) a holders (nth a.libs i)
      (λ d b more c' h'. unref-Releases fuel d b more c' h') c h refl

-- Where the counts are exact, dropping a handle answers, and they are exact for the other handles: a
-- library that is loaded at run time stays in the registry exactly while a handle or another loaded
-- library refers to it, and its count is the number of these references, whatever else was closed
-- with it.
pub drop_library-IsCounted :
    (i : ℕ) (a : Adapter) (handles : List ℕ)
    → IsCounted a (i ∷ handles)
    → (a' : Adapter) × (drop_library i a ≡ some a') × IsCounted a' handles
unfolding drop_library Releases
drop_library-IsCounted i a handles c =
    let (a', e, c', l, n, s) = unref-Releases (suc (length a.loaded)) i a handles c (omega arith) in
    let run_time = (first-IsOpen a i handles c).at_run_time in (a', rw run_time e, c')
