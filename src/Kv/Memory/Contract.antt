-- ===== src/Kv/Memory/Contract.antt =====
-- The backend of kv/memory/memory.go against the contract of kv.Store.
use text.Mathlib.Text.{starts_with}
use mathlib.Core.List.{Mem, not-mem-nil, mem-cons, mem-cons_self, mem-cons_of_mem}
use mathlib.Core.Logic.Or
use mathlib.Core.List.Perm
use particles.Base.{
  String, ◌≡◌, refl, ◌↔◌, ◌≢◌, inl, inr, Bool-cases, eq_refl, ◌&&◌, true, Option, none, some, [],
  ◌∷◌, arith, str_eq, eq_iff, if◌then◌else◌, ap,
}
use particles.Base.Sort.{IsSorted, sort_strings-IsSorted, sort_strings-perm}
use particles.Base.Dict
use particles.Base.Dict.{Dict, get-set, get-delete}
use particles.Kv.{ok, err}
use particles.Kv.Memory.{
  Backend, bucket_of, get, set, delete, delete_from, drop_empty, list, matching,
}

-- After a write that succeeds, the particle reads the value under the key; every other key and
-- every other particle reads what it read before. After a refused write all read what they did.
pub get-set_view :
    (b : Backend) (p k v q j : String)
    → get (set b p k v).1 q j ≡ (elim (set b p k v).0 [
      | ok _ ↦ if str_eq p q && str_eq k j then some v else get b q j
      | err _ ↦ get b q j
    ])
unfolding set get
get-set_view b p k v q j = ground (
  arith,
  eq_iff p q,
  get-set p q (bucket_of b p) b.entries,
  get-set k j v (bucket_of b p),
  get-set p q (Dict.set k v (bucket_of b p)) (Dict.set p (bucket_of b p) b.entries),
)

drop_empty_view :
    (b : Backend) (p k q j : String) (bucket rest : Dict String)
    → Dict.delete k bucket ≡ rest
    → Dict.get p b.entries ≡ some bucket
    → get (record b { entries = drop_empty p rest b.entries }) q j
      ≡ (if str_eq p q && str_eq k j then none else get b q j)
unfolding get drop_empty
drop_empty_view b p k q j bucket [] r e = ground (
  arith,
  eq_iff p q,
  eq_iff k j,
  get-delete p q b.entries,
  get-delete k j bucket,
  ap (λ (m : Dict String). Dict.get j m) r,
)
drop_empty_view b p k q j bucket (x ∷ rest) r e = ground (
  arith,
  eq_iff p q,
  eq_iff k j,
  get-set p q (x ∷ rest) b.entries,
  get-delete k j bucket,
  ap (λ (m : Dict String). Dict.get j m) r,
)

get-delete_from :
    (b : Backend) (p k q j : String) (o : Option (Dict String))
    → Dict.get p b.entries ≡ o
    → get (delete_from b p k o) q j ≡ (if str_eq p q && str_eq k j then none else get b q j)
unfolding get delete_from Dict.get
get-delete_from b p k q j none e = ground (arith, eq_iff p q)
get-delete_from b p k q j (some bucket) e =
    drop_empty_view b p k q j bucket (Dict.delete k bucket) refl e

-- A removal takes away the particle's key and nothing else, also where the key or the bucket is
-- missing.
pub get-delete_view :
    (b : Backend) (p k q j : String)
    → get (delete b p k) q j ≡ (if str_eq p q && str_eq k j then none else get b q j)
unfolding delete
get-delete_view b p k q j = get-delete_from b p k q j (Dict.get p b.entries) refl

-- The keys that a listing with `prefix` is to hold.
abbrev pub IsListed : String → String → Dict String → Type 0
IsListed prefix k m = (starts_with k prefix ≡ true) × (Dict.get k m ≢ none)

IsListed-prop : (prefix k : String) (m : Dict String) → IsProp (IsListed prefix k m)
IsListed-prop prefix k m = hlevel

IsListed-cons :
    (prefix k j v : String) (m : Dict String) → IsListed prefix k m → IsListed prefix k ((j, v) ∷ m)
unfolding Dict.get
IsListed-cons prefix k j v m (s, g) = (s, ground (arith, eq_iff j k))

matching-IsListed :
    (prefix k : String) (m : Dict String) → Mem k (matching prefix m) → IsListed prefix k m
unfolding matching
matching-IsListed prefix k [] h = absurd (not-mem-nil h)
matching-IsListed prefix k ((j, v) ∷ m) h = elim (Bool-cases (starts_with j prefix)) [
  | inl yes_prefix ↦
      Or.elim (IsListed-prop prefix k ((j, v) ∷ m)) (mem-cons.0 (rw (yes_prefix, matching) at h))
        (λ e. (rw e yes_prefix, unfold Dict.get in rw e (ground (arith, eq_refl j))))
        (λ r. IsListed-cons prefix k j v m (matching-IsListed prefix k m r))
  | inr no_prefix ↦
      IsListed-cons prefix k j v m (matching-IsListed prefix k m (rw (no_prefix, matching) at h))
]

IsListed-matching :
    (prefix k : String) (m : Dict String) → IsListed prefix k m → Mem k (matching prefix m)
unfolding matching Dict.get
IsListed-matching prefix k [] (s, g) = absurd (g refl)
IsListed-matching prefix k ((j, v) ∷ m) (s, g) = elim (Bool-cases (str_eq j k)) [
  | inl same ↦ rw ((eq_iff j k).0 same, s) mem-cons_self
  | inr other ↦
      let later = IsListed-matching prefix k m (s, rw (other) at g) in
      elim (Bool-cases (starts_with j prefix)) [
        | inl kept ↦ rw kept (mem-cons_of_mem j later)
        | inr dropped ↦ rw dropped later
      ]
]

-- A listing holds exactly the particle's keys with the prefix, in order.
pub list-IsListed :
    (b : Backend) (p prefix : String)
    → IsSorted (list b p prefix)
      × ((k : String) → Mem k (list b p prefix) ↔ IsListed prefix k (bucket_of b p))
unfolding list
list-IsListed b p prefix =
    let keys = matching prefix (bucket_of b p) in
    (
      sort_strings-IsSorted keys,
      λ k. (
        λ h.
            matching-IsListed prefix k (bucket_of b p)
              ((Perm.mem_iff (sort_strings-perm keys)).0 h),
        λ h.
            (Perm.mem_iff (sort_strings-perm keys)).1
              (IsListed-matching prefix k (bucket_of b p) h),
      ),
    )
