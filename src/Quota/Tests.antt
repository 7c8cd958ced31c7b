-- ===== src/Quota/Tests.antt =====
-- A file system with one file, "f", and the theorems of quotafs on it.
use particles.Base.{
  ℕ, ◌+◌, ◌≤◌, ◌<◌, String, ◌≡◌, refl, subst, ◌-◌, ◌⊎◌, ◌↔◌, inl, Bool, true, Option, none, some,
  arith, str_eq, if◌then◌else◌,
}
use particles.Quota.{
  Inner, System, quota_exceeded, new_fs, write_at, write_at_with, metered, cur_size, try_reserve,
  release, growth, size_or_zero,
}
use mathlib.Core.Option.{some-injective}
use particles.Quota.FileSystem.{IsFileSystem, Resizes, extent, freed}
use particles.Quota.Accounting.{IsAccounted}
use particles.Quota.History.{
  Reach, here, next, writes_at, history-IsCapped, write_at_refused_iff, write_at_leak,
}

-- The size of the file, if it is there.
abbrev One : Type 0
One = Option ℕ

abbrev size_one : One → String → Option ℕ
size_one s name = if str_eq name "f" then s else none

-- Writes what it is asked for, where the file is there.
abbrev write_one : String → One → ℕ → ℕ → One × ℕ × Option ℕ
write_one name none count off = (none, 0, some 2)
write_one name (some old) count off =
    if str_eq name "f" then (some (extent old off count), count, none) else (some old, 0, some 2)

abbrev truncate_one : String → One → ℕ → One × Option ℕ
truncate_one name none size = (none, some 2)
truncate_one name (some old) size =
    if str_eq name "f" then (some size, none) else (some old, some 2)

abbrev open_one : One → String → Bool → One × Option ℕ
open_one none name t = if str_eq name "f" then (some 0, none) else (none, some 2)
open_one (some old) name t =
    if str_eq name "f" then (some (if t then 0 else old), none) else (some old, some 2)

abbrev unlink_one : One → String → One × Option ℕ
unlink_one none name = (none, some 2)
unlink_one (some old) name = if str_eq name "f" then (none, none) else (some old, some 2)

abbrev one_file : Inner
one_file = record {
  State = One;
  size = size_one;
  total = size_or_zero;
  writer_at = λ f. some (write_one f);
  writer = λ f. none;
  position = λ s f. none;
  truncater = λ f. some (truncate_one f);
  stat_ater = true;
  open_ater = some open_one;
  unlink_ater = some unlink_one;
}

size_one-le : (s : One) (f : String) (n : ℕ) → size_one s f ≡ some n → n ≤ size_or_zero s
size_one-le none f n h = ground arith
size_one-le (some m) f n h = ground arith

writes_one :
    (f : String) (s : One) (count off old : ℕ)
    → size_one s f ≡ some old
    → ((write_one f s count off).1 ≤ count)
      × Resizes one_file s
          (write_one f s count off).0
          f
          old
          (extent old off (write_one f s count off).1)
writes_one f none count off old h = ground arith
writes_one f (some m) count off old h = ground arith

truncates_one :
    (f : String) (s : One) (size old : ℕ)
    → size_one s f ≡ some old
    → Resizes one_file s
        (truncate_one f s size).0
        f
        old
        (elim (truncate_one f s size).1 [ none ↦ size | some _ ↦ old ])
truncates_one f none size old h = ground arith
truncates_one f (some m) size old h = ground arith

opens_one :
    (s : One) (name : String) (t : Bool)
    → size_or_zero (open_one s name t).0 + freed (open_one s name t).1 t (size_one s name)
      ≡ size_or_zero s
opens_one none name t = ground arith
opens_one (some m) name t = ground arith

unlinks_one :
    (s : One) (name : String)
    → size_or_zero (unlink_one s name).0 + freed (unlink_one s name).1 true (size_one s name)
      ≡ size_or_zero s
unlinks_one none name = ground arith
unlinks_one (some m) name = ground arith

one_file-IsFileSystem : IsFileSystem one_file
one_file-IsFileSystem = record {
  size-le-total = size_one-le;
  writes_at = λ f io s count off old e h.
      subst
        (λ (w : One → ℕ → ℕ → One × ℕ × Option ℕ).
          ((w s count off).1 ≤ count)
          × Resizes one_file s (w s count off).0 f old (extent old off (w s count off).1))
        (some-injective _ _ e) (writes_one f s count off old h);
  writes = λ f io s count old e h. cc;
  truncates = λ f io s size old e h.
      subst
        (λ (w : One → ℕ → One × Option ℕ).
          Resizes one_file s (w s size).0 f old (elim (w s size).1 [ none ↦ size | some _ ↦ old ]))
        (some-injective _ _ e) (truncates_one f s size old h);
  opens = λ io s name t e.
      subst
        (λ (w : One → String → Bool → One × Option ℕ).
          size_or_zero (w s name t).0 + freed (w s name t).1 t (size_one s name) ≡ size_or_zero s)
        (some-injective _ _ e) (opens_one s name t);
  unlinks = λ io s name e.
      subst
        (λ (w : One → String → One × Option ℕ).
          size_or_zero (w s name).0 + freed (w s name).1 true (size_one s name) ≡ size_or_zero s)
        (some-injective _ _ e) (unlinks_one s name);
}

-- A mount with a cap of 10 bytes over a file of 4.
abbrev mounted : System one_file
mounted = record { store = some 4; counter = record { used = 4; max = 10 } }

mounted-IsAccounted : IsAccounted one_file mounted
mounted-IsAccounted = record { exact = refl; total_fits = omega arith; cap_fits = omega arith }

write_at_grows :
    write_at one_file mounted "f" 3 4
    ≡ ((3, none), record { store = some 7; counter = record { used = 7; max = 10 } })
unfolding write_at write_at_with metered cur_size try_reserve release growth
write_at_grows = refl

abbrev grown : System one_file
grown = (write_at one_file mounted "f" 3 4).1

grown-Reach : Reach one_file (new_fs one_file (some 4) 10) grown
unfolding new_fs
grown-Reach = next here (writes_at "f" 3 4 4 refl (omega arith) (λ io e. inl (omega arith)))

history-IsCapped_example :
    (grown.counter.used ≡ size_or_zero grown.store)
    × ((size_or_zero grown.store ≤ 4) ⊎ (size_or_zero grown.store ≤ 10))
history-IsCapped_example =
    history-IsCapped one_file (some 4) 10 one_file-IsFileSystem refl (omega arith) (omega arith)
      grown-Reach

write_at_refused_iff_example :
    (write_at one_file mounted "f" 8 4 ≡ ((0, some quota_exceeded), mounted))
    ↔ ((4 < 4 + 8) × (10 + 4 < 4 + (4 + 8)))
write_at_refused_iff_example =
    write_at_refused_iff one_file mounted "f" 8 4 4 (write_one "f") refl mounted-IsAccounted refl
      (omega arith) (omega arith)

write_at_leak_example : (write_at one_file mounted "f" 0 9).1.counter.used ≡ 4 + (9 - 4)
write_at_leak_example =
    write_at_leak one_file mounted "f" 0 9 4 (write_one "f") refl mounted-IsAccounted refl
      (omega arith) (omega arith) (omega arith) refl
