-- ===== src/Quota/Operations.antt =====
-- The metered operations of quotafs over any file system that behaves as documented.
use particles.Base.{
  ℕ, ◌+◌, ◌-◌, ◌^◌, ◌≤◌, ◌<◌, String, ◌≡◌, refl, sym, subst, ◌⊎◌, Bool, true, Option, none, some,
  arith, if◌then◌else◌,
}
use particles.Quota.{
  Inner, System, cur_size, stat_size, position_or, metered, write_at_with, write_with,
  truncate_with, open_at_with, unlink_at_with, size_or_zero,
}
use particles.Quota.FileSystem.{IsFileSystem, freed}
use particles.Quota.Accounting.{
  IsAccounted, IsCapped, IsCapped-refl, metered-IsCapped, grow-IsCapped, shrink-IsCapped,
}

module _ (fs : Inner) (laws : IsFileSystem fs) (q : System fs) (acc : IsAccounted fs q) where
  open fs use {State}

  -- WriteAt on a regular file, where the wrapped call writes something or starts within the file.
  pub write_at_with-IsCapped :
      (f : String) (count off old : ℕ) (o : Option (State → ℕ → ℕ → State × ℕ × Option ℕ))
      → fs.writer_at f ≡ o
      → fs.size q.store f ≡ some old
      → fs.total q.store + off + count < 2 ^ 63
      → ((io : State → ℕ → ℕ → State × ℕ × Option ℕ)
          → o ≡ some io
          → (off ≤ old) ⊎ (0 < (io q.store count off).1))
      → IsCapped fs q (write_at_with fs q f count off o).1
  unfolding write_at_with
  write_at_with-IsCapped f count off old none e s fits gap = IsCapped-refl fs q acc
  write_at_with-IsCapped f count off old (some io) e s fits gap =
      let (n, r) = laws.writes_at f io q.store count off old e s in
      metered-IsCapped fs q f off count old (λ t. io t count off) acc s
        (laws.size-le-total q.store f old s) fits n r (gap io refl)

  pub write_with-IsCapped :
      (f : String) (count old : ℕ) (o : Option (State → ℕ → State × ℕ × Option ℕ))
      → fs.writer f ≡ o
      → fs.size q.store f ≡ some old
      → fs.total q.store + position_or (fs.position q.store f) old + count < 2 ^ 63
      → ((io : State → ℕ → State × ℕ × Option ℕ)
          → o ≡ some io
          → (position_or (fs.position q.store f) old ≤ old) ⊎ (0 < (io q.store count).1))
      → IsCapped fs q (write_with fs q f count o).1
  unfolding write_with cur_size
  write_with-IsCapped f count old none e s fits gap = IsCapped-refl fs q acc
  write_with-IsCapped f count old (some io) e s fits gap =
      let (n, r) = laws.writes f io q.store count old e s in
      let start = position_or (fs.position q.store f) old in
      subst
        (λ (z : Option ℕ).
          IsCapped fs q
            (metered fs q f (position_or (fs.position q.store f) (size_or_zero z)) count
              (λ t. io t count)).1)
        (sym s)
        (metered-IsCapped fs q f start count old (λ t. io t count) acc s
          (laws.size-le-total q.store f old s) fits n r (gap io refl))

  pub truncate_with-IsCapped :
      (f : String) (size old : ℕ) (o : Option (State → ℕ → State × Option ℕ))
      → fs.truncater f ≡ o
      → fs.size q.store f ≡ some old
      → fs.total q.store + size < 2 ^ 63
      → IsCapped fs q (truncate_with fs q f size o).1
  unfolding truncate_with cur_size
  truncate_with-IsCapped f size old none e s fits = IsCapped-refl fs q acc
  truncate_with-IsCapped f size old (some io) e s fits = ground (
    arith,
    laws.truncates f io q.store size old e s,
    laws.size-le-total q.store f old s,
    grow-IsCapped fs q (λ t. io t size) (size - old) acc,
    shrink-IsCapped fs q (λ t. io t size) (old - size) acc,
  )

  freed_stat :
      (name : String) (truncates : Bool) (e : Option ℕ)
      → fs.stat_ater ≡ true
      → (elim e [ none ↦ (if truncates then stat_size fs q name else 0) | some _ ↦ 0 ])
        ≡ freed e truncates (fs.size q.store name)
  unfolding stat_size cur_size
  freed_stat name truncates e stats = ground arith

  pub open_at_with-IsCapped :
      (name : String) (truncates : Bool) (o : Option (State → String → Bool → State × Option ℕ))
      → fs.open_ater ≡ o
      → fs.stat_ater ≡ true
      → IsCapped fs q (open_at_with fs q name truncates o).1
  unfolding open_at_with
  open_at_with-IsCapped name truncates none e stats = IsCapped-refl fs q acc
  open_at_with-IsCapped name truncates (some io) e stats =
      shrink-IsCapped fs q (λ s. io s name truncates) _ acc
        (rw (freed_stat name truncates (io q.store name truncates).1 stats)
          (laws.opens io q.store name truncates e))

  pub unlink_at_with-IsCapped :
      (name : String) (o : Option (State → String → State × Option ℕ))
      → fs.unlink_ater ≡ o
      → fs.stat_ater ≡ true
      → IsCapped fs q (unlink_at_with fs q name o).1
  unfolding unlink_at_with
  unlink_at_with-IsCapped name none e stats = IsCapped-refl fs q acc
  unlink_at_with-IsCapped name (some io) e stats =
      shrink-IsCapped fs q (λ s. io s name) (stat_size fs q name) acc
        (rw (freed_stat name true (io q.store name).1 stats) (laws.unlinks io q.store name e))
