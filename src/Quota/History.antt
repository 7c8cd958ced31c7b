-- ===== src/Quota/History.antt =====
-- Sequences of operations on a mounted file system of quotafs/quotafs.go.
use particles.Base.{
  ℕ, ◌+◌, ◌-◌, ◌↔◌, subst, sym, ◌^◌, ◌≤◌, ◌<◌, String, ◌≡◌, refl, ◌⊎◌, Bool, true, Option, some,
  arith,
}
use particles.Base.Int64.{IsNat64}
use particles.Quota.{
  Inner, System, quota_exceeded, new_fs, write_at, write, truncate, open_at, unlink_at, position_or,
  write_at_with,
}
use particles.Quota.FileSystem.{IsFileSystem}
use particles.Quota.Accounting.{IsAccounted, IsCapped, metered_refused_iff, metered_leak}
use particles.Quota.Operations.{
  write_at_with-IsCapped, write_with-IsCapped, truncate_with-IsCapped, open_at_with-IsCapped,
  unlink_at_with-IsCapped,
}

module _ (fs : Inner) where
  open fs use {State}

  -- A call of a metered operation, on a state where it meets a regular file, its sums are `int64`s
  -- and a write past the end of the file writes something.
  pub data Step (q : System fs) : System fs → Type 0 where
    writes_at :
        (f : String) (count off old : ℕ)
        → fs.size q.store f ≡ some old
        → fs.total q.store + off + count < 2 ^ 63
        → ((io : State → ℕ → ℕ → State × ℕ × Option ℕ)
            → fs.writer_at f ≡ some io
            → (off ≤ old) ⊎ (0 < (io q.store count off).1))
        → Step q (write_at fs q f count off).1
    writes :
        (f : String) (count old : ℕ)
        → fs.size q.store f ≡ some old
        → fs.total q.store + position_or (fs.position q.store f) old + count < 2 ^ 63
        → ((io : State → ℕ → State × ℕ × Option ℕ)
            → fs.writer f ≡ some io
            → (position_or (fs.position q.store f) old ≤ old) ⊎ (0 < (io q.store count).1))
        → Step q (write fs q f count).1
    truncates :
        (f : String) (size old : ℕ)
        → fs.size q.store f ≡ some old
        → fs.total q.store + size < 2 ^ 63
        → Step q (truncate fs q f size).1
    opens_at : (name : String) (truncates : Bool) → Step q (open_at fs q name truncates).1
    unlinks_at : (name : String) → Step q (unlink_at fs q name).1

  pub data Reach (p : System fs) : System fs → Type 0 where
    here : Reach p p
    next : {q r : System fs} → Reach p q → Step q r → Reach p r

  module _ (laws : IsFileSystem fs) (stats : fs.stat_ater ≡ true) where
    pub Step-IsCapped : {q r : System fs} → IsAccounted fs q → Step q r → IsCapped fs q r
    unfolding write_at write truncate open_at unlink_at
    Step-IsCapped {q} acc (writes_at f count off old s fits gap) =
        write_at_with-IsCapped fs laws q acc f count off old (fs.writer_at f) refl s fits gap
    Step-IsCapped {q} acc (writes f count old s fits gap) =
        write_with-IsCapped fs laws q acc f count old (fs.writer f) refl s fits gap
    Step-IsCapped {q} acc (truncates f size old s fits) =
        truncate_with-IsCapped fs laws q acc f size old (fs.truncater f) refl s fits
    Step-IsCapped {q} acc (opens_at name t) =
        open_at_with-IsCapped fs laws q acc name t fs.open_ater refl stats
    Step-IsCapped {q} acc (unlinks_at name) =
        unlink_at_with-IsCapped fs laws q acc name fs.unlink_ater refl stats

    Reach-IsCapped : {p q : System fs} → IsAccounted fs p → Reach p q → IsCapped fs p q
    Reach-IsCapped acc here = ground arith
    Reach-IsCapped {p} acc (next {q} {r} before step) =
        let c = Reach-IsCapped acc before in let d = Step-IsCapped c.accounted step in ground arith

  new_fs-IsAccounted :
      (s : State) (max : ℕ) → IsNat64 (fs.total s) → IsNat64 max → IsAccounted fs (new_fs fs s max)
  unfolding new_fs
  new_fs-IsAccounted s max t m = record { exact = refl; total_fits = t; cap_fits = m }

  -- After any operations on a fresh mount the counter is the total size of the regular files, and
  -- the total is within the cap unless it never passed what was there at the start.
  pub history-IsCapped :
      (s : State) (max : ℕ) {q : System fs}
      → IsFileSystem fs
      → fs.stat_ater ≡ true
      → IsNat64 (fs.total s)
      → IsNat64 max
      → Reach (new_fs fs s max) q
      → (q.counter.used ≡ fs.total q.store)
        × ((fs.total q.store ≤ fs.total s) ⊎ (fs.total q.store ≤ max))
  unfolding new_fs
  history-IsCapped s max laws stats t m r =
      let c = Reach-IsCapped laws stats (new_fs-IsAccounted s max t m) r in
      (c.accounted.exact, c.capped)

  module _ (q : System fs) (f : String) (count off old : ℕ)
      (io : State → ℕ → ℕ → State × ℕ × Option ℕ) where
    -- On a file that can be written, WriteAt answers ErrQuotaExceeded and leaves the file system and
    -- the counter alone exactly when the growth of the file would take the total past the cap.
    pub write_at_refused_iff :
        fs.writer_at f ≡ some io
        → IsAccounted fs q
        → fs.size q.store f ≡ some old
        → old ≤ fs.total q.store
        → fs.total q.store + off + count < 2 ^ 63
        → (write_at fs q f count off ≡ ((0, some quota_exceeded), q))
          ↔ ((old < off + count) × (q.counter.max + old < fs.total q.store + (off + count)))
    unfolding write_at write_at_with
    write_at_refused_iff e acc s le fits =
        subst
          (λ (o : Option (State → ℕ → ℕ → State × ℕ × Option ℕ)).
            (write_at_with fs q f count off o ≡ ((0, some quota_exceeded), q))
            ↔ ((old < off + count) × (q.counter.max + old < fs.total q.store + (off + count))))
          (sym e) (metered_refused_iff fs q f off count old (λ t. io t count off) acc s fits le)

    -- A WriteAt that starts past the end of the file and writes nothing (no bytes were asked for, or
    -- the wrapped call failed at once) leaves the gap reserved: the counter is then too large by it.
    pub write_at_leak :
        fs.writer_at f ≡ some io
        → IsAccounted fs q
        → fs.size q.store f ≡ some old
        → fs.total q.store + off + count < 2 ^ 63
        → old < off
        → fs.total q.store + (off + count - old) ≤ q.counter.max
        → (io q.store count off).1 ≡ 0
        → (write_at fs q f count off).1.counter.used ≡ fs.total q.store + (off - old)
    unfolding write_at write_at_with
    write_at_leak e acc s fits gap room n =
        subst
          (λ (o : Option (State → ℕ → ℕ → State × ℕ × Option ℕ)).
            (write_at_with fs q f count off o).1.counter.used ≡ fs.total q.store + (off - old))
          (sym e) (metered_leak fs q f off count old (λ t. io t count off) acc s fits gap room n)
