-- ===== src/Quota/Accounting.antt =====
-- The counter of quotafs/quotafs.go against the total size of the files below it, and the cap.
use particles.Base.{
  ℕ, ap, ◌↔◌, Option, ◌+◌, ◌-◌, ◌^◌, ◌≤◌, ◌<◌, String, ◌≡◌, ◌⊎◌, Option, none, some, arith,
}
use particles.Base.Int64.{IsNat64}
use particles.Quota.{Inner, System, quota_exceeded, Error, cur_size, metered, grow, shrink}
use particles.Quota.Tally.{try_reserve_exact, release_exact, growth_exact}
use particles.Quota.FileSystem.{Resizes, extent}

module _ (fs : Inner) where
  open fs use {State}

  pub record IsAccounted (q : System fs) : Type 0 where
    pub exact : q.counter.used ≡ fs.total q.store
    pub total_fits : IsNat64 (fs.total q.store)
    pub cap_fits : IsNat64 q.counter.max

  -- What an operation may do to the total and to the cap.
  pub record IsCapped (p q : System fs) : Type 0 where
    pub accounted : IsAccounted q
    pub same_cap : q.counter.max ≡ p.counter.max
    pub capped : (fs.total q.store ≤ fs.total p.store) ⊎ (fs.total q.store ≤ p.counter.max)

  pub IsCapped-refl : (q : System fs) → IsAccounted q → IsCapped q q
  IsCapped-refl q acc = ground arith

  module _ (q : System fs) (f : String) (start count old : ℕ)
      (io : State → State × ℕ × Option ℕ) where
    pub metered-IsCapped :
        IsAccounted q
        → fs.size q.store f ≡ some old
        → old ≤ fs.total q.store
        → fs.total q.store + start + count < 2 ^ 63
        → (io q.store).1 ≤ count
        → Resizes fs q.store (io q.store).0 f old (extent old start (io q.store).1)
        → (start ≤ old) ⊎ (0 < (io q.store).1)
        → IsCapped q (metered fs q f start count io).1
    unfolding metered cur_size
    metered-IsCapped acc s le fits n r gap = ground (
      arith,
      growth_exact old (start + count),
      growth_exact old (start + (io q.store).1),
      try_reserve_exact q.counter (start + count - old),
      release_exact (record q.counter { used = q.counter.used + (start + count - old) })
          (start + count - old - (start + (io q.store).1 - old)),
      release_exact q.counter (start + count - old - (start + (io q.store).1 - old)),
    )

    -- A write is refused exactly when its growth does not fit, and then nothing is called.
    pub metered_refused_iff :
        IsAccounted q
        → fs.size q.store f ≡ some old
        → fs.total q.store + start + count < 2 ^ 63
        → old ≤ fs.total q.store
        → (metered fs q f start count io ≡ ((0, some quota_exceeded), q))
          ↔ ((old < start + count) × (q.counter.max + old < fs.total q.store + (start + count)))
    unfolding metered cur_size
    metered_refused_iff acc s fits le = (
      λ h. ground (
        arith,
        ap (λ (r : (ℕ × Option Error) × System fs). r.0.1) h,
        growth_exact old (start + count),
        try_reserve_exact q.counter (start + count - old),
      ),
      λ h. ground (
        arith,
        growth_exact old (start + count),
        try_reserve_exact q.counter (start + count - old),
      ),
    )

    -- A write of nothing past the end keeps the reservation of the gap.
    pub metered_leak :
        IsAccounted q
        → fs.size q.store f ≡ some old
        → fs.total q.store + start + count < 2 ^ 63
        → old < start
        → fs.total q.store + (start + count - old) ≤ q.counter.max
        → (io q.store).1 ≡ 0
        → (metered fs q f start count io).1.counter.used ≡ fs.total q.store + (start - old)
    unfolding metered cur_size
    metered_leak acc s fits gap room n = ground (
      arith,
      growth_exact old (start + count),
      growth_exact old (start + 0),
      try_reserve_exact q.counter (start + count - old),
      release_exact (record q.counter { used = q.counter.used + (start + count - old) })
          (start + count - old - (start + 0 - old)),
    )

  module _ (q : System fs) (io : State → State × Option ℕ) where
    pub grow-IsCapped :
        (n : ℕ)
        → IsAccounted q
        → fs.total q.store + n < 2 ^ 63
        → fs.total (io q.store).0
          ≡ fs.total q.store + (elim (io q.store).1 [ none ↦ n | some _ ↦ 0 ])
        → IsCapped q (grow fs q n io).1
    unfolding grow
    grow-IsCapped n acc fits t = ground (
      arith,
      try_reserve_exact q.counter n,
      release_exact (record q.counter { used = q.counter.used + n }) n,
      release_exact q.counter n,
    )

    pub shrink-IsCapped :
        (n : ℕ)
        → IsAccounted q
        → fs.total (io q.store).0 + (elim (io q.store).1 [ none ↦ n | some _ ↦ 0 ])
          ≡ fs.total q.store
        → IsCapped q (shrink fs q n io).1
    unfolding shrink
    shrink-IsCapped n acc t = ground (arith, release_exact q.counter n)
