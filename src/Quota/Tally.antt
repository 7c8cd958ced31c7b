-- ===== src/Quota/Tally.antt =====
-- The tally of quotafs, on the range where the sums do not wrap, and past it.
use particles.Base.{ℕ, ◌+◌, ◌-◌, ◌^◌, ◌≤◌, ◌<◌, ◌≡◌, true, false, arith, ltb, ◌==◌, if◌then◌else◌}
use particles.Base.Int64.{IsNat64}
use particles.Quota.{Counter, try_reserve, release, growth}

-- The three answers of a reservation that cannot wrap.
pub try_reserve_exact :
    (c : Counter) (n : ℕ)
    → IsNat64 c.max
    → c.used + n < 2 ^ 63
    → try_reserve c n ≡ (
        if n == 0
        then (true, c)
        else if ltb c.max (c.used + n)
        then (false, c)
        else (true, record c { used = c.used + n }))
unfolding try_reserve
try_reserve_exact c n hm hs = ground arith

-- The sum of an `int64` counter and a request wraps: past the largest `int64` it is negative, so it
-- is below the cap and the request is granted.
pub try_reserve_wraps :
    (c : Counter) (n : ℕ)
    → IsNat64 c.max
    → IsNat64 c.used
    → IsNat64 n
    → 2 ^ 63 ≤ c.used + n
    → try_reserve c n ≡ (true, record c { used = c.used + n })
unfolding try_reserve
try_reserve_wraps c n hm hu hn hs = ground arith

pub release_exact :
    (c : Counter) (n : ℕ)
    → IsNat64 c.used
    → n ≤ c.used
    → release c n ≡ record c { used = c.used - n }
unfolding release
release_exact c n hm hs = ground arith

pub growth_exact :
    (old new_end : ℕ) → IsNat64 old → IsNat64 new_end → growth old new_end ≡ new_end - old
unfolding growth
growth_exact old new_end ho he = ground arith
