-- ===== src/Quota.antt =====
-- quotafs/quotafs.go: the byte-capped view of a writable file system behind a temp mount.
-- Sizes and offsets are `int64` bit patterns. The wrapped file system is the section's parameter:
-- its files are named by their paths, and an interface that a handle may lack is an `Option`.
pub mod Tally
pub mod FileSystem
pub mod Accounting
pub mod Operations
pub mod History
mod Tests
use particles.Base.{ℕ, String, Bool, true, false, Option, none, some, if◌then◌else◌}
use particles.Base.Int64.{add64, sub64, lt64, le64}

-- `counter`: the shared tally. The mutex makes each of its methods one step.
pub record Counter : Type 0 where
  pub used : ℕ
  pub max : ℕ

unfoldable pub try_reserve : Counter → ℕ → Bool × Counter
try_reserve c n =
    if le64 n 0
    then (true, c)
    else if lt64 c.max (add64 c.used n)
    then (false, c)
    else (true, record c { used = add64 c.used n })

-- `if c.used < 0 { c.used = 0 }`
clamp_negative : ℕ → ℕ
clamp_negative used = if lt64 used 0 then 0 else used

unfoldable pub release : Counter → ℕ → Counter
unfolding clamp_negative
release c n = if le64 n 0 then c else record c { used = clamp_negative (sub64 c.used n) }

unfoldable pub growth : ℕ → ℕ → ℕ
growth old new_end = if lt64 old new_end then sub64 new_end old else 0

pub data Error : Type 0 where
  -- fs.ErrInvalid: the handle lacks the interface
  invalid : Error
  quota_exceeded : Error
  -- an error of the wrapped file system
  backing : ℕ → Error

-- The wrapped file system.
pub record Inner : Type 1 where
  pub State : Type 0
  -- Stat on an open handle and StatAt: the size of a regular file
  pub size : State → String → Option ℕ
  -- the sum that `walkSize` finds
  pub total : State → ℕ
  -- WriteAt len off, Write len: the new state, the bytes written and the error
  pub writer_at : String → Option (State → ℕ → ℕ → State × ℕ × Option ℕ)
  pub writer : String → Option (State → ℕ → State × ℕ × Option ℕ)
  -- Seek(0, io.SeekCurrent)
  pub position : State → String → Option ℕ
  pub truncater : String → Option (State → ℕ → State × Option ℕ)
  -- whether a directory answers StatAt
  pub stat_ater : Bool
  -- OpenAt name with or without O_TRUNC; UnlinkAt name
  pub open_ater : Option (State → String → Bool → State × Option ℕ)
  pub unlink_ater : Option (State → String → State × Option ℕ)

abbrev pub position_or : Option ℕ → ℕ → ℕ
position_or none old = old
position_or (some p) old = p

abbrev pub size_or_zero : Option ℕ → ℕ
size_or_zero none = 0
size_or_zero (some n) = n

abbrev pub wrapped : Option ℕ → Option Error
wrapped none = none
wrapped (some e) = some (backing e)

module _ (fs : Inner) where
  open fs use {State}

  -- A mounted `FS`: the wrapped file system and the counter that its handles share.
  pub record System : Type 0 where
    pub store : State
    pub counter : Counter

  -- New: the walk seeds the usage.
  pub new_fs : State → ℕ → System
  new_fs s max = record { store = s; counter = record { used = fs.total s; max = max } }

  -- curSize: 0 on a stat error
  pub cur_size : State → String → ℕ
  cur_size s f = size_or_zero (fs.size s f)

  -- The reserve, do, reconcile of Write and WriteAt, for a write that starts at `start`: `io` is the
  -- call of the wrapped file.
  pub metered :
      System → String → ℕ → ℕ → (State → State × ℕ × Option ℕ) → (ℕ × Option Error) × System
  metered q f start count io =
      let old = cur_size q.store f in
      let predicted = growth old (add64 start count) in
      let (admitted, reserved) = try_reserve q.counter predicted in
      let (s, n, e) = io q.store in
      let actual = growth old (add64 start n) in
      if admitted
      then (
        (n, wrapped e),
        record { store = s; counter = release reserved (sub64 predicted actual) },
      )
      else ((0, some quota_exceeded), record q { counter = reserved })

  -- quotaFile.WriteAt, with what the type assertion on the wrapped file gives
  pub write_at_with :
      System
      → String
      → ℕ
      → ℕ
      → Option (State → ℕ → ℕ → State × ℕ × Option ℕ)
      → (ℕ × Option Error) × System
  write_at_with q f count off none = ((0, some invalid), q)
  write_at_with q f count off (some io) = metered q f off count (λ s. io s count off)

  pub write_at : System → String → ℕ → ℕ → (ℕ × Option Error) × System
  write_at q f count off = write_at_with q f count off (fs.writer_at f)

  -- quotaFile.Write: it starts at the position of the handle, or else at the end
  pub write_with :
      System → String → ℕ → Option (State → ℕ → State × ℕ × Option ℕ) → (ℕ × Option Error) × System
  write_with q f count none = ((0, some invalid), q)
  write_with q f count (some io) =
      metered q f (position_or (fs.position q.store f) (cur_size q.store f)) count (λ s. io s count)

  pub write : System → String → ℕ → (ℕ × Option Error) × System
  write q f count = write_with q f count (fs.writer f)

  -- Truncate to a larger size: the growth is refunded if the call fails
  pub grow : System → ℕ → (State → State × Option ℕ) → Option Error × System
  grow q n io =
      let (admitted, reserved) = try_reserve q.counter n in
      let (s, e) = io q.store in
      if admitted
      then elim e [
        | none ↦ (none, record { store = s; counter = reserved })
        | some code ↦ (some (backing code), record { store = s; counter = release reserved n })
      ]
      else (some quota_exceeded, record q { counter = reserved })

  -- An operation that frees `n` bytes, credited once it has succeeded.
  pub shrink : System → ℕ → (State → State × Option ℕ) → Option Error × System
  shrink q n io =
      let (s, e) = io q.store in
      elim e [
        | none ↦ (none, record { store = s; counter = release q.counter n })
        | some code ↦ (some (backing code), record q { store = s })
      ]

  -- quotaFile.Truncate
  pub truncate_with :
      System → String → ℕ → Option (State → ℕ → State × Option ℕ) → Option Error × System
  truncate_with q f size none = (some invalid, q)
  truncate_with q f size (some io) =
      let old = cur_size q.store f in
      if lt64 old size
      then grow q (sub64 size old) (λ s. io s size)
      else shrink q (sub64 old size) (λ s. io s size)

  pub truncate : System → String → ℕ → Option Error × System
  truncate q f size = truncate_with q f size (fs.truncater f)

  -- The bytes that an open with O_TRUNC, or an unlink, will free: the size that StatAt reports,
  -- where the directory has it.
  pub stat_size : System → String → ℕ
  stat_size q name = if fs.stat_ater then cur_size q.store name else 0

  -- quotaDir.OpenAt
  pub open_at_with :
      System
      → String
      → Bool
      → Option (State → String → Bool → State × Option ℕ)
      → Option Error × System
  open_at_with q name truncates none = (some invalid, q)
  open_at_with q name truncates (some io) =
      shrink q (if truncates then stat_size q name else 0) (λ s. io s name truncates)

  pub open_at : System → String → Bool → Option Error × System
  open_at q name truncates = open_at_with q name truncates fs.open_ater

  -- quotaDir.UnlinkAt
  pub unlink_at_with :
      System → String → Option (State → String → State × Option ℕ) → Option Error × System
  unlink_at_with q name none = (some invalid, q)
  unlink_at_with q name (some io) = shrink q (stat_size q name) (λ s. io s name)

  pub unlink_at : System → String → Option Error × System
  unlink_at q name = unlink_at_with q name fs.unlink_ater
