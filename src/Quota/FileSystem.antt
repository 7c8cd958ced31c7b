-- ===== src/Quota/FileSystem.antt =====
-- What quotafs relies on in the file system that it wraps: the documented behaviour of
-- io.WriterAt, io.Writer, Truncate, OpenAt and UnlinkAt on regular files, in terms of sizes.
use particles.Base.{
  ℕ, ◌+◌, ◌≤◌, String, ◌≡◌, Bool, true, Option, none, some, leb, ◌==◌, if◌then◌else◌,
}
use particles.Quota.{Inner, position_or}

-- The size of a file after `n` bytes were written at `start`: writing nothing extends nothing.
abbrev pub extent : ℕ → ℕ → ℕ → ℕ
extent old start n = if n == 0 then old else if leb (start + n) old then old else start + n

-- The bytes that an operation frees: those of the regular file it empties or removes, on success.
abbrev pub freed : Option ℕ → Bool → Option ℕ → ℕ
freed none true (some old) = old
freed _ _ _ = 0

module _ (fs : Inner) where
  open fs use {State}

  -- One file changes its size, and the total follows.
  pub record Resizes (s t : State) (f : String) (old new : ℕ) : Type 0 where
    pub size : fs.size t f ≡ some new
    pub total : fs.total t + old ≡ fs.total s + new

  pub record IsFileSystem : Type 0 where
    pub size-le-total : (s : State) (f : String) (n : ℕ) → fs.size s f ≡ some n → n ≤ fs.total s
    pub writes_at :
        (f : String) (io : State → ℕ → ℕ → State × ℕ × Option ℕ) (s : State) (count off old : ℕ)
        → fs.writer_at f ≡ some io
        → fs.size s f ≡ some old
        → ((io s count off).1 ≤ count)
          × Resizes s (io s count off).0 f old (extent old off (io s count off).1)
    pub writes :
        (f : String) (io : State → ℕ → State × ℕ × Option ℕ) (s : State) (count old : ℕ)
        → fs.writer f ≡ some io
        → fs.size s f ≡ some old
        → ((io s count).1 ≤ count)
          × Resizes s
              (io s count).0
              f
              old
              (extent old (position_or (fs.position s f) old) (io s count).1)
    pub truncates :
        (f : String) (io : State → ℕ → State × Option ℕ) (s : State) (size old : ℕ)
        → fs.truncater f ≡ some io
        → fs.size s f ≡ some old
        → Resizes s (io s size).0 f old (elim (io s size).1 [ none ↦ size | some _ ↦ old ])
    -- an open that succeeds with O_TRUNC empties a regular file; no other open changes a size
    pub opens :
        (io : State → String → Bool → State × Option ℕ) (s : State) (name : String)
        (truncates : Bool)
        → fs.open_ater ≡ some io
        → fs.total (io s name truncates).0
            + freed (io s name truncates).1 truncates (fs.size s name)
          ≡ fs.total s
    pub unlinks :
        (io : State → String → State × Option ℕ) (s : State) (name : String)
        → fs.unlink_ater ≡ some io
        → fs.total (io s name).0 + freed (io s name).1 true (fs.size s name) ≡ fs.total s
