-- ===== src/ReadOnly.antt =====
-- runtime/readonlyfs.go: the read-only view of a file system, with the calls that reach the wrapped one.
-- Its files are a parameter: what Stat says, which interfaces a file has, and what Open and OpenAt give.
pub mod Sessions
mod Tests
use particles.Base.{
  ℕ, zero, suc, String, Bool, true, false, Option, none, some, List, [], ◌∷◌, ◌++◌, ◌==◌,
  if◌then◌else◌,
}

-- The interfaces that the WASI file system asks a file for
pub data Interface : Type 0 where
  reader reader_at seeker read_dir_file stat_ater readlink_ater : Interface
  writer writer_at truncater open_ater mkdir_ater unlink_ater rmdir_ater symlink_ater
        set_times_ater :
      Interface

-- What reaches the wrapped file system
pub data Call : Type 0 where
  stat_call close_call : Call
  open_call : String → Call
  open_at_call : (name : String) → (flag : ℕ) → Call
  use_call : Interface → Call

-- roFile and roDir
pub data Wrapped {ℓ} (File : Type ℓ) : Type ℓ where
  ro_file ro_dir : File → Wrapped File

-- os.O_RDONLY
abbrev pub o_rdonly : ℕ
o_rdonly = 0

-- The interfaces that roFile.As answers for, where the wrapped file has them
unfoldable pub file_as : Interface → Bool
file_as reader_at = true
file_as seeker = true
file_as _ = false

-- roDir.As
unfoldable pub dir_as : Interface → Bool
dir_as read_dir_file = true
dir_as stat_ater = true
dir_as readlink_ater = true
dir_as _ = false

module _ {ℓ} {File : Type ℓ} (stat_is_dir : File → Option Bool) (has : File → Interface → Bool)
    (open_root : String → Option File) (open_at : File → String → ℕ → Option File) where
  -- roWrap, by what Stat says: a file that cannot be asked is closed.
  unfoldable pub wrapped : File → Option Bool → Option (Wrapped File) × List Call
  wrapped f none = (none, stat_call ∷ close_call ∷ [])
  wrapped f (some true) = (some (ro_dir f), stat_call ∷ [])
  wrapped f (some false) = (some (ro_file f), stat_call ∷ [])

  unfoldable pub ro_wrap : File → Option (Wrapped File) × List Call
  unfolding wrapped
  ro_wrap f = wrapped f (stat_is_dir f)

  unfoldable pub opened : Call → Option File → Option (Wrapped File) × List Call
  unfolding ro_wrap
  opened call none = (none, call ∷ [])
  opened call (some f) = let (w, calls) = ro_wrap f in (w, call ∷ calls)

  -- readOnlyFS.Open
  unfoldable pub ro_open : String → Option (Wrapped File) × List Call
  unfolding opened
  ro_open name = opened (open_call name) (open_root name)

  -- OpenAt: only a directory has it. Any flag but the read-only one is refused.
  unfoldable pub ro_open_at : Wrapped File → String → ℕ → Option (Wrapped File) × List Call
  unfolding opened
  ro_open_at (ro_file f) name flag = (none, [])
  ro_open_at (ro_dir f) name flag =
      if flag == o_rdonly
      then (if has f open_ater
          then opened (open_at_call name o_rdonly) (open_at f name o_rdonly)
          else (none, []))
      else (none, [])

  -- A use of an interface: Read of the wrapper itself, and what As hands out
  unfoldable pub use_interface : Wrapped File → Interface → List Call
  unfolding file_as dir_as
  use_interface w reader = use_call reader ∷ []
  use_interface (ro_file f) i = if file_as i then (if has f i then use_call i ∷ [] else []) else []
  use_interface (ro_dir f) i = if dir_as i then (if has f i then use_call i ∷ [] else []) else []
