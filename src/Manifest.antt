-- ===== src/Manifest.antt =====
-- runtime/manifest.go: the file system part of a manifest and its validation. The
-- parameter `clean` is path.Clean.
pub mod Filesystem
pub mod Preopens
pub mod Mounting
mod Tests
use particles.Base.{
  ℕ, ◌+◌, ◌-◌, ◌*◌, ◌^◌, ◌%◌, ◌/◌, String, Bool, true, false, not, ◌&&◌, ◌||◌, Option, none, some,
  List, [], ◌∷◌, str_eq, leb, ltb, ◌==◌, if◌then◌else◌,
}
use particles.Names.{is_mount_name, is_mount_path}
use particles.Base.Dict
use particles.Base.Dict.{Dict}

pub record MountDecl : Type 0 where
  pub description : String
  pub path : String
  pub access : String
  pub required : Bool

pub record TempMountDecl : Type 0 where
  pub description : String
  pub path : String
  pub max_size : String

pub record FilesystemCapability : Type 0 where
  pub mounts : Dict MountDecl
  pub temp : Dict TempMountDecl

pub data FilesystemError : Type 0 where
  bad_name missing_description bad_path missing_access unknown_access path_used :
      (name : String) → FilesystemError
  name_reused missing_size bad_size : (name : String) → FilesystemError

unfoldable pub is_listed : String → List String → Bool
is_listed p [] = false
is_listed p (q ∷ seen) = str_eq q p || is_listed p seen

-- The checks of one mount, where `seen` are the paths of those before it; no error, or the first.
unfoldable pub check_mount :
    (String → String) → List String → String → MountDecl → Option FilesystemError
check_mount clean seen name m =
    if not (is_mount_name name)
    then some (bad_name name)
    else if str_eq m.description ""
    then some (missing_description name)
    else if not (is_mount_path clean m.path)
    then some (bad_path name)
    else if str_eq m.access ""
    then some (missing_access name)
    else if not (str_eq m.access "readonly" || str_eq m.access "readwrite")
    then some (unknown_access name)
    else if is_listed m.path seen
    then some (path_used name)
    else none

abbrev is_some : {A : Type 0} → Option A → Bool
is_some none = false
is_some (some a) = true

unfoldable pub check_temp :
    (String → String)
    → (String → Option ℕ)
    → Dict MountDecl
    → List String
    → String
    → TempMountDecl
    → Option FilesystemError
check_temp clean size mounts seen name t =
    if not (is_mount_name name)
    then some (bad_name name)
    else if is_some (Dict.get name mounts)
    then some (name_reused name)
    else if str_eq t.description ""
    then some (missing_description name)
    else if not (is_mount_path clean t.path)
    then some (bad_path name)
    else if str_eq t.max_size ""
    then some (missing_size name)
    else if not (is_some (size t.max_size))
    then some (bad_size name)
    else if is_listed t.path seen
    then some (path_used name)
    else none

-- A loop over declarations: the error of the first that is refused, or the paths seen.
pub data Checked : Type 0 where
  refused : FilesystemError → Checked
  passed : List String → Checked

pub check_or : Option FilesystemError → Checked → Checked
check_or none rest = rest
check_or (some e) rest = refused e

module _ {D : Type 0} (path : D → String)
    (check : List String → String → D → Option FilesystemError) where
  unfoldable pub check_all : Dict D → List String → Checked
  unfolding check_or
  check_all [] seen = passed seen
  check_all ((name, d) ∷ ds) seen = check_or (check seen name d) (check_all ds (path d ∷ seen))

abbrev mount_path : MountDecl → String
mount_path m = m.path

abbrev temp_path : TempMountDecl → String
temp_path t = t.path

pub temp_error : Checked → Option FilesystemError
temp_error (refused e) = some e
temp_error (passed seen) = none

pub after_mounts :
    (String → String)
    → (String → Option ℕ)
    → FilesystemCapability
    → Checked
    → Option FilesystemError
unfolding temp_error
after_mounts clean size cap (refused e) = some e
after_mounts clean size cap (passed seen) =
    temp_error (check_all temp_path (check_temp clean size cap.mounts) cap.temp seen)

-- validateFilesystem; `size` is ParseByteSize
unfoldable pub validate_filesystem :
    (String → String) → (String → Option ℕ) → FilesystemCapability → Option FilesystemError
unfolding after_mounts
validate_filesystem clean size cap =
    after_mounts clean size cap (check_all mount_path (check_mount clean) cap.mounts [])
