-- ===== src/Manifest/Preopens.antt =====
-- runtime/mounts.go: the preopened directories of a run. A file system that the host provides is a
-- name of type `F`, or nil.
use particles.Base.{
  String, str_append, ◌≡◌, ◌⊎◌, inl, inr, Bool, true, false, ◌||◌, Option, none, some, List, [],
  ◌∷◌, ◌++◌, str_eq, if◌then◌else◌,
}
use text.Mathlib.Text.{starts_with}
use particles.Base.Dict
use particles.Base.Dict.{Dict}
use particles.Manifest.{MountDecl, TempMountDecl, FilesystemCapability}

unfoldable pub paths_overlap : String → String → Bool
paths_overlap a b =
    str_eq a b || (starts_with a (str_append b "/") || starts_with b (str_append a "/"))

-- builtinGuestPaths, by whether the runtime is Python's; the standard library is mounted at
-- usr/local/lib/python3.14
unfoldable pub builtin_guest_paths : Bool → List String
builtin_guest_paths python =
    "/particle" ∷ (if python then "/usr/local/lib/python3.14" ∷ "/runtime" ∷ [] else [])

pub record Entry (F : Type 0) : Type 0 where
  pub path : String
  pub read_only : Bool
  pub fsys : F

pub data MountError : Type 0 where
  undeclared not_provided nil_provided : (name : String) → MountError

module _ {F : Type 0} where
  unfoldable pub undeclared_name : FilesystemCapability → Dict (Option F) → Option MountError
  undeclared_name cap [] = none
  undeclared_name cap ((name, fsys) ∷ provided) =
      let rest = undeclared_name cap provided in
      elim (Dict.get name cap.mounts) [
        | some m ↦ rest
        | none ↦ elim (Dict.get name cap.temp) [ some t ↦ rest | none ↦ some (undeclared name) ]
      ]

  abbrev with_entry : Entry F → MountError ⊎ List (Entry F) → MountError ⊎ List (Entry F)
  with_entry e (inl x) = inl x
  with_entry e (inr entries) = inr (e ∷ entries)

  -- A declaration, by what is provided under its name; `rest` is what the others give.
  unfoldable pub declared_entry :
      String
      → String
      → Bool
      → Bool
      → Option (Option F)
      → MountError ⊎ List (Entry F)
      → MountError ⊎ List (Entry F)
  declared_entry name path read_only required none rest =
      if required then inl (not_provided name) else rest
  declared_entry name path read_only required (some none) rest = inl (nil_provided name)
  declared_entry name path read_only required (some (some fsys)) rest =
      with_entry (record { path = path; read_only = read_only; fsys = fsys }) rest

  unfoldable pub mount_entries : Dict (Option F) → Dict MountDecl → MountError ⊎ List (Entry F)
  unfolding declared_entry
  mount_entries provided [] = inr []
  mount_entries provided ((name, m) ∷ mounts) =
      declared_entry name m.path (str_eq m.access "readonly") m.required (Dict.get name provided)
        (mount_entries provided mounts)

  -- A temporary mount is always required and never read-only.
  unfoldable pub temp_entries : Dict (Option F) → Dict TempMountDecl → MountError ⊎ List (Entry F)
  unfolding declared_entry
  temp_entries provided [] = inr []
  temp_entries provided ((name, t) ∷ temp) =
      declared_entry name t.path false true (Dict.get name provided) (temp_entries provided temp)

  abbrev pub joined :
      MountError ⊎ List (Entry F) → MountError ⊎ List (Entry F) → MountError ⊎ List (Entry F)
  joined (inl e) others = inl e
  joined (inr entries) (inl e) = inl e
  joined (inr entries) (inr more) = inr (entries ++ more)

  unfoldable pub after_names :
      Option MountError → MountError ⊎ List (Entry F) → MountError ⊎ List (Entry F)
  after_names (some e) rest = inl e
  after_names none rest = rest

  unfoldable pub build_mount_preopens :
      FilesystemCapability → Dict (Option F) → MountError ⊎ List (Entry F)
  unfolding after_names
  build_mount_preopens cap provided =
      after_names (undeclared_name cap provided)
        (joined (mount_entries provided cap.mounts) (temp_entries provided cap.temp))

  -- The declaration is for this entry: its path and mode, and what is provided under its name.
  abbrev pub IsMountOf : Dict (Option F) → Entry F → String × MountDecl → Type 0
  IsMountOf provided e (name, m) =
      (e.path ≡ m.path)
      × (e.read_only ≡ str_eq m.access "readonly")
      × (Dict.get name provided ≡ some (some e.fsys))

  abbrev pub IsTempOf : Dict (Option F) → Entry F → String × TempMountDecl → Type 0
  IsTempOf provided e (name, t) =
      (e.path ≡ t.path) × (e.read_only ≡ false) × (Dict.get name provided ≡ some (some e.fsys))
