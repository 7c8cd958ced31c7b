-- ===== src/Manifest/Mounting.antt =====
-- Theorems on buildMountPreopens of runtime/mounts.go: where its entries come from.
use particles.Base.{
  String, ◌≡◌, ◌≢◌, ◌⊎◌, inl, inr, refl, ap, subst, Bool, true, false, Option, none, some, List, [],
  ◌∷◌, ◌++◌, All, All-map, All-append, Any, str_eq, arith,
}
use particles.Base.Dict
use particles.Base.Dict.{Dict}
use particles.Manifest.{MountDecl, TempMountDecl, FilesystemCapability}
use particles.Manifest.Preopens.{
  Entry, MountError, undeclared_name, declared_entry, mount_entries, temp_entries, joined,
  after_names, build_mount_preopens, IsMountOf, IsTempOf,
}

module _ {F : Type 0} where
  right_or : List (Entry F) → MountError ⊎ List (Entry F) → List (Entry F)
  right_or es (inl x) = es
  right_or es (inr fs) = fs

  right_injective :
      (es fs : List (Entry F)) → ◌≡◌ {A = MountError ⊎ List (Entry F)} (inr es) (inr fs) → es ≡ fs
  unfolding right_or
  right_injective es fs h = ap (right_or es) h

  entry_sound :
      (IsFor : Entry F → Type 0) (name path : String) (read_only required : Bool)
      (o : Option (Option F)) (rest : MountError ⊎ List (Entry F)) (entries : List (Entry F))
      → ((fsys : F)
          → o ≡ some (some fsys)
          → IsFor (record { path = path; read_only = read_only; fsys = fsys }))
      → ((es : List (Entry F)) → rest ≡ inr es → All IsFor es)
      → declared_entry name path read_only required o rest ≡ inr entries
      → All IsFor entries
  unfolding declared_entry
  entry_sound IsFor name path read_only true none rest entries here there h = cc
  entry_sound IsFor name path read_only false none rest entries here there h = there entries h
  entry_sound IsFor name path read_only required (some none) rest entries here there h = cc
  entry_sound IsFor name path read_only required (some (some fsys)) (inl x) entries here there h =
      cc
  entry_sound IsFor name path read_only required (some (some fsys)) (inr es) entries here there h =
      subst (All IsFor)
        (right_injective (record { path = path; read_only = read_only; fsys = fsys } ∷ es) entries
          h)
        (here fsys refl, there es refl)

  entry_required :
      (name path : String) (read_only required : Bool) (o : Option (Option F))
      (rest : MountError ⊎ List (Entry F)) (entries : List (Entry F))
      → declared_entry name path read_only required o rest ≡ inr entries
      → required ≡ true
      → o ≢ none
  unfolding declared_entry
  entry_required name path read_only required none rest entries h e k = ground (arith, h, e)
  entry_required name path read_only required (some o) rest entries h e k = cc

  mount_entries_sound :
      (provided : Dict (Option F)) (mounts : Dict MountDecl) (entries : List (Entry F))
      → mount_entries provided mounts ≡ inr entries
      → All (λ (e : Entry F). Any (IsMountOf provided e) mounts) entries
  unfolding mount_entries
  mount_entries_sound provided [] entries h = subst (All _) (right_injective [] entries h) tt
  mount_entries_sound provided ((name, m) ∷ mounts) entries h =
      entry_sound (λ (e : Entry F). Any (IsMountOf provided e) ((name, m) ∷ mounts)) name m.path
        (str_eq m.access "readonly") m.required (Dict.get name provided)
        (mount_entries provided mounts) entries (λ fsys e. inl (refl, refl, e))
        (λ es e. All-map _ _ es (λ a k. inr k) (mount_entries_sound provided mounts es e)) h

  temp_entries_sound :
      (provided : Dict (Option F)) (temp : Dict TempMountDecl) (entries : List (Entry F))
      → temp_entries provided temp ≡ inr entries
      → All (λ (e : Entry F). Any (IsTempOf provided e) temp) entries
  unfolding temp_entries
  temp_entries_sound provided [] entries h = subst (All _) (right_injective [] entries h) tt
  temp_entries_sound provided ((name, t) ∷ temp) entries h =
      entry_sound (λ (e : Entry F). Any (IsTempOf provided e) ((name, t) ∷ temp)) name t.path false
        true (Dict.get name provided) (temp_entries provided temp) entries
        (λ fsys e. inl (refl, refl, e))
        (λ es e. All-map _ _ es (λ a k. inr k) (temp_entries_sound provided temp es e)) h

  abbrev pub IsDeclared : FilesystemCapability → Dict (Option F) → Entry F → Type 0
  IsDeclared cap provided e =
      Any (IsMountOf provided e) cap.mounts ⊎ Any (IsTempOf provided e) cap.temp

  joined_sound :
      (cap : FilesystemCapability) (provided : Dict (Option F))
      (ms ts : MountError ⊎ List (Entry F)) (entries : List (Entry F))
      → mount_entries provided cap.mounts ≡ ms
      → temp_entries provided cap.temp ≡ ts
      → joined ms ts ≡ inr entries
      → All (IsDeclared cap provided) entries
  joined_sound cap provided (inl x) ts entries e f h = cc
  joined_sound cap provided (inr ms) (inl x) entries e f h = cc
  joined_sound cap provided (inr ms) (inr ts) entries e f h =
      subst (All (IsDeclared cap provided)) (right_injective (ms ++ ts) entries h) (
        All-append _ ms ts
          (All-map _ _ ms (λ a k. inl k) (mount_entries_sound provided cap.mounts ms e))
          (All-map _ _ ts (λ a k. inr k) (temp_entries_sound provided cap.temp ts f)))

  names_sound :
      (o : Option MountError) (rest : MountError ⊎ List (Entry F)) (entries : List (Entry F))
      → after_names o rest ≡ inr entries
      → rest ≡ inr entries
  unfolding after_names
  names_sound none rest entries h = h
  names_sound (some e) rest entries h = cc

  -- Where the preopens of a run are built, each is a declared mount with its path, read-only exactly
  -- if the manifest says so, or a declared temporary mount, with the file system that the host
  -- provides under the name.
  pub build_mount_preopens_sound :
      (cap : FilesystemCapability) (provided : Dict (Option F)) (entries : List (Entry F))
      → build_mount_preopens cap provided ≡ inr entries
      → All (IsDeclared cap provided) entries
  unfolding build_mount_preopens
  build_mount_preopens_sound cap provided entries h =
      joined_sound cap provided (mount_entries provided cap.mounts) (temp_entries provided cap.temp)
        entries refl refl
        (names_sound (undeclared_name cap provided)
          (joined (mount_entries provided cap.mounts) (temp_entries provided cap.temp)) entries h)
