-- ===== src/Manifest/Filesystem.antt =====
-- Theorems on validateFilesystem of runtime/manifest.go: which declarations a manifest may make.
use particles.Base.{
  ℕ, String, ◌≡◌, ◌≢◌, ◌↔◌, ◌⊎◌, inl, inr, refl, sym, ap, ◌∙◌, true, false, Option, none, some,
  List, [], ◌∷◌, All, eq_iff, arith,
}
use particles.Base.Dict
use particles.Base.Dict.{Dict}
use particles.Manifest.{
  MountDecl, TempMountDecl, FilesystemCapability, FilesystemError, is_mount_name, is_mount_path,
  is_listed, check_mount, check_temp, Checked, refused, passed, check_or, check_all, mount_path,
  temp_path, temp_error, after_mounts, validate_filesystem,
}

-- No path stands twice, nor among those seen.
abbrev pub AreNew : {D : Type 0} → (D → String) → List String → Dict D → Type 0
AreNew path seen [] = Unit
AreNew path seen ((name, d) ∷ ds) =
    (is_listed (path d) seen ≡ false) × AreNew path (path d ∷ seen) ds

abbrev pub seen_after : {D : Type 0} → (D → String) → List String → Dict D → List String
seen_after path seen [] = seen
seen_after path seen ((name, d) ∷ ds) = seen_after path (path d ∷ seen) ds

module _ {D : Type 0} (path : D → String)
    (check : List String → String → D → Option FilesystemError) (IsGood : String × D → Type 0)
    (check_iff : (seen : List String) (name : String) (d : D)
      → (check seen name d ≡ none) ↔ (IsGood (name, d) × (is_listed (path d) seen ≡ false))) where
  -- The loop passes with all paths seen, or it refuses.
  abbrev Settled : Dict D → List String → Checked → Type 0
  Settled ds seen o =
      ((o ≡ passed (seen_after path seen ds)) × (All IsGood ds × AreNew path seen ds))
      ⊎ ((e : FilesystemError) × (o ≡ refused e) × ((All IsGood ds × AreNew path seen ds) → ⊥))

  check_or-Settled :
      (name : String) (d : D) (ds : Dict D) (seen : List String) (o : Option FilesystemError)
      (rest : Checked)
      → check seen name d ≡ o
      → Settled ds (path d ∷ seen) rest
      → Settled ((name, d) ∷ ds) seen (check_or o rest)
  unfolding check_or
  check_or-Settled name d ds seen (some e) rest h k = inr (
    e,
    refl,
    λ ((good, goods), (new, news)). ground (arith, h, (check_iff seen name d).1 (good, new)),
  )
  check_or-Settled name d ds seen none rest h (inl (e, (goods, news))) =
      let (good, new) = (check_iff seen name d).0 h in inl (e, ((good, goods), (new, news)))
  check_or-Settled name d ds seen none rest h (inr (e, same, bad)) =
      inr (e, same, λ ((good, goods), (new, news)). bad (goods, news))

  check_all-Settled :
      (ds : Dict D) (seen : List String) → Settled ds seen (check_all path check ds seen)
  unfolding check_all
  check_all-Settled [] seen = inl (refl, (tt, tt))
  check_all-Settled ((name, d) ∷ ds) seen =
      check_or-Settled name d ds seen (check seen name d) (check_all path check ds (path d ∷ seen))
        refl (check_all-Settled ds (path d ∷ seen))

module _ (clean : String → String) (size : String → Option ℕ) where
  abbrev pub IsGoodMount : String × MountDecl → Type 0
  IsGoodMount (name, m) =
      (is_mount_name name ≡ true)
      × (m.description ≢ "")
      × (is_mount_path clean m.path ≡ true)
      × ((m.access ≡ "readonly") ⊎ (m.access ≡ "readwrite"))

  abbrev pub IsGoodTemp : Dict MountDecl → String × TempMountDecl → Type 0
  IsGoodTemp mounts (name, t) =
      (is_mount_name name ≡ true)
      × (Dict.get name mounts ≡ none)
      × (t.description ≢ "")
      × (is_mount_path clean t.path ≡ true)
      × (t.max_size ≢ "")
      × (size t.max_size ≢ none)

  check_mount_iff :
      (seen : List String) (name : String) (m : MountDecl)
      → (check_mount clean seen name m ≡ none)
        ↔ (IsGoodMount (name, m) × (is_listed (mount_path m) seen ≡ false))
  unfolding check_mount
  check_mount_iff seen name m = (
    λ h. ground (
      arith,
      eq_iff m.description "",
      eq_iff m.access "",
      eq_iff m.access "readonly",
      eq_iff m.access "readwrite",
      eq_iff "readonly" "",
      eq_iff "readwrite" "",
    ),
    λ h. ground (
      arith,
      eq_iff m.description "",
      eq_iff m.access "",
      eq_iff m.access "readonly",
      eq_iff m.access "readwrite",
      eq_iff "readonly" "",
      eq_iff "readwrite" "",
    ),
  )

  check_temp_iff :
      (mounts : Dict MountDecl) (seen : List String) (name : String) (t : TempMountDecl)
      → (check_temp clean size mounts seen name t ≡ none)
        ↔ (IsGoodTemp mounts (name, t) × (is_listed (temp_path t) seen ≡ false))
  unfolding check_temp
  check_temp_iff mounts seen name t = (
    λ h. ground (arith, eq_iff t.description "", eq_iff t.max_size ""),
    λ h. ground (arith, eq_iff t.description "", eq_iff t.max_size ""),
  )

  -- Every declaration is good, and no path stands twice among all of them.
  abbrev pub IsValid : FilesystemCapability → Type 0
  IsValid cap =
      (All IsGoodMount cap.mounts × AreNew mount_path [] cap.mounts)
      × (All (IsGoodTemp cap.mounts) cap.temp
          × AreNew temp_path (seen_after mount_path [] cap.mounts) cap.temp)

  temp_iff :
      (mounts : Dict MountDecl) (ds : Dict TempMountDecl) (seen : List String) (o : Checked)
      → Settled temp_path
          (check_temp clean size mounts)
          (IsGoodTemp mounts)
          (check_temp_iff mounts)
          ds
          seen
          o
      → (temp_error o ≡ none) ↔ (All (IsGoodTemp mounts) ds × AreNew temp_path seen ds)
  unfolding temp_error
  temp_iff mounts ds seen o (inl (e, good)) = (λ h. good, λ h. ap temp_error e)
  temp_iff mounts ds seen o (inr (x, e, bad)) =
      (λ h. ground (arith, h, ap temp_error e), λ h. elim (bad h) [ ])

  mounts_iff :
      (cap : FilesystemCapability) (o : Checked)
      → Settled mount_path (check_mount clean) IsGoodMount check_mount_iff cap.mounts [] o
      → (after_mounts clean size cap o ≡ none) ↔ IsValid cap
  unfolding after_mounts
  mounts_iff cap o (inl (e, good)) =
      let seen = seen_after mount_path [] cap.mounts in
      let temps =
        temp_iff cap.mounts cap.temp seen
          (check_all temp_path (check_temp clean size cap.mounts) cap.temp seen)
          (check_all-Settled temp_path (check_temp clean size cap.mounts) (IsGoodTemp cap.mounts)
            (check_temp_iff cap.mounts) cap.temp seen) in
      (
        λ h. (good, temps.0 (sym (ap (after_mounts clean size cap) e) ∙ h)),
        λ (h, k). ap (after_mounts clean size cap) e ∙ temps.1 k,
      )
  mounts_iff cap o (inr (x, e, bad)) =
      (λ h. ground (arith, h, ap (after_mounts clean size cap) e), λ (h, k). elim (bad h) [ ])

  -- The validation accepts exactly the declarations in which every mount and every temporary mount
  -- has a proper name, a description and a clean absolute path that is not the root, every mount one
  -- of the two modes, every temporary mount a name that no mount has and a size that can be read, and
  -- no two of them the same path.
  pub validate_filesystem_iff :
      (cap : FilesystemCapability) → (validate_filesystem clean size cap ≡ none) ↔ IsValid cap
  unfolding validate_filesystem
  validate_filesystem_iff cap =
      mounts_iff cap (check_all mount_path (check_mount clean) cap.mounts [])
        (check_all-Settled mount_path (check_mount clean) IsGoodMount check_mount_iff cap.mounts [])
