-- ===== src/Overlay/Tests.antt =====
-- Two mounts, "usr/lib" and "usr/lib/py", and the paths around them.
use particles.Base.{ℕ, ◌≡◌, refl, ◌⊎◌, inr, Bool, not, none, [], ◌∷◌}
use particles.Overlay.{
  FsPath, Mounts, invalid, delegated, synthetic_dir, best_mount, open_path, stat_path,
}
use particles.Overlay.Routing.{IsBest, IsAmong, best_mount-IsBest}
use particles.Overlay.Synthetic.{is_nil, is_not_exist, open_path-stat_path}

abbrev usr : FsPath
usr = 117 ∷ 115 ∷ 114 ∷ []

abbrev usr_lib : FsPath
usr_lib = 117 ∷ 115 ∷ 114 ∷ 47 ∷ 108 ∷ 105 ∷ 98 ∷ []

abbrev usr_lib_py : FsPath
usr_lib_py = 117 ∷ 115 ∷ 114 ∷ 47 ∷ 108 ∷ 105 ∷ 98 ∷ 47 ∷ 112 ∷ 121 ∷ []

abbrev file_in_py : FsPath
file_in_py = 117 ∷ 115 ∷ 114 ∷ 47 ∷ 108 ∷ 105 ∷ 98 ∷ 47 ∷ 112 ∷ 121 ∷ 47 ∷ 97 ∷ []

abbrev mounts : Mounts ℕ
mounts = (usr_lib_py, 2) ∷ (usr_lib, 1) ∷ []

abbrev is_valid : FsPath → Bool
is_valid p = not (is_nil p)

abbrev itself : FsPath → FsPath
itself p = p

opens_file : open_path is_valid itself itself file_in_py mounts ≡ delegated 2 (97 ∷ [])
unfolding open_path
opens_file = refl

opens_above :
    open_path is_valid itself itself usr mounts ≡ synthetic_dir usr ((108 ∷ 105 ∷ 98 ∷ []) ∷ [])
unfolding open_path
opens_above = refl

refuses_empty : open_path is_valid itself itself [] mounts ≡ invalid
unfolding open_path
refuses_empty = refl

best_mount-IsBest_example :
    IsBest file_in_py mounts (best_mount file_in_py mounts none)
    × ((best_mount file_in_py mounts none ≡ none)
        ⊎ IsAmong (best_mount file_in_py mounts none) mounts)
best_mount-IsBest_example = best_mount-IsBest file_in_py mounts

open_path-stat_path_example :
    is_not_exist (open_path is_valid itself itself usr mounts)
    ≡ is_not_exist (stat_path is_valid itself itself usr mounts)
open_path-stat_path_example =
    open_path-stat_path is_valid itself itself usr mounts (inr refl, (inr refl, tt))
