-- ===== src/Manifest/Tests.antt =====
-- Mount declarations, sizes and preopens at concrete inputs.
use particles.Base.{
  ℕ, ◌*◌, ◌<◌, ◌≤◌, String, ◌≡◌, ◌↔◌, refl, true, false, Option, none, some, List, [], ◌∷◌, All,
}
use particles.Base.Dict
use particles.Names.{natural, parse_int, split_number, multiplier, parse_byte_size}
use particles.Names.Sizes.{parse_byte_size_exact}
use particles.Manifest.{FilesystemCapability, FilesystemError, validate_filesystem}
use particles.Manifest.Filesystem.{IsValid, validate_filesystem_iff}
use particles.Manifest.Preopens.{Entry, build_mount_preopens}
use particles.Manifest.Mounting.{IsDeclared, build_mount_preopens_sound}

abbrev same : String → String
same s = s

abbrev size : String → Option ℕ
size s = parse_byte_size same same s

abbrev capability : FilesystemCapability
capability = record {
  mounts =
      (
        "src",
        record { description = "the sources"; path = "/src"; access = "readonly"; required = true },
      )
      ∷ [];
  temp = ("scratch", record { description = "scratch"; path = "/tmp"; max_size = "10KB" }) ∷ [];
}

valid_run : validate_filesystem same size capability ≡ none
unfolding validate_filesystem particles.Manifest.check_all particles.Manifest.check_mount
    particles.Names.is_mount_name particles.Names.all_name_chars particles.Names.is_name_char
    particles.Names.is_mount_path particles.Manifest.is_listed particles.Manifest.check_temp
    Dict.get parse_byte_size split_number particles.Names.is_digit particles.Names.digits
valid_run = refl

parse_byte_size_exact_example :
    (n : ℕ) × (mult : ℕ) × (parse_int (same (split_number (same "10KB")).0) ≡ natural n)
    × (multiplier (same (same (split_number (same "10KB")).1)) ≡ some mult)
    × (10240 ≡ n * mult)
    × (0 < 10240)
    × (10240 ≤ 9223372036854775807)
unfolding parse_byte_size split_number particles.Names.is_digit particles.Names.digits
parse_byte_size_exact_example = parse_byte_size_exact same same "10KB" 10240 refl

validate_filesystem_iff_example :
    (validate_filesystem same size capability ≡ none) ↔ IsValid same size capability
validate_filesystem_iff_example = validate_filesystem_iff same size capability

abbrev provided : Dict.Dict (Option ℕ)
provided = ("src", some 1) ∷ ("scratch", some 2) ∷ []

abbrev preopens : List (Entry ℕ)
preopens =
    record { path = "/src"; read_only = true; fsys = 1 }
    ∷ record { path = "/tmp"; read_only = false; fsys = 2 }
    ∷ []

build_mount_preopens_sound_example : All (IsDeclared capability provided) preopens
unfolding build_mount_preopens particles.Manifest.Preopens.undeclared_name Dict.get
    particles.Manifest.Preopens.mount_entries particles.Manifest.Preopens.temp_entries
build_mount_preopens_sound_example = build_mount_preopens_sound capability provided preopens refl
