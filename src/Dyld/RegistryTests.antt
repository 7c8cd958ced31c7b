-- ===== src/Dyld/RegistryTests.antt =====
-- The registry of loaded libraries at concrete inputs.
use particles.Base.{ℕ, ◌≡◌, refl, false, Option, none, some, List, [], ◌∷◌, arith, if◌then◌else◌}
use particles.Base.Bytes.{name_eq, name_eq_sound}
use particles.Dyld.Names.{Name, ascii}
use particles.Dyld.Info.{FuncType, SoInfo, new_info, NameMap, lookup, nth}
use particles.Dyld.Encoder.{EnvGlobal, Spec}
use particles.Dyld.Linking.{Built}
use particles.Dyld.GotFunc.{target_of, build_got_func_shim}
use particles.Dyld.GotFunc.Points.{Answers, build_got_func_shim-Answers}
use particles.Dyld.Registry.{Library, Adapter, drop_library, register}
use particles.Dyld.Registry.Unref.{IsCounted, drop_library-IsCounted}
use particles.Dyld.Registry.Loading.{load_library, is_among}
use particles.Dyld.Registry.Loading.Entered.{register-IsCounted}
use particles.Dyld.Registry.Loading.Exact.{holding, load_library-IsCounted}

abbrev no_libraries : Adapter
no_libraries = record { libs = []; ref_count = λ x. 0; loaded = [] }

no_libraries-IsCounted : IsCounted no_libraries []
unfolding lookup
no_libraries-IsCounted = record {
  keys = tt;
  in_range = tt;
  named = λ n i e. cc;
  exact = λ x o. refl;
  is_open = λ x p. absurd (omega (arith, p));
  used = λ x o. cc;
}

abbrev base_library : Library
base_library = record { name = ascii "libb.so"; exports = []; needed_deps = []; preloaded = false }

abbrev needing_library : Library
needing_library = record {
  name = ascii "liba.so";
  exports = [];
  needed_deps = 0 ∷ [];
  preloaded = false;
}

abbrev both_loaded : Adapter
both_loaded = register needing_library (register base_library no_libraries)

both_loaded-IsCounted : IsCounted both_loaded (1 ∷ [])
unfolding register lookup
both_loaded-IsCounted =
    register-IsCounted (register base_library no_libraries) needing_library []
      (register-IsCounted no_libraries base_library [] no_libraries-IsCounted refl refl) refl refl

drop_library-IsCounted_example :
    (a' : Adapter) × (drop_library 1 both_loaded ≡ some a') × IsCounted a' []
drop_library-IsCounted_example = drop_library-IsCounted 1 both_loaded [] both_loaded-IsCounted

loaded_names : Option Adapter → Option NameMap
loaded_names none = none
loaded_names (some a) = some a.loaded

-- Both libraries are closed.
closed_both : loaded_names (drop_library 1 both_loaded) ≡ some []
unfolding loaded_names drop_library register nth
closed_both = refl

-- Two files, the first of which needs the second
abbrev two_files : Name → Option SoInfo
two_files n =
    if name_eq n (ascii "liba.so")
    then some (record new_info { needed = ascii "libc.so" ∷ ascii "libb.so" ∷ [] })
    else if name_eq n (ascii "libb.so")
    then some new_info
    else none

abbrev always_built : Name → SoInfo → Adapter → Option NameMap
always_built n info a = some []

abbrev file_names : List Name
file_names = ascii "liba.so" ∷ ascii "libb.so" ∷ []

load_library-IsCounted_example :
    (a' : Adapter) × (r : Option ℕ) × (load_library two_files always_built 3 []
        (ascii "liba.so")
        no_libraries
      ≡ some (a', r))
    × IsCounted a' (holding a' r [])
unfolding is_among
load_library-IsCounted_example =
    load_library-IsCounted two_files always_built file_names (ascii "liba.so") no_libraries []
      (λ n info b e. cc)
      (λ n found.
        ground (arith, found, name_eq_sound n (ascii "liba.so"), name_eq_sound n (ascii "libb.so")))
      no_libraries-IsCounted

count_of : ℕ → Option (Adapter × Option ℕ) → ℕ
count_of i none = 99
count_of i (some (a, r)) = a.ref_count i

-- A build that fails after the needed library was loaded keeps the reference on it.
abbrev second_build_fails : Name → SoInfo → Adapter → Option NameMap
second_build_fails n info a = if name_eq n (ascii "liba.so") then none else some []

reference_left :
    count_of 0 (load_library two_files second_build_fails 3 [] (ascii "liba.so") no_libraries) ≡ 1
unfolding count_of load_library lookup nth register
reference_left = refl

-- A library that takes the address of a function of its own, of a loaded library and of main
abbrev pointed : List Name
pointed = ascii "own" ∷ ascii "far" ∷ ascii "puts" ∷ []

abbrev type_of_puts : Name → Option FuncType
type_of_puts name =
    if name_eq name (ascii "puts") then some (record { params = 0x7F ∷ []; results = [] }) else none

abbrev with_far : Adapter
with_far = record {
  libs =
      record {
        name = ascii "libb.so";
        exports = (ascii "far", 77) ∷ [];
        needed_deps = [];
        preloaded = false;
      }
      ∷ [];
  ref_count = λ x. 1;
  loaded = (ascii "libb.so", 0) ∷ [];
}

init_values : List EnvGlobal → List ℕ
init_values [] = []
init_values (g ∷ globals) = g.init_i32 ∷ init_values globals

values_of : Built Spec → List ℕ
values_of (Built.ok s) = init_values s.globals
values_of (Built.err e) = []

points_at :
    values_of (build_got_func_shim with_far type_of_puts pointed 40 50 (ascii "own" ∷ []))
    ≡ 50 ∷ 77 ∷ 40 ∷ []
unfolding build_got_func_shim values_of init_values nth
points_at = refl

build_got_func_shim-Answers_example :
    Answers pointed
      (target_of with_far type_of_puts 50 (ascii "own" ∷ []))
      (build_got_func_shim with_far type_of_puts pointed 40 50 (ascii "own" ∷ []))
build_got_func_shim-Answers_example =
    build_got_func_shim-Answers with_far type_of_puts pointed 40 50 (ascii "own" ∷ [])
      (ground arith)
