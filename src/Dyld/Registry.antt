-- ===== src/Dyld/Registry.antt =====
-- internal/runtime/dyld/adapter.go: the registry of loaded libraries and their reference counts. A
-- library stands at a number, its pointer, in the list of all that were made; its count stands apart,
-- since only the count changes. The modules that are closed with a library are not modelled.
pub mod Counts
pub mod Unref
pub mod Loading
use particles.Base.{
  ℕ, zero, suc, ◌+◌, ◌-◌, Bool, true, false, Option, none, some, List, [], ◌∷◌, ◌++◌, length, ltb,
  ◌==◌, if◌then◌else◌,
}
use particles.Base.Bytes.{name_eq}
use particles.Dyld.Names.{Name, ascii}
use particles.Dyld.Info.{NameMap, FuncImport, assign, lookup, nth}

-- loadedLibrary
pub record Library : Type 0 where
  pub name : Name
  pub exports : NameMap
  pub needed_deps : List ℕ
  pub preloaded : Bool

pub record Adapter : Type 0 where
  pub libs : List Library
  pub ref_count : ℕ → ℕ
  pub loaded : NameMap

-- delete(a.loaded, name)
unfoldable pub remove : Name → NameMap → NameMap
unfolding name_eq
remove k [] = []
remove k ((j, v) ∷ m) = let rest = remove k m in if name_eq j k then rest else (j, v) ∷ rest

unfoldable pub lowered : ℕ → (ℕ → ℕ) → ℕ → ℕ
lowered i counts x = if x == i then counts x - 1 else counts x

unfoldable pub raised : ℕ → (ℕ → ℕ) → ℕ → ℕ
raised i counts x = if x == i then counts x + 1 else counts x

-- The loop over libraries that are released; `none` where a release ran out of rounds
unfoldable pub release_all : (ℕ → Adapter → Option Adapter) → List ℕ → Adapter → Option Adapter
release_all release [] a = some a
release_all release (d ∷ deps) a = elim (release d a) [
  | none ↦ none
  | some a' ↦ release_all release deps a'
]

-- unref once the count is lowered
unfoldable pub closed :
    (ℕ → Adapter → Option Adapter) → ℕ → Option Library → Adapter → Option Adapter
unfolding remove release_all
closed release i none a = some a
closed release i (some lib) a =
    if ltb 0 (a.ref_count i)
    then some a
    else release_all release lib.needed_deps (record a { loaded = remove lib.name a.loaded })

-- unref. A library counts at least one reference before, so the subtraction is that of `int`.
unfoldable pub unref : ℕ → ℕ → Adapter → Option Adapter
unfolding closed lowered
unref zero i a = none
unref (suc fuel) i a =
    closed (unref fuel) i (nth a.libs i) (record a { ref_count = lowered i a.ref_count })

unfoldable pub is_preloaded : Option Library → Bool
is_preloaded none = true
is_preloaded (some lib) = lib.preloaded

-- libraryImpl.Drop; each release that goes on has removed a library, so one round more than there are
-- libraries is enough.
unfoldable pub drop_library : ℕ → Adapter → Option Adapter
unfolding is_preloaded unref
drop_library i a = if is_preloaded (nth a.libs i) then some a else unref (suc (length a.loaded)) i a

-- Load of a library that is loaded: one more handle on it
unfoldable pub reopen : ℕ → Adapter → Adapter
unfolding is_preloaded raised
reopen i a =
    if is_preloaded (nth a.libs i) then a else record a { ref_count = raised i a.ref_count }

-- libraryImpl.Symbol
unfoldable pub symbol : ℕ → Name → Adapter → Option ℕ
unfolding lookup
symbol i name a = elim (nth a.libs i) [ none ↦ none | some lib ↦ lookup name lib.exports ]

-- load once a library is instantiated: it enters the registry with one reference, the caller's.
unfoldable pub register : Library → Adapter → Adapter
unfolding assign
register lib a =
    let i = length a.libs in
    record {
      libs = a.libs ++ (lib ∷ []);
      ref_count = λ x. if x == i then 1 else a.ref_count x;
      loaded = assign lib.name i a.loaded;
    }

-- The entries of a map that were loaded while the program runs
unfoldable pub run_time_only : List Library → NameMap → NameMap
run_time_only libs [] = []
run_time_only libs ((n, i) ∷ m) =
    let rest = run_time_only libs m in if is_preloaded (nth libs i) then rest else (n, i) ∷ rest

unfoldable pub add_preloaded : List (Name × NameMap) → Adapter → Adapter
add_preloaded [] a = a
add_preloaded ((name, symbols) ∷ libraries) a =
    let lib : Library = record {
      name = name;
      exports = symbols;
      needed_deps = [];
      preloaded = true;
    } in
    add_preloaded libraries (record {
      libs = a.libs ++ (lib ∷ []);
      ref_count = λ x. if x == length a.libs then 0 else a.ref_count x;
      loaded = assign name (length a.libs) a.loaded;
    })

-- SetLibraries: the preloaded entries are replaced.
unfoldable pub set_libraries : List (Name × NameMap) → Adapter → Adapter
unfolding run_time_only add_preloaded
set_libraries libraries a =
    add_preloaded libraries (record a { loaded = run_time_only a.libs a.loaded })

abbrev or_else {ℓ} : {A : Type ℓ} → Option A → Option A → Option A
or_else (some x) o = some x
or_else none o = o

-- The address of a symbol in the first library, in the order of the map, that exports it
unfoldable pub first_export : List Library → Name → NameMap → Option ℕ
unfolding lookup
first_export libs name [] = none
first_export libs name ((n, i) ∷ m) = elim (nth libs i) [
  | none ↦ first_export libs name m
  | some lib ↦ or_else (lookup name lib.exports) (first_export libs name m)
]

pub data Resolved : Type 0 where
  in_library : ℕ → Resolved
  in_main nowhere : Resolved

unfoldable pub resolved : Option ℕ → Bool → Resolved
resolved (some idx) main_has = in_library idx
resolved none main_has = if main_has then in_main else nowhere

-- resolveFunc, with whether the main module exports the name
unfoldable pub resolve_func : Name → Bool → Adapter → Resolved
unfolding first_export resolved
resolve_func name main_has a = resolved (first_export a.libs name a.loaded) main_has

-- resolveData, with the value of the main module's global of the name
unfoldable pub resolve_data : Name → Option ℕ → Adapter → Option ℕ
unfolding first_export
resolve_data name main_global a = or_else (first_export a.libs name a.loaded) main_global

-- The module that a function comes from: the first library loaded at run time that has it, or main.
-- `has_func` is the instance's ExportedFunction.
unfoldable pub source_of : (ℕ → Name → Bool) → List Library → Name → NameMap → Name
source_of has_func libs name [] = ascii "main"
source_of has_func libs name ((n, i) ∷ m) = elim (nth libs i) [
  | none ↦ source_of has_func libs name m
  | some lib ↦
      let later = source_of has_func libs name m in
      if lib.preloaded then later else if has_func i name then lib.name else later
]

-- resolveEnvFuncSources
unfoldable pub resolve_env_func_sources : (ℕ → Name → Bool) → List FuncImport → Adapter → List Name
unfolding source_of
resolve_env_func_sources has_func [] a = []
resolve_env_func_sources has_func (fi ∷ imports) a =
    source_of has_func a.libs fi.name a.loaded ∷ resolve_env_func_sources has_func imports a
