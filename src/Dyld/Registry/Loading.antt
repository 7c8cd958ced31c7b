-- ===== src/Dyld/Registry/Loading.antt =====
-- internal/runtime/dyld/loader.go, load, and adapter.go, Load: the registry while a library and the
-- libraries it needs are loaded. `prepare` reads, parses and reserves room for a file, and `build` makes
-- and starts the modules around it; each may fail. The names whose load is going on are the stack of
-- calls, since a call takes its name off again when it returns.
pub mod Entered
pub mod Needed
pub mod Exact
use particles.Base.{
  ℕ, zero, suc, ◌+◌, Bool, true, false, ◌||◌, Option, none, some, List, [], ◌∷◌, ◌++◌, length,
  if◌then◌else◌,
}
use particles.Base.Bytes.{name_eq}
use particles.Dyld.Names.{Name, ascii}
use particles.Dyld.Info.{SoInfo, NameMap, lookup, nth}
use particles.Dyld.Registry.{Library, Adapter, is_preloaded, release_all, unref, reopen, register}

unfoldable pub is_among : Name → List Name → Bool
is_among name [] = false
is_among name (n ∷ names) = name_eq n name || is_among name names

-- mainSatisfiedNeeded
abbrev pub main_satisfied_needed : List Name
main_satisfied_needed =
    ascii "libc.so"
    ∷ ascii "libdl.so"
    ∷ ascii "libpthread.so"
    ∷ ascii "libm.so"
    ∷ ascii "libc++.so"
    ∷ ascii "libc++abi.so"
    ∷ ascii "libwasi-emulated-signal.so"
    ∷ ascii "libwasi-emulated-getpid.so"
    ∷ ascii "libwasi-emulated-process-clocks.so"
    ∷ []

-- The registry and the answer of a load; `none` outside is a model that ran out of rounds.
abbrev pub Outcome {ℓ} : Type ℓ → Type ℓ
Outcome A = Option (Adapter × Option A)

-- The references that were taken are given back when one of the needed libraries fails.
unfoldable pub rolled_back {ℓ} : {A : Type ℓ} → Option Adapter → Outcome A
rolled_back none = none
rolled_back (some a) = some (a, none)

unfoldable pub roll_back {ℓ} : {A : Type ℓ} → List ℕ → Adapter → Outcome A
unfolding rolled_back
roll_back deps a = rolled_back (release_all (unref (suc (length a.loaded))) deps a)

unfoldable pub after_dep :
    (List ℕ → Adapter → Outcome (List ℕ)) → List ℕ → Outcome ℕ → Outcome (List ℕ)
unfolding roll_back
after_dep go_on deps none = none
after_dep go_on deps (some (a, none)) = roll_back deps a
after_dep go_on deps (some (a, some i)) = go_on (deps ++ (i ∷ [])) a

-- A needed library that is in the registry, by whether it is preloaded
unfoldable pub known_dep :
    (List ℕ → Adapter → Outcome (List ℕ)) → List ℕ → ℕ → Bool → Adapter → Outcome (List ℕ)
known_dep go_on deps i true a = go_on deps a
known_dep go_on deps i false a = go_on (deps ++ (i ∷ [])) (reopen i a)

unfoldable pub one_dep :
    (Name → Adapter → Outcome ℕ)
    → (List ℕ → Adapter → Outcome (List ℕ))
    → List ℕ
    → Name
    → Option ℕ
    → Adapter
    → Outcome (List ℕ)
unfolding after_dep known_dep
one_dep load go_on deps dep (some i) a = known_dep go_on deps i (is_preloaded (nth a.libs i)) a
one_dep load go_on deps dep none a = after_dep go_on deps (load dep a)

-- The loop over the needed libraries, with the references that were taken
unfoldable pub load_needed :
    (Name → Adapter → Outcome ℕ) → List Name → List ℕ → Adapter → Outcome (List ℕ)
unfolding one_dep is_among
load_needed load [] deps a = some (a, some deps)
load_needed load (dep ∷ needed) deps a =
    if is_among dep main_satisfied_needed
    then load_needed load needed deps a
    else one_dep load (λ deps' a'. load_needed load needed deps' a') deps dep (lookup dep a.loaded)
        a

unfoldable pub entered : Name → List ℕ → Option NameMap → Adapter → Outcome ℕ
unfolding register
entered name deps none a = some (a, none)
entered name deps (some exports) a =
    let lib : Library = record {
      name = name;
      exports = exports;
      needed_deps = deps;
      preloaded = false;
    } in
    some (register lib a, some (length a.libs))

module _ (prepare : Name → Option SoInfo) (build : Name → SoInfo → Adapter → Option NameMap) where
  unfoldable pub after_needed : Name → SoInfo → Outcome (List ℕ) → Outcome ℕ
  unfolding entered
  after_needed name info none = none
  after_needed name info (some (a, none)) = some (a, none)
  after_needed name info (some (a, some deps)) = entered name deps (build name info a) a

  unfoldable pub load_prepared :
      (Name → Adapter → Outcome ℕ) → Name → Option SoInfo → Adapter → Outcome ℕ
  unfolding after_needed load_needed
  load_prepared load name none a = some (a, none)
  load_prepared load name (some info) a = after_needed name info (load_needed load info.needed [] a)

  unfoldable pub load_known :
      (Name → Adapter → Outcome ℕ) → List Name → Name → Option ℕ → Adapter → Outcome ℕ
  unfolding load_prepared
  load_known load loading name (some i) a = some (reopen i a, some i)
  load_known load loading name none a =
      if is_among name loading then some (a, none) else load_prepared load name (prepare name) a

  -- load, on as many rounds as files can be nested
  unfoldable pub load_library : ℕ → List Name → Name → Adapter → Outcome ℕ
  unfolding load_known
  load_library zero loading name a = none
  load_library (suc fuel) loading name a =
      load_known (λ n b. load_library fuel (name ∷ loading) n b) loading name (lookup name a.loaded)
        a
