-- ===== src/Dyld/Registry/Loading/Exact.antt =====
-- Loading a library of internal/runtime/dyld (load), with any that it needs.
use particles.Base.{
  ℕ, zero, suc, ◌<◌, ◌≤◌, ◌≡◌, ◌≢◌, refl, sym, ap, subst, ◌∙◌, Bool, true, false, Option, none,
  some, List, [], ◌∷◌, ◌++◌, length, sum_of, if◌then◌else◌, Bool-cases, inl, inr, arith,
}
use particles.Base.Bytes.{name_eq, name_eq_refl, name_eq_sound}
use particles.Dyld.Names.{Name}
use particles.Dyld.Info.{SoInfo, NameMap, lookup, nth}
use particles.Dyld.Linking.Interning.{nth-length}
use particles.Dyld.Registry.{Library, Adapter, is_preloaded, reopen, register}
use particles.Dyld.Registry.Unref.{IsCounted}
use particles.Dyld.Registry.Loading.{
  Outcome, is_among, load_needed, entered, after_needed, load_prepared, load_known, load_library,
}
use particles.Dyld.Registry.Loading.Entered.{reopen-IsCounted, register-IsCounted, lookup-assign}
use particles.Dyld.Registry.Loading.Needed.{
  Keeps, GoodLoad, GoodNeeded, CanLoad, load_needed-Good, loaded-reopen,
}

-- The files that are not being loaded
unvisited : List Name → List Name → ℕ
unvisited files loading = sum_of (λ f. if is_among f loading then 0 else 1) files

libs-reopen : (i : ℕ) (a : Adapter) → (reopen i a).libs ≡ a.libs
unfolding reopen
libs-reopen i a = ground arith

unvisited_all : (files : List Name) → unvisited files [] ≤ length files
unfolding unvisited is_among
unvisited_all [] = omega arith
unvisited_all (f ∷ files) = ground (arith, unvisited_all files)

unvisited_le :
    (files : List Name) (name : Name) (loading : List Name)
    → unvisited files (name ∷ loading) ≤ unvisited files loading
unfolding unvisited is_among
unvisited_le [] name loading = omega arith
unvisited_le (f ∷ files) name loading = ground (arith, unvisited_le files name loading)

-- A file whose load begins is one fewer.
unvisited_lt :
    (files : List Name) (name : Name) (loading : List Name)
    → is_among name files ≡ true
    → is_among name loading ≡ false
    → unvisited files (name ∷ loading) < unvisited files loading
unfolding unvisited is_among
unvisited_lt [] name loading h k = cc
unvisited_lt (f ∷ files) name loading h k = ground (
  arith,
  h,
  k,
  unvisited_lt files name loading,
  unvisited_le files name loading,
  name_eq_sound f name,
  name_eq_refl name,
)

none-register :
    (lib : Library) (a : Adapter) (n : Name)
    → name_eq lib.name n ≡ false
    → lookup n a.loaded ≡ none
    → lookup n (register lib a).loaded ≡ none
unfolding register
none-register lib a n e h = ground (arith, e, h, lookup-assign lib.name n (length a.libs) a.loaded)

preloaded-register :
    (lib : Library) (a : Adapter)
    → is_preloaded (nth (register lib a).libs (length a.libs)) ≡ lib.preloaded
unfolding register is_preloaded
preloaded-register lib a = ap is_preloaded (nth-length a.libs lib)

among_other :
    (name n : Name) (loading : List Name)
    → is_among name loading ≡ false
    → is_among n loading ≡ true
    → name_eq name n ≡ false
unfolding is_among
among_other name n loading h k = elim (Bool-cases (name_eq name n)) [
  | inl e ↦
      let p = ap (λ (x : Name). is_among x loading) (name_eq_sound name n e) in
      absurd (ground (arith, p, h, k))
  | inr e ↦ e
]

entered-Good :
    (loading : List Name) (name : Name) (deps : List ℕ) (exports : Option NameMap) (a0 a : Adapter)
    (holders : List ℕ)
    → exports ≢ none
    → is_among name loading ≡ false
    → lookup name a.loaded ≡ none
    → Keeps loading a0 a
    → IsCounted a (deps ++ holders)
    → GoodLoad loading none a0 holders (entered name deps exports a)
unfolding entered
entered-Good loading name deps none a0 a holders built new absent k c = absurd (built refl)
entered-Good loading name deps (some exports) a0 a holders built new absent k c =
    let lib : Library = record {
      name = name;
      exports = exports;
      needed_deps = deps;
      preloaded = false;
    } in
    let run_time = preloaded-register lib a in
    (
      subst
          (λ (b : Bool).
            IsCounted (register lib a) (if b then holders else length a.libs ∷ holders))
          (sym run_time) (register-IsCounted a lib holders c absent refl),
      (λ n on gone. none-register lib a n (among_other name n loading new on) (k n on gone)),
      λ e. run_time,
    )

among_more :
    (n name : Name) (loading : List Name)
    → is_among n loading ≡ true
    → is_among n (name ∷ loading) ≡ true
unfolding is_among
among_more n name loading h = ground (arith, h)

among_here : (name : Name) (loading : List Name) → is_among name (name ∷ loading) ≡ true
unfolding is_among
among_here name loading = ground (arith, name_eq_refl name)

-- The references after a load: the caller has one more where it got a library that is counted.
abbrev pub holding : Adapter → Option ℕ → List ℕ → List ℕ
holding a none handles = handles
holding a (some i) handles = if is_preloaded (nth a.libs i) then handles else i ∷ handles

Answered : List ℕ → Outcome ℕ → Type 0
Answered handles o =
    (a' : Adapter) × (r : Option ℕ) × (o ≡ some (a', r)) × IsCounted a' (holding a' r handles)

answered :
    (before : Option ℕ) (a : Adapter) (handles : List ℕ) (o : Outcome ℕ)
    → GoodLoad [] before a handles o
    → Answered handles o
unfolding Answered
answered before a handles none h = elim h [ ]
answered before a handles (some (a', none)) (c, k) = (a', none, refl, c)
answered before a handles (some (a', some i)) (c, k, f) = (a', some i, refl, c)

module _ (prepare : Name → Option SoInfo) (build : Name → SoInfo → Adapter → Option NameMap)
    (builds : (name : Name) (info : SoInfo) (a : Adapter) → build name info a ≢ none) where
  after_needed-Good :
      (loading : List Name) (name : Name) (info : SoInfo) (a : Adapter) (holders : List ℕ)
      (o : Outcome (List ℕ))
      → is_among name loading ≡ false
      → lookup name a.loaded ≡ none
      → GoodNeeded (name ∷ loading) a holders o
      → GoodLoad loading none a holders (after_needed prepare build name info o)
  unfolding after_needed
  after_needed-Good loading name info a holders none new absent h = elim h [ ]
  after_needed-Good loading name info a holders (some (a', none)) new absent (c, k) =
      (c, λ n on gone. k n (among_more n name loading on) gone)
  after_needed-Good loading name info a holders (some (a', some deps)) new absent (c, k) =
      entered-Good loading name deps (build name info a') a a' holders (builds name info a') new
        (k name (among_here name loading) absent)
        (λ n on gone. k n (among_more n name loading on) gone) c

  load_prepared-Good :
      (load : Name → Adapter → Outcome ℕ) (loading : List Name) (name : Name) (o : Option SoInfo)
      (a : Adapter) (holders : List ℕ)
      → is_among name loading ≡ false
      → lookup name a.loaded ≡ none
      → IsCounted a holders
      → (o ≢ none → CanLoad (name ∷ loading) load)
      → GoodLoad loading none a holders (load_prepared prepare build load name o a)
  unfolding load_prepared
  load_prepared-Good load loading name none a holders new absent c can = (c, λ n on gone. gone)
  load_prepared-Good load loading name (some info) a holders new absent c can =
      after_needed-Good loading name info a holders (load_needed load info.needed [] a) new absent
        (load_needed-Good (name ∷ loading) load info.needed [] a holders (can (λ e. cc)) c)

  if_good :
      (loading : List Name) (a : Adapter) (holders : List ℕ) (b : Bool) (y : Outcome ℕ)
      → IsCounted a holders
      → (b ≡ false → GoodLoad loading none a holders y)
      → GoodLoad loading none a holders (if b then some (a, none) else y)
  if_good loading a holders true y c h = (c, λ n on gone. gone)
  if_good loading a holders false y c h = h refl

  load_known-Good :
      (load : Name → Adapter → Outcome ℕ) (loading : List Name) (name : Name) (o : Option ℕ)
      (a : Adapter) (holders : List ℕ)
      → lookup name a.loaded ≡ o
      → IsCounted a holders
      → (is_among name loading ≡ false → prepare name ≢ none → CanLoad (name ∷ loading) load)
      → GoodLoad loading o a holders (load_known prepare build load loading name o a)
  unfolding load_known
  load_known-Good load loading name (some i) a holders at c can = (
    subst
        (λ (l : List Library).
          IsCounted (reopen i a) (if is_preloaded (nth l i) then holders else i ∷ holders))
        (sym (libs-reopen i a)) (reopen-IsCounted a name i holders c at),
    (λ n on gone. ap (λ (m : NameMap). lookup n m) (loaded-reopen i a) ∙ gone),
    λ e. cc,
  )
  load_known-Good load loading name none a holders at c can =
      if_good loading a holders (is_among name loading) _ c
        λ new. load_prepared-Good load loading name (prepare name) a holders new at c (can new)

  load_library-Good :
      (files : List Name)
      → ((name : Name) → prepare name ≢ none → is_among name files ≡ true)
      → (fuel : ℕ) (loading : List Name) → unvisited files loading < fuel
      → CanLoad loading (load_library prepare build fuel loading)
  unfolding load_library
  load_library-Good files there zero loading h name a holders c = absurd (omega (arith, h))
  load_library-Good files there (suc fuel) loading h name a holders c =
      load_known-Good (λ n b. load_library prepare build fuel (name ∷ loading) n b) loading name
        (lookup name a.loaded) a holders refl c
        λ new found.
          load_library-Good files there fuel (name ∷ loading)
            (omega (arith, h, unvisited_lt files name loading (there name found) new))

-- Where the counts are exact and the modules around a library can always be built, a load answers on as
-- many rounds as there are files and one more, and the counts are exact again, with one more reference,
-- that of the caller, exactly where it got a library that is not preloaded: the libraries that are
-- needed are counted once for each library that needs them, and those that were taken for a load that
-- fails are given back.
pub load_library-IsCounted :
    (prepare : Name → Option SoInfo) (build : Name → SoInfo → Adapter → Option NameMap)
    (files : List Name) (name : Name) (a : Adapter) (handles : List ℕ)
    → ((n : Name) (info : SoInfo) (b : Adapter) → build n info b ≢ none)
    → ((n : Name) → prepare n ≢ none → is_among n files ≡ true)
    → IsCounted a handles
    → (a' : Adapter) × (r : Option ℕ) × (load_library prepare build (suc (length files)) [] name a
        ≡ some (a', r))
      × IsCounted a' (holding a' r handles)
unfolding Answered
load_library-IsCounted prepare build files name a handles builds there c =
    answered (lookup name a.loaded) a handles
      (load_library prepare build (suc (length files)) [] name a)
      (load_library-Good prepare build builds files there (suc (length files)) []
        (omega (arith, unvisited_all files)) name a handles c)
