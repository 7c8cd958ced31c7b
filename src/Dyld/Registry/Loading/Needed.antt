-- ===== src/Dyld/Registry/Loading/Needed.antt =====
-- The libraries that a library of internal/runtime/dyld needs, while it is loaded (load).
use particles.Base.{
  ℕ, suc, ◌≡◌, refl, sym, ap, subst, ◌∙◌, Bool, true, false, Option, none, some, List, [], ◌∷◌,
  ◌++◌, length, if◌then◌else◌, arith,
}
use particles.Dyld.Names.{Name}
use particles.Dyld.Info.{NameMap, lookup, nth}
use particles.Dyld.Registry.{Adapter, is_preloaded, unref, reopen}
use particles.Dyld.Registry.Counts.{occurs, occurs-append}
use particles.Dyld.Registry.Unref.{IsCounted, Releases, unref-Releases, release_all-Releases}
use particles.Dyld.Registry.Loading.{
  Outcome, is_among, main_satisfied_needed, rolled_back, roll_back, after_dep, known_dep, one_dep,
  load_needed,
}
use particles.Dyld.Registry.Loading.Entered.{reopen-IsCounted}

-- Only how often each reference is held matters.
pub recount :
    (a : Adapter) (h k : List ℕ)
    → ((x : ℕ) → occurs x h ≡ occurs x k)
    → IsCounted a h
    → IsCounted a k
recount a h k same c = record {
  keys = c.keys;
  in_range = c.in_range;
  named = c.named;
  exact = λ x o. omega (arith, c.exact x o, same x);
  is_open = λ x p. c.is_open x (omega (arith, p, same x));
  used = λ x o. omega (arith, c.used x o, same x);
}

at_end :
    (a : Adapter) (i : ℕ) (deps holders : List ℕ)
    → IsCounted a (i ∷ (deps ++ holders))
    → IsCounted a ((deps ++ (i ∷ [])) ++ holders)
at_end a i deps holders c =
    recount a (i ∷ (deps ++ holders)) ((deps ++ (i ∷ [])) ++ holders)
      (λ x. omega (
        arith,
        occurs-append x deps holders,
        occurs-append x (deps ++ (i ∷ [])) holders,
        occurs-append x deps (i ∷ []),
      ))
      c

-- No name on the stack enters the registry.
abbrev pub Keeps : List Name → Adapter → Adapter → Type 0
Keeps loading a a' =
    (n : Name) → is_among n loading ≡ true → lookup n a.loaded ≡ none → lookup n a'.loaded ≡ none

-- A load that answers: the counts are exact again, with a reference for the caller if it succeeded.
abbrev pub GoodLoad : List Name → Option ℕ → Adapter → List ℕ → Outcome ℕ → Type 0
GoodLoad loading before a holders none = ⊥
GoodLoad loading before a holders (some (a', none)) = IsCounted a' holders × Keeps loading a a'
GoodLoad loading before a holders (some (a', some i)) =
    IsCounted a' (if is_preloaded (nth a'.libs i) then holders else i ∷ holders)
    × Keeps loading a a'
    × (before ≡ none → is_preloaded (nth a'.libs i) ≡ false)

abbrev pub GoodNeeded : List Name → Adapter → List ℕ → Outcome (List ℕ) → Type 0
GoodNeeded loading a holders none = ⊥
GoodNeeded loading a holders (some (a', none)) = IsCounted a' holders × Keeps loading a a'
GoodNeeded loading a holders (some (a', some deps)) =
    IsCounted a' (deps ++ holders) × Keeps loading a a'

needed_from :
    (loading : List Name) (a a1 : Adapter) (holders : List ℕ) (o : Outcome (List ℕ))
    → Keeps loading a a1
    → GoodNeeded loading a1 holders o
    → GoodNeeded loading a holders o
needed_from loading a a1 holders none k h = h
needed_from loading a a1 holders (some (a', none)) k (c, k') = (c, λ n on e. k' n on (k n on e))
needed_from loading a a1 holders (some (a', some deps)) k (c, k') =
    (c, λ n on e. k' n on (k n on e))

abbrev pub CanLoad : List Name → (Name → Adapter → Outcome ℕ) → Type 0
CanLoad loading load =
    (name : Name) (a : Adapter) (holders : List ℕ)
    → IsCounted a holders
    → GoodLoad loading (lookup name a.loaded) a holders (load name a)

roll_back-Good :
    (loading : List Name) (deps : List ℕ) (a : Adapter) (holders : List ℕ)
    → IsCounted a (deps ++ holders)
    → GoodNeeded loading a holders (roll_back deps a)
unfolding roll_back Releases
roll_back-Good loading deps a holders c =
    let (a', e, c', l, n, s) =
      release_all-Releases (suc (length a.loaded)) (unref (suc (length a.loaded)))
        (λ d b more c1 h. unref-Releases (suc (length a.loaded)) d b more c1 h) deps a holders c
        (omega arith) in
    subst (λ (o : Option Adapter). GoodNeeded loading a holders (rolled_back o)) (sym e)
      (c', λ name on gone. n name gone)

pub loaded-reopen : (i : ℕ) (a : Adapter) → (reopen i a).loaded ≡ a.loaded
unfolding reopen
loaded-reopen i a = ground arith

abbrev GoesOn : List Name → List ℕ → (List ℕ → Adapter → Outcome (List ℕ)) → Type 0
GoesOn loading holders go_on =
    (deps : List ℕ) (a : Adapter)
    → IsCounted a (deps ++ holders)
    → GoodNeeded loading a holders (go_on deps a)

after_dep-Good :
    (loading : List Name) (go_on : List ℕ → Adapter → Outcome (List ℕ)) (deps : List ℕ)
    (a : Adapter) (holders : List ℕ) (o : Outcome ℕ)
    → GoesOn loading holders go_on
    → GoodLoad loading none a (deps ++ holders) o
    → GoodNeeded loading a holders (after_dep go_on deps o)
unfolding after_dep
after_dep-Good loading go_on deps a holders none go h = elim h [ ]
after_dep-Good loading go_on deps a holders (some (a', none)) go (c, k) =
    needed_from loading a a' holders (roll_back deps a') k
      (roll_back-Good loading deps a' holders c)
after_dep-Good loading go_on deps a holders (some (a', some i)) go (c, k, fresh) =
    let c' =
      subst (λ (b : Bool). IsCounted a' (if b then deps ++ holders else i ∷ (deps ++ holders)))
        (fresh refl) c in
    needed_from loading a a' holders (go_on (deps ++ (i ∷ [])) a') k
      (go (deps ++ (i ∷ [])) a' (at_end a' i deps holders c'))

known_dep-Good :
    (loading : List Name) (go_on : List ℕ → Adapter → Outcome (List ℕ)) (deps : List ℕ)
    (name : Name) (i : ℕ) (a : Adapter) (holders : List ℕ) (b : Bool)
    → GoesOn loading holders go_on
    → IsCounted a (deps ++ holders)
    → lookup name a.loaded ≡ some i
    → is_preloaded (nth a.libs i) ≡ b
    → GoodNeeded loading a holders (known_dep go_on deps i b a)
unfolding known_dep
known_dep-Good loading go_on deps name i a holders true go c at e = go deps a c
known_dep-Good loading go_on deps name i a holders false go c at e =
    let c' =
      subst
        (λ (b : Bool).
          IsCounted (reopen i a) (if b then deps ++ holders else i ∷ (deps ++ holders)))
        e (reopen-IsCounted a name i (deps ++ holders) c at) in
    needed_from loading a (reopen i a) holders (go_on (deps ++ (i ∷ [])) (reopen i a))
      (λ n on gone. ap (λ (m : NameMap). lookup n m) (loaded-reopen i a) ∙ gone)
      (go (deps ++ (i ∷ [])) (reopen i a) (at_end (reopen i a) i deps holders c'))

one_dep-Good :
    (loading : List Name) (load : Name → Adapter → Outcome ℕ)
    (go_on : List ℕ → Adapter → Outcome (List ℕ)) (deps : List ℕ) (dep : Name) (o : Option ℕ)
    (a : Adapter) (holders : List ℕ)
    → CanLoad loading load
    → GoesOn loading holders go_on
    → IsCounted a (deps ++ holders)
    → lookup dep a.loaded ≡ o
    → GoodNeeded loading a holders (one_dep load go_on deps dep o a)
unfolding one_dep
one_dep-Good loading load go_on deps dep (some i) a holders can go c e =
    known_dep-Good loading go_on deps dep i a holders (is_preloaded (nth a.libs i)) go c e refl
one_dep-Good loading load go_on deps dep none a holders can go c e =
    after_dep-Good loading go_on deps a holders (load dep a) go (
      subst (λ (o : Option ℕ). GoodLoad loading o a (deps ++ holders) (load dep a)) e
        (can dep a (deps ++ holders) c))

if_good :
    (loading : List Name) (a : Adapter) (holders : List ℕ) (b : Bool) (x y : Outcome (List ℕ))
    → GoodNeeded loading a holders x
    → GoodNeeded loading a holders y
    → GoodNeeded loading a holders (if b then x else y)
if_good loading a holders true x y h k = h
if_good loading a holders false x y h k = k

pub load_needed-Good :
    (loading : List Name) (load : Name → Adapter → Outcome ℕ) (needed : List Name) (deps : List ℕ)
    (a : Adapter) (holders : List ℕ)
    → CanLoad loading load
    → IsCounted a (deps ++ holders)
    → GoodNeeded loading a holders (load_needed load needed deps a)
unfolding load_needed
load_needed-Good loading load [] deps a holders can c = (c, λ n on e. e)
load_needed-Good loading load (dep ∷ needed) deps a holders can c =
    if_good loading a holders (is_among dep main_satisfied_needed) _ _
      (load_needed-Good loading load needed deps a holders can c)
      (one_dep-Good loading load (λ deps' a'. load_needed load needed deps' a') deps dep
        (lookup dep a.loaded) a holders can
        (λ deps' a' c'. load_needed-Good loading load needed deps' a' holders can c') c refl)
