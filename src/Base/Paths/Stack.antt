-- ===== src/Base/Paths/Stack.antt =====
-- The segments that Clean keeps, on its stack.
use Prim.Native.Nat.{ℕ}
use mathlib.Core.Path.{◌≡◌, refl, ap, ◌∙◌}
use mathlib.Core.Bool.{Bool, true, false, ◌||◌}
use mathlib.Core.Logic.{◌⊎◌, inl, inr}
use mathlib.Core.List.{List, [], ◌∷◌, ◌++◌}
use native.Mathlib.Omega.{arith}
use particles.Base.Tests.{◌==◌, if◌then◌else◌, Bool-cases}
use particles.Base.Lists.{All}
use particles.Base.Bytes.{name_eq}
use particles.Base.Paths.{dot, up, onto_first, segments, pop, push, resolve}

-- A segment that names an entry of a directory: it is not empty, "." or "..".
abbrev pub IsEntry : List ℕ → Type 0
IsEntry s = (name_eq s [] ≡ false) × (name_eq s dot ≡ false) × (name_eq s up ≡ false)

abbrev pub has_slash : List ℕ → Bool
has_slash [] = false
has_slash (b ∷ s) = b == 47 || has_slash s

onto_first-All :
    (b : ℕ) (ss : List (List ℕ))
    → (b == 47) ≡ false
    → All (λ s. has_slash s ≡ false) ss
    → All (λ s. has_slash s ≡ false) (onto_first b ss)
onto_first-All b [] e h = (ground (arith, e), tt)
onto_first-All b (s ∷ ss) e (h, hs) = (ground (arith, e, h), hs)

pub segments-All : (p : List ℕ) → All (λ s. has_slash s ≡ false) (segments p)
unfolding segments
segments-All [] = (refl, tt)
segments-All (b ∷ s) = elim (Bool-cases (b == 47)) [
  | inl e ↦ rw e (refl, segments-All s)
  | inr e ↦ rw e (onto_first-All b (segments s) e (segments-All s))
]

pub whole_segment : (s : List ℕ) → has_slash s ≡ false → segments s ≡ s ∷ []
unfolding segments
whole_segment [] h = refl
whole_segment (b ∷ s) h = ground (arith, h, whole_segment s)

segments_cons : (x : List ℕ) → (s : List ℕ) × (ss : List (List ℕ)) × (segments x ≡ s ∷ ss)
unfolding segments
segments_cons [] = ([], [], refl)
segments_cons (b ∷ x) = elim (Bool-cases (b == 47)) [
  | inl e ↦ ([], segments x, rw e refl)
  | inr e ↦ let (s, ss, eq) = segments_cons x in (b ∷ s, ss, rw e (ap (onto_first b) eq))
]

onto_first-append :
    (b : ℕ) (x y : List ℕ)
    → onto_first b (segments x ++ segments y) ≡ onto_first b (segments x) ++ segments y
onto_first-append b x y = let (s, ss, e) = segments_cons x in rw e refl

pub segments-append : (x y : List ℕ) → segments (x ++ (47 ∷ y)) ≡ segments x ++ segments y
unfolding segments
segments-append [] y = refl
segments-append (b ∷ x) y = elim (Bool-cases (b == 47)) [
  | inl e ↦ rw e (ap (λ (ss : List (List ℕ)). List.◌∷◌ List.[] ss) (segments-append x y))
  | inr e ↦ rw e (ap (onto_first b) (segments-append x y) ∙ onto_first-append b x y)
]

-- What stands on the stack: no segment is empty or ".", and none has a slash.
abbrev pub IsKept : List ℕ → Type 0
IsKept s = (name_eq s [] ≡ false) × (name_eq s dot ≡ false) × (has_slash s ≡ false)

-- The first segment of the path is "..".
abbrev pub GoesUp : List (List ℕ) → Type 0
GoesUp [] = ⊥
GoesUp (s ∷ []) = name_eq s up ≡ true
GoesUp (s ∷ t ∷ stack) = GoesUp (t ∷ stack)

abbrev pub IsGood : List (List ℕ) → Type 0
IsGood stack = All IsKept stack × (All IsEntry stack ⊎ GoesUp stack)

up-IsKept : IsKept up
unfolding name_eq
up-IsKept = (refl, refl, refl)

choose-IsGood :
    (b : Bool) (x y : List (List ℕ))
    → (b ≡ true → IsGood x)
    → (b ≡ false → IsGood y)
    → IsGood (if b then x else y)
choose-IsGood true x y f g = f refl
choose-IsGood false x y f g = g refl

below_top :
    (t : List ℕ) (stack : List (List ℕ)) → name_eq t up ≡ false → IsGood (t ∷ stack) → IsGood stack
below_top t stack e ((k, ks), inl (h, hs)) = (ks, inl hs)
below_top t [] e (k, inr h) = absurd (ground (arith, e, h))
below_top t (u ∷ stack) e ((k, ks), inr h) = (ks, inr h)

pop-IsGood : (stack : List (List ℕ)) → IsGood stack → IsGood (pop false stack)
unfolding pop name_eq
pop-IsGood [] g = ((up-IsKept, tt), inr refl)
pop-IsGood (t ∷ stack) g =
    choose-IsGood (name_eq t up) (up ∷ t ∷ stack) stack (up_again g) (λ e. below_top t stack e g)
  where
    up_again : IsGood (t ∷ stack) → name_eq t up ≡ true → IsGood (up ∷ t ∷ stack)
    up_again (ks, inr h) e = ((up-IsKept, ks), inr h)
    up_again (ks, inl ((h, h', h''), hs)) e = absurd (ground (arith, e, h''))

GoesUp-cons : (s : List ℕ) (stack : List (List ℕ)) → GoesUp stack → GoesUp (s ∷ stack)
GoesUp-cons s [] h = elim h [ ]
GoesUp-cons s (t ∷ stack) h = h

put_entry :
    (s : List ℕ) (stack : List (List ℕ)) → IsEntry s → IsKept s → IsGood stack → IsGood (s ∷ stack)
put_entry s stack h k (ks, inl hs) = ((k, ks), inl (h, hs))
put_entry s stack h k (ks, inr up) = ((k, ks), inr (GoesUp-cons s stack up))

push-IsGood :
    (stack : List (List ℕ)) (s : List ℕ)
    → has_slash s ≡ false
    → IsGood stack
    → IsGood (push false stack s)
unfolding push
push-IsGood stack s free g =
    choose-IsGood (name_eq s [] || name_eq s dot) stack _ (λ e. g)
      (λ e.
        choose-IsGood (name_eq s up) (pop false stack) (s ∷ stack) (λ u. pop-IsGood stack g)
          (λ u.
            let some : name_eq s [] ≡ false = ground (arith, e) in
            let no_dot : name_eq s dot ≡ false = ground (arith, e) in
            put_entry s stack (some, no_dot, u) (some, no_dot, free) g))

pub resolve-IsGood :
    (ss stack : List (List ℕ))
    → All (λ s. has_slash s ≡ false) ss
    → IsGood stack
    → IsGood (resolve false stack ss)
unfolding resolve
resolve-IsGood [] stack h g = g
resolve-IsGood (s ∷ ss) stack (h, hs) g =
    resolve-IsGood ss (push false stack s) hs (push-IsGood stack s h g)
