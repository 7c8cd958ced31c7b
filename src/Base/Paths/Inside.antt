-- ===== src/Base/Paths/Inside.antt =====
-- The clean paths that stay below where they start.
use Prim.Native.Nat.{ℕ}
use mathlib.Core.Path.{◌≡◌, refl, sym, ap, subst, ◌∙◌}
use mathlib.Core.Bool.{true, false, ◌||◌}
use mathlib.Core.Logic.{inl, inr}
use mathlib.Core.List.{List, [], ◌∷◌, ◌++◌}
use native.Mathlib.Omega.{arith}
use particles.Base.Tests.{◌==◌}
use particles.Base.Lists.{All, All-append}
use particles.Base.Bytes.{name_eq, has_prefix}
use particles.Base.Paths.{
  dot, up, segments, is_rooted, resolve, join_back, finished, clean, with_first, up_to_slash, dir,
  join,
}
use particles.Base.Paths.Stack.{
  IsEntry, IsKept, GoesUp, IsGood, segments-All, whole_segment, segments-append, resolve-IsGood,
}

-- A path below where it starts, as fs.ValidPath wants it: all segments name entries.
abbrev pub IsBelow : List ℕ → Type 0
IsBelow p = All IsEntry (segments p)

has_prefix-append_left : (x y p : List ℕ) → has_prefix x p ≡ true → has_prefix (x ++ y) p ≡ true
unfolding has_prefix
has_prefix-append_left x y [] h = refl
has_prefix-append_left [] y (b ∷ p) h = cc
has_prefix-append_left (a ∷ x) y (b ∷ p) h = ground (arith, h, has_prefix-append_left x y p)

is_up : (s : List ℕ) → name_eq s up ≡ true → has_prefix s up ≡ true
unfolding name_eq has_prefix
is_up [] h = cc
is_up (a ∷ []) h = ground (arith, h)
is_up (a ∷ b ∷ s) h = ground (arith, h)

GoesUp-join_back : (stack : List (List ℕ)) → GoesUp stack → has_prefix (join_back stack) up ≡ true
unfolding join_back
GoesUp-join_back [] h = elim h [ ]
GoesUp-join_back (s ∷ []) h = is_up s h
GoesUp-join_back (s ∷ t ∷ stack) h =
    has_prefix-append_left (join_back (t ∷ stack)) (47 ∷ s) up (GoesUp-join_back (t ∷ stack) h)

-- The segments of the path are those of the stack.
segments-join_back :
    (s : List ℕ) (stack : List (List ℕ))
    → All IsKept (s ∷ stack)
    → All IsEntry (s ∷ stack)
    → IsBelow (join_back (s ∷ stack))
unfolding join_back
segments-join_back s [] ((k, k', free), ks) h = subst (All IsEntry) (sym (whole_segment s free)) h
segments-join_back s (t ∷ stack) ((k, k', free), ks) (h, hs) =
    subst (All IsEntry) (sym (segments-append (join_back (t ∷ stack)) s)) (
      All-append IsEntry (segments (join_back (t ∷ stack))) (segments s)
        (segments-join_back t stack ks hs)
        (subst (All IsEntry) (sym (whole_segment s free)) (h, tt)))

-- A text that is not empty and does not begin with a slash
abbrev IsRelative : List ℕ → Type 0
IsRelative [] = ⊥
IsRelative (b ∷ s) = (b == 47) ≡ false

IsRelative-append : (x y : List ℕ) → IsRelative x → IsRelative (x ++ y)
IsRelative-append [] y h = elim h [ ]
IsRelative-append (b ∷ x) y h = h

IsKept-IsRelative : (s : List ℕ) → IsKept s → IsRelative s
unfolding name_eq
IsKept-IsRelative [] (k, k', free) = cc
IsKept-IsRelative (b ∷ s) (k, k', free) = ground (arith, free)

join_back-IsRelative :
    (s : List ℕ) (stack : List (List ℕ))
    → All IsKept (s ∷ stack)
    → IsRelative (join_back (s ∷ stack))
unfolding join_back
join_back-IsRelative s [] (k, ks) = IsKept-IsRelative s k
join_back-IsRelative s (t ∷ stack) (k, ks) =
    IsRelative-append (join_back (t ∷ stack)) (47 ∷ s) (join_back-IsRelative t stack ks)

finished_relative : (text : List ℕ) → IsRelative text → finished false text ≡ text
finished_relative [] h = elim h [ ]
finished_relative (b ∷ text) h = refl

finished-IsBelow :
    (stack : List (List ℕ))
    → IsGood stack
    → (name_eq (finished false (join_back stack)) []
        || name_eq (finished false (join_back stack)) dot
        || has_prefix (finished false (join_back stack)) up)
      ≡ false
    → IsBelow (finished false (join_back stack))
unfolding name_eq
finished-IsBelow [] g h = absurd (unfold join_back in ground (arith, h))
finished-IsBelow (s ∷ stack) (ks, inl hs) h =
    subst IsBelow
      (sym (finished_relative (join_back (s ∷ stack)) (join_back-IsRelative s stack ks)))
      (segments-join_back s stack ks hs)
finished-IsBelow (s ∷ stack) (ks, inr goes) h =
    let same = finished_relative (join_back (s ∷ stack)) (join_back-IsRelative s stack ks) in
    let leaves : has_prefix (finished false (join_back (s ∷ stack))) up ≡ true =
      ap (λ t. has_prefix t up) same ∙ GoesUp-join_back (s ∷ stack) goes in
    absurd (ground (arith, h, leaves))

finished-IsRelative :
    (stack : List (List ℕ)) → IsGood stack → IsRelative (finished false (join_back stack))
unfolding join_back
finished-IsRelative [] g = refl
finished-IsRelative (s ∷ stack) (ks, g) =
    let r = join_back-IsRelative s stack ks in
    subst IsRelative (sym (finished_relative (join_back (s ∷ stack)) r)) r

cleaned_stack :
    (p : List ℕ)
    → is_rooted p ≡ false
    → clean p ≡ finished false (join_back (resolve false [] (segments p)))
unfolding clean
cleaned_stack p h = ap (λ r. finished r (join_back (resolve r [] (segments p)))) h

stack-IsGood : (p : List ℕ) → IsGood (resolve false [] (segments p))
stack-IsGood p = resolve-IsGood (segments p) [] (segments-All p) (tt, inl tt)

-- A path that does not begin with a slash, and that Clean does not turn into one that is empty, "."
-- or begins with "..", has a clean path below where it starts.
pub clean-IsBelow :
    (p : List ℕ)
    → is_rooted p ≡ false
    → (name_eq (clean p) [] || name_eq (clean p) dot || has_prefix (clean p) up) ≡ false
    → IsBelow (clean p)
clean-IsBelow p r h =
    let e = cleaned_stack p r in
    subst IsBelow (sym e) (
      finished-IsBelow (resolve false [] (segments p)) (stack-IsGood p)
        (subst (λ t. (name_eq t [] || name_eq t dot || has_prefix t up) ≡ false) e h))

clean-IsRelative : (p : List ℕ) → is_rooted p ≡ false → IsRelative (clean p)
clean-IsRelative p r =
    subst IsRelative (sym (cleaned_stack p r))
      (finished-IsRelative (resolve false [] (segments p)) (stack-IsGood p))

up_to_slash_relative : (p : List ℕ) → is_rooted p ≡ false → is_rooted (up_to_slash p) ≡ false
unfolding up_to_slash
up_to_slash_relative [] h = refl
up_to_slash_relative (b ∷ s) h = first (up_to_slash s)
  where
    first : (rest : List ℕ) → is_rooted (with_first b rest) ≡ false
    first [] = ground (arith, h)
    first (c ∷ rest) = h

not_rooted : (p : List ℕ) → IsRelative p → is_rooted p ≡ false
not_rooted [] h = refl
not_rooted (b ∷ p) h = h

join-IsRelative : (x y : List ℕ) → IsRelative x → IsRelative (join x y)
unfolding join
join-IsRelative [] y h = elim h [ ]
join-IsRelative (a ∷ x) [] h = clean-IsRelative (a ∷ x) h
join-IsRelative (a ∷ x) (b ∷ y) h = clean-IsRelative ((a ∷ x) ++ (47 ∷ b ∷ y)) h

-- What is joined to the directory of a path that does not begin with a slash does not begin with one.
pub join-dir_relative : (p q : List ℕ) → is_rooted p ≡ false → is_rooted (join (dir p) q) ≡ false
unfolding dir
join-dir_relative p q h = not_rooted (join (clean (up_to_slash p)) q) (
    join-IsRelative (clean (up_to_slash p)) q
      (clean-IsRelative (up_to_slash p) (up_to_slash_relative p h)))
