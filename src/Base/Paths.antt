-- ===== src/Base/Paths.antt =====
-- Go's package path on lists of bytes: Clean, Dir and Join.
pub mod Stack
pub mod Inside
use Prim.Native.Nat.{ℕ}
use mathlib.Core.Bool.{Bool, true, false, ◌||◌}
use mathlib.Core.List.{List, [], ◌∷◌, ◌++◌}
use particles.Base.Tests.{◌==◌, if◌then◌else◌}
use particles.Base.Bytes.{name_eq}

abbrev pub dot : List ℕ
dot = 46 ∷ []

abbrev pub up : List ℕ
up = 46 ∷ 46 ∷ []

abbrev pub onto_first : ℕ → List (List ℕ) → List (List ℕ)
onto_first b [] = (b ∷ []) ∷ []
onto_first b (s ∷ ss) = (b ∷ s) ∷ ss

-- The pieces of a path between its slashes
unfoldable pub segments : List ℕ → List (List ℕ)
segments [] = [] ∷ []
segments (b ∷ s) = let rest = segments s in if b == 47 then [] ∷ rest else onto_first b rest

abbrev pub is_rooted : List ℕ → Bool
is_rooted [] = false
is_rooted (b ∷ s) = b == 47

-- "..": it takes the last segment away, and stays where there is none but others of its kind.
unfoldable pub pop : (rooted : Bool) → List (List ℕ) → List (List ℕ)
unfolding name_eq
pop true [] = []
pop false [] = up ∷ []
pop rooted (t ∷ stack) = if name_eq t up then up ∷ t ∷ stack else stack

unfoldable pub push : (rooted : Bool) → List (List ℕ) → List ℕ → List (List ℕ)
unfolding pop name_eq
push rooted stack s =
    if name_eq s [] || name_eq s dot
    then stack
    else if name_eq s up
    then pop rooted stack
    else s ∷ stack

-- The segments that stay, the last one first
unfoldable pub resolve : (rooted : Bool) → List (List ℕ) → List (List ℕ) → List (List ℕ)
unfolding push
resolve rooted stack [] = stack
resolve rooted stack (s ∷ ss) = resolve rooted (push rooted stack s) ss

unfoldable pub join_back : List (List ℕ) → List ℕ
join_back [] = []
join_back (s ∷ []) = s
join_back (s ∷ t ∷ stack) = join_back (t ∷ stack) ++ (47 ∷ s)

abbrev pub finished : (rooted : Bool) → List ℕ → List ℕ
finished true text = 47 ∷ text
finished false [] = dot
finished false (b ∷ text) = b ∷ text

-- path.Clean
unfoldable pub clean : List ℕ → List ℕ
unfolding join_back resolve segments
clean p = finished (is_rooted p) (join_back (resolve (is_rooted p) [] (segments p)))

abbrev pub with_first : ℕ → List ℕ → List ℕ
with_first b [] = if b == 47 then b ∷ [] else []
with_first b (c ∷ rest) = b ∷ c ∷ rest

-- A path up to its last slash, with it
unfoldable pub up_to_slash : List ℕ → List ℕ
up_to_slash [] = []
up_to_slash (b ∷ s) = with_first b (up_to_slash s)

-- path.Dir
unfoldable pub dir : List ℕ → List ℕ
unfolding clean up_to_slash
dir p = clean (up_to_slash p)

-- path.Join of two elements
unfoldable pub join : List ℕ → List ℕ → List ℕ
unfolding clean
join [] [] = []
join [] (b ∷ y) = clean (b ∷ y)
join (a ∷ x) [] = clean (a ∷ x)
join (a ∷ x) (b ∷ y) = clean ((a ∷ x) ++ (47 ∷ b ∷ y))
