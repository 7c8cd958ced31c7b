-- ===== src/Scripts/Tests.antt =====
-- A source of four lines with one block.
use particles.Base.{ℕ, ◌+◌, ◌≡◌, refl, List, [], ◌∷◌, ◌++◌, length, Option, some, true}
use particles.Base.Bytes.{name_eq}
use particles.Dyld.Names.{ascii}
use particles.Scripts.{Line, trim_cr, err, multiple, decoded, opener, closer, scan_bytes}
use particles.Scripts.Blocks.{comments, joined_lines, scan_bytes-comments}

abbrev no_python : List ℕ → Option (List Line × Line)
no_python text = some (text ∷ [], [])

abbrev before : List Line
before = ascii "import os" ∷ []

abbrev text : List Line
text = ascii "x = 1" ∷ [] ∷ []

two_blocks : scan_bytes no_python true (opener ∷ closer ∷ opener ∷ closer ∷ []) ≡ err (multiple 1 3)
unfolding scan_bytes
two_blocks = refl

scan_bytes-comments_example :
    scan_bytes no_python true (before ++ (opener ∷ (comments text ++ (closer ∷ []))))
    ≡ decoded (length before + 1) (no_python (joined_lines text))
unfolding trim_cr name_eq
scan_bytes-comments_example =
    scan_bytes-comments no_python before text [] (refl, tt) ((refl, refl), ((refl, refl), tt)) tt
