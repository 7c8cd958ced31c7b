-- ===== src/Dyld/Names.antt =====
-- The names in WebAssembly binaries, as lists of bytes, for internal/runtime/dyld.
use Prim.Native.Char.{code}
use Prim.Native.String.{[], ◌∷◌}
use particles.Base.{ℕ, String, List}

abbrev pub Name : Type 0
Name = List ℕ

-- The bytes of an ASCII text.
abbrev pub ascii : String → Name
ascii [] = List.[]
ascii (c ∷ s) = List.◌∷◌ (code c) (ascii s)
