-- ===== src/Scripts.antt =====
-- internal/pyscan/pyscan.go: the script blocks of a Python source (extractScriptBlocks and scanBytes).
-- The lines are what bufio.Scanner gives, and the TOML parser is a parameter.
pub mod Blocks
mod Tests
use particles.Base.{
  ℕ, zero, suc, ◌+◌, Bool, true, false, ◌&&◌, Option, none, some, List, [], ◌∷◌, ◌++◌, ◌==◌,
  if◌then◌else◌,
}
use particles.Base.Bytes.{name_eq, has_prefix, trimmed}
use particles.Dyld.Names.{ascii}

abbrev pub Line : Type 0
Line = List ℕ

-- strings.TrimRight(line, "\r")
unfoldable pub trim_cr : Line → Line
unfolding name_eq
trim_cr [] = []
trim_cr (b ∷ s) = let rest = trim_cr s in if b == 13 && name_eq rest [] then [] else b ∷ rest

-- scriptBlock
pub record Block : Type 0 where
  pub body : List ℕ
  pub start_line : ℕ

pub data ScanError : Type 0 where
  not_comment unterminated : (line : ℕ) → ScanError
  multiple : (first second : ℕ) → ScanError
  unreadable : ScanError
  invalid_toml : (start : ℕ) → ScanError

pub data Extracted {ℓ} (A : Type ℓ) : Type ℓ where
  ok : A → Extracted A
  err : ScanError → Extracted A

-- In a block: the line of its opener, and its text so far
abbrev pub State : Type 0
State = Option (ℕ × List ℕ)

pub data Step : Type 0 where
  goes : State → Step
  closes : Block → Step
  fails : ScanError → Step

abbrev pub opener : Line
opener = ascii "# /// script"

abbrev pub closer : Line
closer = ascii "# ///"

-- One line, the `n`-th, without its trailing "\r"
unfoldable pub step : State → ℕ → Line → Step
unfolding name_eq has_prefix trimmed
step none n line = if name_eq line opener then goes (some (n, [])) else goes none
step (some (start, body)) n line =
    if name_eq line closer
    then closes (record { body = body; start_line = start })
    else if name_eq line (ascii "#")
    then goes (some (start, body ++ (10 ∷ [])))
    else if has_prefix line (ascii "# ")
    then goes (some (start, body ++ (trimmed line (ascii "# ") ++ (10 ∷ []))))
    else fails (not_comment n)

unfoldable pub add_block : Block → Extracted (List Block) → Extracted (List Block)
add_block b (ok blocks) = ok (b ∷ blocks)
add_block b (err e) = err e

-- extractScriptBlocks; `readable` says whether the scanner ended without an error.
unfoldable pub extract : (readable : Bool) → State → ℕ → List Line → Extracted (List Block)
unfolding step add_block trim_cr
extract false s n [] = err unreadable
extract true none n [] = ok []
extract true (some (start, body)) n [] = err (unterminated start)
extract readable s n (line ∷ lines) = elim (step s (n + 1) (trim_cr line)) [
  | goes s' ↦ extract readable s' (n + 1) lines
  | closes b ↦ add_block b (extract readable none (n + 1) lines)
  | fails e ↦ err e
]

pub record Metadata : Type 0 where
  pub has_block : Bool
  pub dependencies : List Line
  pub requires_python : Line

unfoldable pub decoded : ℕ → Option (List Line × Line) → Extracted Metadata
decoded start none = err (invalid_toml start)
decoded start (some (deps, python)) =
    ok (record { has_block = true; dependencies = deps; requires_python = python })

unfoldable pub of_blocks :
    (List ℕ → Option (List Line × Line)) → Extracted (List Block) → Extracted Metadata
unfolding decoded
of_blocks decode (err e) = err e
of_blocks decode (ok []) =
    ok (record { has_block = false; dependencies = []; requires_python = [] })
of_blocks decode (ok (b ∷ [])) = decoded b.start_line (decode b.body)
of_blocks decode (ok (a ∷ b ∷ blocks)) = err (multiple a.start_line b.start_line)

-- scanBytes
unfoldable pub scan_bytes :
    (List ℕ → Option (List Line × Line)) → Bool → List Line → Extracted Metadata
unfolding extract of_blocks
scan_bytes decode readable lines = of_blocks decode (extract readable none 0 lines)
