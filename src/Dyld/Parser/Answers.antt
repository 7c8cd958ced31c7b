-- ===== src/Dyld/Parser/Answers.antt =====
-- parseSO of internal/runtime/dyld/loader.go and its loops that end with the input.
use particles.Base.{
  ℕ, zero, suc, ◌+◌, ◌<◌, ◌≤◌, ◌≢◌, ap, Bool, true, false, List, [], ◌∷◌, length, arith,
  if◌then◌else◌, ◌==◌, ◌||◌, ◌&&◌,
}
use particles.Base.Bytes.{name_eq}
use particles.Dyld.{
  Read, ReadError, ok, err, end_of_input, not_wasm, out_of_fuel, read_uleb128, read_sleb128,
}
use particles.Dyld.Names.{ascii}
use particles.Dyld.Info.{SoInfo, new_info}
use particles.Dyld.Reader.{Reader, bind, read_byte, read_full, read_string, uleb32}
use particles.Dyld.Parser.{
  seek, skip_operand, skip_until_end, ended, skip_init, init_value, parse_global, parse_globals,
  parse_global_section, parse_exports, parse_export_section, read_names, parse_subsection, within,
  parse_all, parse_custom, maybe_parse_dylink0, parse_section, parse_so,
}
use particles.Dyld.Parser.Moves.{
  Moves, moved, refused, IsSane, Moves-le, Moves-bind, Moves-if, IsSane-if, >>=-IsSane, pure-IsSane,
  read_byte-IsSane, read_full-IsSane, read_uleb128-IsSane, read_sleb128-IsSane, read_string-IsSane,
  uleb32-IsSane, skips,
}
use particles.Dyld.Parser.Sections.{
  parse_type_section-IsSane, parse_import_section-IsSane, parse_function_section-IsSane,
}

length-seek : (n : ℕ) (r : List ℕ) → length (seek n r) ≤ length r
unfolding seek
length-seek zero r = omega arith
length-seek (suc n) [] = omega arith
length-seek (suc n) (b ∷ r) = omega (arith, length-seek n r)

skip_operand-IsSane : (b : ℕ) → IsSane (skip_operand b)
unfolding skip_operand
skip_operand-IsSane b =
    IsSane-if (b == 0x41 || b == 0x42) _ _ (skips read_sleb128 read_sleb128-IsSane) (
      IsSane-if (b == 0x43) _ _ (λ r. moved (length-seek 4 r))
        (IsSane-if (b == 0x44) _ _ (λ r. moved (length-seek 8 r))
          (IsSane-if (b == 0x23 || b == 0xD2) _ _ (skips read_uleb128 read_uleb128-IsSane)
            (IsSane-if (b == 0xD0) _ _ (skips read_byte read_byte-IsSane) (pure-IsSane tt)))))

skip_rest :
    (fuel : ℕ) (r : List ℕ)
    → length r ≤ fuel
    → ((b : ℕ) (r' : List ℕ) → length r' < fuel → Moves r' (skip_until_end fuel b r'))
    → Moves r (bind (read_byte r) λ (next, rest). skip_until_end fuel next rest)
unfolding read_byte
skip_rest fuel [] le rec = refused (λ e. cc)
skip_rest fuel (b ∷ r) le rec = Moves-le (rec b r (omega (arith, le))) (omega arith)

-- One round for each byte is enough.
skip_until_end-Moves :
    (fuel b : ℕ) (r : List ℕ) → length r < fuel → Moves r (skip_until_end fuel b r)
unfolding skip_until_end
skip_until_end-Moves zero b r h = absurd (omega (arith, h))
skip_until_end-Moves (suc fuel) b r h = Moves-if (b == 0x0B) _ _ _ (moved (omega arith)) (
    Moves-bind r (skip_operand b r) _ (skip_operand-IsSane b r) λ _ rest le.
      Moves-le
        (skip_rest fuel rest (omega (arith, le, h)) λ b' r' k. skip_until_end-Moves fuel b' r' k)
        le)

init_value-IsSane : (i val_type first : ℕ) → IsSane (init_value i val_type first)
unfolding init_value skip_init ended
init_value-IsSane i val_type first =
    IsSane-if (val_type == 0x7F && first == 0x41) _ _
      (>>=-IsSane read_sleb128 _ read_sleb128-IsSane λ value.
        >>=-IsSane read_byte _ read_byte-IsSane
          λ end. IsSane-if (end == 0x0B) _ _ (pure-IsSane _) λ r. refused (λ e. cc))
      λ r.
        Moves-bind r _ _ (skip_until_end-Moves (suc (length r)) first r (omega arith))
          λ _ rest le. moved le

parse_global-IsSane : (i : ℕ) → IsSane (parse_global i)
unfolding parse_global
parse_global-IsSane i = >>=-IsSane read_byte _ read_byte-IsSane λ val_type.
    >>=-IsSane read_byte _ read_byte-IsSane
      λ _. >>=-IsSane read_byte _ read_byte-IsSane λ first. init_value-IsSane i val_type first

parse_globals-IsSane : (n i : ℕ) → IsSane (parse_globals n i)
unfolding parse_globals
parse_globals-IsSane zero i r = moved (omega arith)
parse_globals-IsSane (suc n) i r =
    >>=-IsSane (parse_global i) _ (parse_global-IsSane i)
      (λ value.
        >>=-IsSane (parse_globals n (i + 1)) _ (parse_globals-IsSane n (i + 1))
          λ rest. pure-IsSane _)
      r

parse_global_section-IsSane : (info : SoInfo) → IsSane (parse_global_section info)
unfolding parse_global_section
parse_global_section-IsSane info =
    >>=-IsSane read_uleb128 _ read_uleb128-IsSane
      λ n. >>=-IsSane (parse_globals n 0) _ (parse_globals-IsSane n 0) λ values. pure-IsSane _

parse_exports-IsSane : (n : ℕ) (info : SoInfo) → IsSane (parse_exports n info)
unfolding parse_exports
parse_exports-IsSane zero info r = moved (omega arith)
parse_exports-IsSane (suc n) info r =
    >>=-IsSane read_string _ read_string-IsSane
      (λ name.
        >>=-IsSane read_byte _ read_byte-IsSane
          λ kind. >>=-IsSane read_uleb128 _ read_uleb128-IsSane λ idx. parse_exports-IsSane n _)
      r

parse_export_section-IsSane : (info : SoInfo) → IsSane (parse_export_section info)
unfolding parse_export_section
parse_export_section-IsSane info =
    >>=-IsSane read_uleb128 _ read_uleb128-IsSane λ n. parse_exports-IsSane n info

read_names-IsSane : (n : ℕ) → IsSane (read_names n)
unfolding read_names
read_names-IsSane zero r = moved (omega arith)
read_names-IsSane (suc n) r =
    >>=-IsSane read_string _ read_string-IsSane
      (λ s. >>=-IsSane (read_names n) _ (read_names-IsSane n) λ rest. pure-IsSane _) r

parse_subsection-IsSane : (sub_type : ℕ) (info : SoInfo) → IsSane (parse_subsection sub_type info)
unfolding parse_subsection
parse_subsection-IsSane sub_type info =
    IsSane-if (sub_type == 1) _ _
      (>>=-IsSane uleb32 _ uleb32-IsSane λ memory_size.
        >>=-IsSane uleb32 _ uleb32-IsSane λ memory_align.
          >>=-IsSane uleb32 _ uleb32-IsSane
            λ table_size. >>=-IsSane uleb32 _ uleb32-IsSane λ table_align. pure-IsSane _)
      (IsSane-if (sub_type == 2) _ _
        (>>=-IsSane uleb32 _ uleb32-IsSane
          λ n. >>=-IsSane (read_names n) _ (read_names-IsSane n) λ names. pure-IsSane _)
        (pure-IsSane info))

body_done {ℓ} :
    {A : Type ℓ} (r body rest : List ℕ) (m : Read (A × List ℕ))
    → Moves body m
    → length rest ≤ length r
    → Moves r (bind m λ (a, _). ok (a, rest))
body_done r body rest _ (moved h) k = moved k
body_done r body rest _ (refused h) k = refused h

-- A section takes a byte at least.
within-Moves {ℓ} :
    {A : Type ℓ} (parse : ℕ → A → Reader A) (a : A) (b : ℕ) (r : List ℕ)
    → ((id : ℕ) (x : A) → IsSane (parse id x))
    → Moves r (within parse a (b ∷ r))
unfolding within read_byte
within-Moves parse a b r h = Moves-bind r (read_uleb128 r) _ (read_uleb128-IsSane r) λ size r' le.
    Moves-le
      (Moves-bind r' (read_full size r') _ (read_full-IsSane size r')
        λ body rest le'. body_done r' body rest (parse b a body) (h b a body) le')
      le

abbrev Answers {ℓ} : {A : Type ℓ} → Read A → Type ℓ
Answers m = m ≢ err out_of_fuel

error_of {ℓ} : {A : Type ℓ} → Read A → ReadError
error_of (err e) = e
error_of (ok a) = end_of_input

then-Answers {ℓ κ} :
    {A : Type ℓ} {B : Type κ} (r : List ℕ) (m : Read (A × List ℕ)) (f : A × List ℕ → Read B)
    → Moves r m
    → ((a : A) (rest : List ℕ) → length rest ≤ length r → Answers (f (a, rest)))
    → Answers (bind m f)
unfolding error_of
then-Answers r _ f (moved {a} {rest} h) k = k a rest h
then-Answers r _ f (refused h) k = λ x. h (ap error_of x)

-- One round for each byte is enough.
parse_all-Answers {ℓ} :
    {A : Type ℓ} (parse : ℕ → A → Reader A)
    → ((id : ℕ) (x : A) → IsSane (parse id x))
    → (fuel : ℕ) (a : A) (r : List ℕ) → length r ≤ fuel
    → Answers (parse_all parse fuel a r)
unfolding parse_all
parse_all-Answers parse h fuel a [] le = λ e. cc
parse_all-Answers parse h zero a (b ∷ r) le = absurd (omega (arith, le))
parse_all-Answers parse h (suc fuel) a (b ∷ r) le =
    then-Answers r (within parse a (b ∷ r)) _ (within-Moves parse a b r h)
      λ a' rest k. parse_all-Answers parse h fuel a' rest (omega (arith, le, k))

all_read : (r : List ℕ) (m : Read SoInfo) → Answers m → Moves r (bind m λ info. ok (info, []))
all_read r (ok info) h = moved (omega arith)
all_read r (err e) h = refused λ k. h (ap (λ (x : ReadError). err x) k)

maybe_parse_dylink0-IsSane : (info : SoInfo) → IsSane (maybe_parse_dylink0 info)
unfolding maybe_parse_dylink0 parse_custom
maybe_parse_dylink0-IsSane info = >>=-IsSane read_string _ read_string-IsSane λ name r.
    Moves-if (name_eq name (ascii "dylink.0")) _ _ _
      (all_read r (parse_all parse_subsection (length r) info r) (
        parse_all-Answers parse_subsection parse_subsection-IsSane (length r) info r (omega arith)))
      (moved (omega arith))

parse_section-IsSane : (id : ℕ) (info : SoInfo) → IsSane (parse_section id info)
unfolding parse_section
parse_section-IsSane id info = IsSane-if (id == 0) _ _ (maybe_parse_dylink0-IsSane info) (
    IsSane-if (id == 1) _ _ (parse_type_section-IsSane info) (
      IsSane-if (id == 2) _ _ (parse_import_section-IsSane info) (
        IsSane-if (id == 3) _ _ (parse_function_section-IsSane info) (
          IsSane-if (id == 6) _ _ (parse_global_section-IsSane info)
            (IsSane-if (id == 7) _ _ (parse_export_section-IsSane info) (pure-IsSane info))))))

if-Answers {ℓ} :
    {A : Type ℓ} (b : Bool) (x y : Read A) → Answers x → Answers y → Answers (if b then x else y)
if-Answers true x y h k = h
if-Answers false x y h k = k

refuses : Answers {A = SoInfo} (err not_wasm)
refuses e = cc

-- parseSO ends on every input: its loops over sections, subsections and initial values never run out
-- of rounds, one for each byte that is left.
pub parse_so_answers : (bytes : List ℕ) → parse_so bytes ≢ err out_of_fuel
unfolding parse_so
parse_so_answers (a ∷ b ∷ c ∷ d ∷ v0 ∷ v1 ∷ v2 ∷ v3 ∷ r) =
    if-Answers (a == 0 && (b == 97 && (c == 115 && d == 109))) _ _
      (parse_all-Answers parse_section parse_section-IsSane (length r) new_info r (omega arith))
      refuses
parse_so_answers _ = refuses
