-- ===== src/Dyld/Parser.antt =====
-- internal/runtime/dyld/loader.go: parseSO and the parsers of its sections. Each loop that ends with
-- the input runs on as many rounds as there are bytes.
mod Moves
mod Sections
pub mod Answers
use particles.Base.{
  ℕ, zero, suc, ◌+◌, ◌%◌, Bool, true, false, ◌&&◌, ◌||◌, List, [], ◌∷◌, ◌++◌, length, leb, ◌==◌,
  if◌then◌else◌,
}
use particles.Base.Bytes.{name_eq}
use particles.Dyld.{
  Read, ReadError, ok, err, end_of_input, not_wasm, out_of_fuel, bad_type_tag, bad_attribute,
  unsupported_kind, no_end, read_uleb128, read_sleb128,
}
use particles.Dyld.Names.{Name, ascii}
use particles.Dyld.Reader.{
  Reader, pure, ◌>>=◌, ◌>>◌, bind, run, read_byte, read_full, read_string, read_val_types, uleb32,
  skip_limits,
}
use particles.Dyld.Info.{
  SoInfo, FuncType, new_info, note_func, note_table, note_memory, note_tag, note_global,
  note_export,
}

abbrev fail {ℓ} : {A : Type ℓ} → ReadError → Reader A
fail e r = err e

unfoldable pub type_after_tag : ℕ → ℕ → Reader FuncType
type_after_tag i tag =
    if tag == 0x60
    then (do
      params ← read_val_types
      results ← read_val_types
      pure (record { params = params; results = results }))
    else fail (bad_type_tag i tag)

-- One type of the type section
unfoldable pub parse_type : ℕ → Reader FuncType
unfolding read_byte type_after_tag
parse_type i r = run r do tag ← read_byte; type_after_tag i tag

-- The loop of parseTypeSection: `n` types are left, from the `i`-th on.
unfoldable pub parse_types : ℕ → ℕ → SoInfo → Reader SoInfo
unfolding parse_type
parse_types zero i info r = ok (info, r)
parse_types (suc n) i info r =
    run r
      do t ← parse_type i; parse_types n (i + 1) (record info { types = info.types ++ (t ∷ []) })

unfoldable pub parse_type_section : SoInfo → Reader SoInfo
unfolding parse_types
parse_type_section info r = run r do n ← read_uleb128; parse_types n 0 info

unfoldable pub tag_after_attribute : ℕ → ℕ → Name → SoInfo → Reader SoInfo
tag_after_attribute i attribute name info =
    if attribute == 0
    then (do idx ← read_uleb128; pure (note_tag name idx info))
    else fail (bad_attribute i attribute)

-- The rest of an import, by its kind, with the count of function imports.
unfoldable pub parse_desc : ℕ → Name → Name → ℕ → SoInfo × ℕ → Reader (SoInfo × ℕ)
unfolding read_byte skip_limits tag_after_attribute
parse_desc i mod_name name kind (info, count) =
    if kind == 0
    then (do idx ← read_uleb128; pure (note_func mod_name name idx info, (count + 1) % 4294967296))
    else if kind == 1
    then (do read_byte; skip_limits; pure (note_table mod_name name info, count))
    else if kind == 2
    then (do skip_limits; pure (note_memory mod_name name info, count))
    else if kind == 4
    then (do
      attribute ← read_byte
      info' ← tag_after_attribute i attribute name info
      pure (info', count))
    else if kind == 3
    then (do read_byte; read_byte; pure (note_global mod_name name info, count))
    else fail (unsupported_kind i kind)

-- One round of the loop of parseImportSection
unfoldable pub parse_import : ℕ → SoInfo × ℕ → Reader (SoInfo × ℕ)
unfolding parse_desc
parse_import i st r = run r do
  mod_name ← read_string
  name ← read_string
  kind ← read_byte
  parse_desc i mod_name name kind st

unfoldable pub parse_imports : ℕ → ℕ → SoInfo × ℕ → Reader SoInfo
unfolding parse_import
parse_imports zero i (info, count) r = ok (record info { imported_funcs = count }, r)
parse_imports (suc n) i st r = run r do next ← parse_import i st; parse_imports n (i + 1) next

unfoldable pub parse_import_section : SoInfo → Reader SoInfo
unfolding parse_imports
parse_import_section info r = run r do n ← read_uleb128; parse_imports n 0 (info, 0)

-- The type indices of the library's own functions
unfoldable pub parse_type_indices : ℕ → Reader (List ℕ)
parse_type_indices zero r = ok ([], r)
parse_type_indices (suc n) r = run r do idx ← uleb32; rest ← parse_type_indices n; pure (idx ∷ rest)

unfoldable pub parse_function_section : SoInfo → Reader SoInfo
unfolding parse_type_indices
parse_function_section info r = run r do
  n ← read_uleb128
  indices ← parse_type_indices n
  pure (record info { own_func_count = n % 4294967296; own_func_type_idx = indices })

-- r.Seek(n, 1) may pass the end.
unfoldable pub seek : ℕ → List ℕ → List ℕ
seek zero r = r
seek (suc n) [] = []
seek (suc n) (b ∷ r) = seek n r

-- What skipUntilEnd passes over after the instruction `b`
unfoldable pub skip_operand : ℕ → Reader (Unit {0})
unfolding read_byte seek
skip_operand b =
    if b == 0x41 || b == 0x42
    then read_sleb128 >> pure tt
    else if b == 0x43
    then (λ r. ok (tt, seek 4 r))
    else if b == 0x44
    then (λ r. ok (tt, seek 8 r))
    else if b == 0x23 || b == 0xD2
    then read_uleb128 >> pure tt
    else if b == 0xD0
    then read_byte >> pure tt
    else pure tt

-- skipUntilEnd; each round reads a byte.
unfoldable pub skip_until_end : ℕ → ℕ → Reader (Unit {0})
unfolding skip_operand
skip_until_end zero b r = err out_of_fuel
skip_until_end (suc fuel) b r =
    let more = run r do skip_operand b; next ← read_byte; skip_until_end fuel next
    in if b == 0x0B then ok (tt, r) else more

unfoldable pub ended : ℕ → ℕ → ℕ → Reader ℕ
ended i value end = if end == 0x0B then pure (value % 4294967296) else fail (no_end i end)

unfoldable pub skip_init : ℕ → Reader ℕ
unfolding skip_until_end
skip_init first r = run r do skip_until_end (suc (length r)) first; pure 0

-- The initial value: that of a constant, and else 0
unfoldable pub init_value : ℕ → ℕ → ℕ → Reader ℕ
unfolding read_byte ended skip_init
init_value i val_type first =
    if val_type == 0x7F && first == 0x41
    then (do value ← read_sleb128; end ← read_byte; ended i value end)
    else skip_init first

unfoldable pub parse_global : ℕ → Reader ℕ
unfolding read_byte init_value
parse_global i r =
    run r do val_type ← read_byte; read_byte; first ← read_byte; init_value i val_type first

unfoldable pub parse_globals : ℕ → ℕ → Reader (List ℕ)
unfolding parse_global
parse_globals zero i r = ok ([], r)
parse_globals (suc n) i r =
    run r do value ← parse_global i; rest ← parse_globals n (i + 1); pure (value ∷ rest)

unfoldable pub parse_global_section : SoInfo → Reader SoInfo
unfolding parse_globals
parse_global_section info r = run r do
  n ← read_uleb128
  values ← parse_globals n 0
  pure (record info { own_global_init_consts = values })

unfoldable pub parse_exports : ℕ → SoInfo → Reader SoInfo
parse_exports zero info r = ok (info, r)
parse_exports (suc n) info r = run r do
  name ← read_string
  kind ← read_byte
  idx ← read_uleb128
  parse_exports n (note_export name kind idx info)

unfoldable pub parse_export_section : SoInfo → Reader SoInfo
unfolding parse_exports
parse_export_section info r = run r do n ← read_uleb128; parse_exports n info

unfoldable pub read_names : ℕ → Reader (List Name)
read_names zero r = ok ([], r)
read_names (suc n) r = run r do s ← read_string; rest ← read_names n; pure (s ∷ rest)

-- A subsection of "dylink.0": the requirements on memory and table, or the libraries that are needed
unfoldable pub parse_subsection : ℕ → SoInfo → Reader SoInfo
unfolding read_names
parse_subsection sub_type info =
    if sub_type == 1
    then (do
      memory_size ← uleb32
      memory_align ← uleb32
      table_size ← uleb32
      table_align ← uleb32
      pure (record info {
        memory_size = memory_size;
        memory_align_log2 = memory_align;
        table_size = table_size;
        table_align_log2 = table_align;
      }))
    else if sub_type == 2
    then (do n ← uleb32; names ← read_names n; pure (record info { needed = info.needed ++ names }))
    else pure info

-- The body of a section is read whole, and what its parser leaves of it is dropped.
unfoldable pub within {ℓ} : {A : Type ℓ} → (ℕ → A → Reader A) → A → Reader A
unfolding read_byte read_full
within parse a r = run r do
  id ← read_byte
  size ← read_uleb128
  body ← read_full size
  λ rest. bind (parse id a body) λ (a', _). ok (a', rest)

-- The loop over sections or subsections
unfoldable pub parse_all {ℓ} : {A : Type ℓ} → (ℕ → A → Reader A) → ℕ → A → List ℕ → Read A
unfolding within
parse_all parse fuel a [] = ok a
parse_all parse zero a (b ∷ r) = err out_of_fuel
parse_all parse (suc fuel) a (b ∷ r) =
    bind (within parse a (b ∷ r)) λ (a', rest). parse_all parse fuel a' rest

-- maybeParseDylink0 behind the name
unfoldable pub parse_custom : Name → SoInfo → Reader SoInfo
unfolding parse_all parse_subsection
parse_custom name info r =
    if name_eq name (ascii "dylink.0")
    then bind (parse_all parse_subsection (length r) info r) (λ info'. ok (info', []))
    else ok (info, r)

unfoldable pub maybe_parse_dylink0 : SoInfo → Reader SoInfo
unfolding parse_custom
maybe_parse_dylink0 info r = run r do name ← read_string; parse_custom name info

-- The switch of parseSO
unfoldable pub parse_section : ℕ → SoInfo → Reader SoInfo
unfolding maybe_parse_dylink0
parse_section id info =
    if id == 0
    then maybe_parse_dylink0 info
    else if id == 1
    then parse_type_section info
    else if id == 2
    then parse_import_section info
    else if id == 3
    then parse_function_section info
    else if id == 6
    then parse_global_section info
    else if id == 7
    then parse_export_section info
    else pure info

-- parseSO: the magic number, four bytes of version that are not looked at, and the sections
unfoldable pub parse_so : List ℕ → Read SoInfo
unfolding parse_all parse_section
parse_so (a ∷ b ∷ c ∷ d ∷ v0 ∷ v1 ∷ v2 ∷ v3 ∷ r) =
    if a == 0 && (b == 97 && (c == 115 && d == 109))
    then parse_all parse_section (length r) new_info r
    else err not_wasm
parse_so _ = err not_wasm
