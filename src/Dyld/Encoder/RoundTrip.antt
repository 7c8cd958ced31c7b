-- ===== src/Dyld/Encoder/RoundTrip.antt =====
-- What parseSO of internal/runtime/dyld/loader.go reads of the modules that wasm.go encodes: the entries.
use particles.Base.{
  ℕ, zero, suc, ◌+◌, ◌%◌, ◌<◌, ◌≡◌, refl, List, [], ◌∷◌, ◌++◌, length, All, map, append_assoc,
  append-nil, arith,
}
use particles.Dyld.{ok, read_uleb128, write_uleb128}
use particles.Dyld.RoundTrip.{read_uleb128-write_uleb128}
use particles.Dyld.Signed.{read_sleb128-write_sleb128}
use particles.Dyld.Names.{Name}
use particles.Dyld.Info.{
  SoInfo, FuncType, note_func, note_table, note_memory, note_global, note_export,
}
use particles.Dyld.Reader.{bind, read_byte, read_full, read_string, read_val_types, skip_limits}
use particles.Dyld.Parser.{
  parse_type, parse_types, parse_desc, parse_import, parse_imports, ended, init_value, parse_global,
  parse_globals, parse_exports,
}
use particles.Dyld.Encoder.{
  EnvImport, EnvExport, EnvGlobal, int64_of, write_each, encode_type, encode_desc, encode_import,
  encode_global, encode_export,
}

abbrev pub IsShort {ℓ} : {A : Type ℓ} → List A → Type 0
IsShort xs = length xs < 18446744073709551616

pub read_full-append : (xs rest : List ℕ) → read_full (length xs) (xs ++ rest) ≡ ok (xs, rest)
unfolding read_full
read_full-append [] rest = refl
read_full-append (x ∷ xs) rest = rw (read_full-append xs rest)

-- A counted list of bytes
counted :
    (xs rest : List ℕ)
    → IsShort xs
    → bind (read_uleb128 (write_uleb128 (length xs) ++ (xs ++ rest))) (λ (n, r). read_full n r)
      ≡ ok (xs, rest)
counted xs rest h =
    rw (read_uleb128-write_uleb128 (length xs) (xs ++ rest) h) (read_full-append xs rest)

read_string-counted :
    (s : Name) (rest : List ℕ)
    → IsShort s
    → read_string (write_uleb128 (length s) ++ (s ++ rest)) ≡ ok (s, rest)
unfolding read_string
read_string-counted = counted

read_val_types-counted :
    (xs rest : List ℕ)
    → IsShort xs
    → read_val_types (write_uleb128 (length xs) ++ (xs ++ rest)) ≡ ok (xs, rest)
unfolding read_val_types
read_val_types-counted = counted

-- The lists of a type have a length that fits its field.
abbrev pub IsType : FuncType → Type 0
IsType t = IsShort t.params × IsShort t.results

pub parse_type-encode_type :
    (i : ℕ) (t : FuncType) (rest : List ℕ)
    → IsType t
    → parse_type i (encode_type t ++ rest) ≡ ok (t, rest)
unfolding parse_type encode_type
parse_type-encode_type i t rest (p, r) = simp (
  append_assoc,
  read_val_types-counted t.params (write_uleb128 (length t.results) ++ (t.results ++ rest)) p,
  read_val_types-counted t.results rest r,
)

pub parse_types-encode :
    (ts : List FuncType) (i : ℕ) (info : SoInfo) (rest : List ℕ)
    → All IsType ts
    → parse_types (length ts) i info (write_each encode_type ts ++ rest)
      ≡ ok (record info { types = info.types ++ ts }, rest)
unfolding parse_types write_each
parse_types-encode [] i info rest h = rw append-nil
parse_types-encode (t ∷ ts) i info rest (p, h) = simp (
  append_assoc,
  parse_type-encode_type i t (write_each encode_type ts ++ rest) p,
  parse_types-encode ts (i + 1) (record info { types = info.types ++ (t ∷ []) }) rest h,
)

-- What the writer of an import can write: names that fit and a known kind other than a tag.
abbrev pub IsImport : EnvImport → Type 0
IsImport imp =
    IsShort imp.module_name
    × IsShort imp.name
    × (imp.kind < 4)
    × (imp.type_idx < 4294967296)
    × (imp.min_pages < 4294967296)
    × (imp.min_table < 4294967296)

-- What the loader notes of an import of a kind, and its count of functions.
unfoldable pub noted_kind : ℕ → EnvImport → SoInfo × ℕ → SoInfo × ℕ
noted_kind zero imp (info, count) =
    (note_func imp.module_name imp.name imp.type_idx info, (count + 1) % 4294967296)
noted_kind (suc zero) imp (info, count) = (note_table imp.module_name imp.name info, count)
noted_kind (suc (suc zero)) imp (info, count) = (note_memory imp.module_name imp.name info, count)
noted_kind _ imp (info, count) = (note_global imp.module_name imp.name info, count)

skip_limits-written :
    (v : ℕ) (rest : List ℕ)
    → v < 4294967296
    → skip_limits (0 ∷ (write_uleb128 v ++ rest)) ≡ ok (tt, rest)
unfolding skip_limits read_byte
skip_limits-written v rest h = rw (read_uleb128-write_uleb128 v rest (omega (arith, h))) refl

desc_of_kind :
    (k i : ℕ) (imp : EnvImport) (st : SoInfo × ℕ) (rest : List ℕ)
    → imp.kind ≡ k
    → IsImport imp
    → parse_desc i imp.module_name imp.name k st (encode_desc imp ++ rest)
      ≡ ok (noted_kind k imp st, rest)
unfolding parse_desc encode_desc noted_kind read_byte
desc_of_kind zero i imp (info, count) rest e (m, n, k, t, p, q) =
    rw e (rw (read_uleb128-write_uleb128 imp.type_idx rest (omega (arith, t))) refl)
desc_of_kind (suc zero) i imp (info, count) rest e (m, n, k, t, p, q) =
    rw e (rw (skip_limits-written imp.min_table rest q) refl)
desc_of_kind (suc (suc zero)) i imp (info, count) rest e (m, n, k, t, p, q) =
    rw e (rw (skip_limits-written imp.min_pages rest p) refl)
desc_of_kind (suc (suc (suc zero))) i imp (info, count) rest e (m, n, k, t, p, q) = rw e refl
desc_of_kind (suc (suc (suc (suc x)))) i imp (info, count) rest e (m, n, k, t, p, q) =
    absurd (omega (arith, e, k))

abbrev pub noted_import : EnvImport → SoInfo × ℕ → SoInfo × ℕ
noted_import imp st = noted_kind imp.kind imp st

parse_import-encode_import :
    (i : ℕ) (imp : EnvImport) (st : SoInfo × ℕ) (rest : List ℕ)
    → IsImport imp
    → parse_import i st (encode_import imp ++ rest) ≡ ok (noted_import imp st, rest)
unfolding parse_import encode_import read_byte
parse_import-encode_import i imp st rest h = simp (
  append_assoc,
  read_string-counted imp.module_name
      (write_uleb128 (length imp.name) ++ (imp.name ++ (imp.kind ∷ (encode_desc imp ++ rest)))) h.0,
  read_string-counted imp.name (imp.kind ∷ (encode_desc imp ++ rest)) h.1,
  desc_of_kind imp.kind i imp st rest refl h,
)

abbrev pub noted_imports : List EnvImport → SoInfo × ℕ → SoInfo
noted_imports [] (info, count) = record info { imported_funcs = count }
noted_imports (imp ∷ imports) st = noted_imports imports (noted_import imp st)

pub parse_imports-encode :
    (imports : List EnvImport) (i : ℕ) (st : SoInfo × ℕ) (rest : List ℕ)
    → All IsImport imports
    → parse_imports (length imports) i st (write_each encode_import imports ++ rest)
      ≡ ok (noted_imports imports st, rest)
unfolding parse_imports write_each
parse_imports-encode [] i (info, count) rest h = refl
parse_imports-encode (imp ∷ imports) i st rest (p, h) = simp (
  append_assoc,
  parse_import-encode_import i imp st (write_each encode_import imports ++ rest) p,
  parse_imports-encode imports (i + 1) (noted_import imp st) rest h,
)

-- A constant of type i32
abbrev pub IsGlobal : EnvGlobal → Type 0
IsGlobal g = (g.val_type ≡ 127) × (g.init_i32 < 4294967296)

parse_global-encode_global :
    (i : ℕ) (g : EnvGlobal) (rest : List ℕ)
    → IsGlobal g
    → parse_global i (encode_global g ++ rest) ≡ ok (g.init_i32, rest)
unfolding parse_global encode_global read_byte ended init_value
parse_global-encode_global i g rest (t, h) =
    let low : int64_of g.init_i32 % 4294967296 ≡ g.init_i32 = ground (arith, h) in
    simp (t, append_assoc, read_sleb128-write_sleb128 g.init_i32 (11 ∷ rest) h, low)

abbrev pub init_values : List EnvGlobal → List ℕ
init_values gs = map (λ (g : EnvGlobal). g.init_i32) gs

pub parse_globals-encode :
    (gs : List EnvGlobal) (i : ℕ) (rest : List ℕ)
    → All IsGlobal gs
    → parse_globals (length gs) i (write_each encode_global gs ++ rest) ≡ ok (init_values gs, rest)
unfolding parse_globals write_each
parse_globals-encode [] i rest h = refl
parse_globals-encode (g ∷ gs) i rest (p, h) = simp (
  append_assoc,
  parse_global-encode_global i g (write_each encode_global gs ++ rest) p,
  parse_globals-encode gs (i + 1) rest h,
)

abbrev pub IsExport : EnvExport → Type 0
IsExport e = IsShort e.name × (e.idx < 4294967296)

abbrev pub noted_exports : List EnvExport → SoInfo → SoInfo
noted_exports [] info = info
noted_exports (e ∷ exports) info = noted_exports exports (note_export e.name e.kind e.idx info)

pub parse_exports-encode :
    (exports : List EnvExport) (info : SoInfo) (rest : List ℕ)
    → All IsExport exports
    → parse_exports (length exports) info (write_each encode_export exports ++ rest)
      ≡ ok (noted_exports exports info, rest)
unfolding parse_exports write_each encode_export read_byte
parse_exports-encode [] info rest h = refl
parse_exports-encode (e ∷ exports) info rest ((s, x), h) = simp (
  append_assoc,
  read_string-counted e.name
      (e.kind ∷ (write_uleb128 e.idx ++ (write_each encode_export exports ++ rest))) s,
  read_uleb128-write_uleb128 e.idx (write_each encode_export exports ++ rest) (omega (arith, x)),
  parse_exports-encode exports (note_export e.name e.kind e.idx info) rest h,
)
