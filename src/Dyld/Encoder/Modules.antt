-- ===== src/Dyld/Encoder/Modules.antt =====
-- What parseSO of internal/runtime/dyld/loader.go reads of the modules that wasm.go encodes: whole modules.
use particles.Base.{
  ℕ, zero, suc, ◌≤◌, ◌≡◌, refl, sym, ap, ◌∙◌, List, [], ◌∷◌, ◌++◌, length, All, length-append,
  append_assoc, append-nil, arith,
}
use particles.Dyld.{Read, ok, write_uleb128}
use particles.Dyld.RoundTrip.{read_uleb128-write_uleb128}
use particles.Dyld.Info.{SoInfo, FuncType, new_info}
use particles.Dyld.Parser.{
  within, parse_all, parse_section, parse_so, parse_types, parse_type_section, parse_imports,
  parse_import_section, parse_globals, parse_global_section, parse_exports, parse_export_section,
}
use particles.Dyld.Encoder.{
  Spec, EnvImport, EnvGlobal, EnvExport, write_section, write_each, write_entries, encode_type,
  encode_import, encode_tag, encode_global, encode_export, encode_elem, encode, wasm_header,
}
use particles.Dyld.Encoder.RoundTrip.{
  IsShort, IsType, IsImport, IsGlobal, IsExport, read_full-append, parse_types-encode,
  parse_imports-encode, parse_globals-encode, parse_exports-encode, noted_imports, noted_exports,
  init_values,
}

within-write_section :
    (id : ℕ) (a a' : SoInfo) (body left rest : List ℕ)
    → IsShort body
    → parse_section id a body ≡ ok (a', left)
    → within parse_section a (write_section id body ++ rest) ≡ ok (a', rest)
unfolding within write_section
within-write_section id a a' body left rest short h = simp (
  append_assoc,
  read_uleb128-write_uleb128 (length body) (body ++ rest) short,
  read_full-append body rest,
  h,
)

-- The rounds that are left go on with `rest` and `info`.
abbrev GoesOn : Read SoInfo → SoInfo → List ℕ → Type 0
GoesOn start info rest =
    (fuel : ℕ) × (length rest ≤ fuel) × (start ≡ parse_all parse_section fuel info rest)

section_read :
    (id : ℕ) (a a' : SoInfo) (body left rest : List ℕ) (fuel : ℕ)
    → length (write_section id body ++ rest) ≤ fuel
    → IsShort (write_section id body ++ rest)
    → parse_section id a body ≡ ok (a', left)
    → GoesOn (parse_all parse_section fuel a (write_section id body ++ rest)) a' rest
unfolding parse_all write_section
section_read id a a' body left rest zero enough short h = absurd (omega (arith, enough))
section_read id a a' body left rest (suc fuel) enough short h =
    let sizes = length-append (write_uleb128 (length body) ++ body) rest in
    let inner = length-append (write_uleb128 (length body)) body in
    (
      fuel,
      omega (arith, enough, sizes),
      rw (within-write_section id a a' body left rest (omega (arith, short, sizes, inner)) h) refl,
    )

-- A section without entries is not written.
unfoldable pub after_section {ℓ} : {A : Type ℓ} → List A → SoInfo → SoInfo → SoInfo
after_section [] old new = old
after_section (x ∷ xs) old new = new

entries_read {ℓ} :
    {A : Type ℓ} (id : ℕ) (f : A → List ℕ) (xs : List A) (a a' : SoInfo) (left rest : List ℕ)
    (fuel : ℕ)
    → length (write_entries id f xs ++ rest) ≤ fuel
    → IsShort (write_entries id f xs ++ rest)
    → parse_section id a (write_uleb128 (length xs) ++ write_each f xs) ≡ ok (a', left)
    → GoesOn
        (parse_all parse_section fuel a (write_entries id f xs ++ rest))
        (after_section xs a a')
        rest
unfolding write_entries after_section
entries_read id f [] a a' left rest fuel enough short h = (fuel, enough, refl)
entries_read id f (x ∷ xs) a a' left rest fuel enough short h =
    section_read id a a' (write_uleb128 (length (x ∷ xs)) ++ write_each f (x ∷ xs)) left rest fuel
      enough short h

-- What an encoded module holds has to fit: counts and lengths below 2 ^ 64, indices below 2 ^ 32.
pub record IsWritable (s : Spec) : Type 0 where
  pub whole : IsShort (encode s)
  pub type_count : IsShort s.types
  pub import_count : IsShort s.imports
  pub global_count : IsShort s.globals
  pub export_count : IsShort s.exports
  pub all_types : All IsType s.types
  pub all_imports : All IsImport s.imports
  pub all_globals : All IsGlobal s.globals
  pub all_exports : All IsExport s.exports

types_section :
    (ts : List FuncType) (info : SoInfo)
    → IsShort ts
    → All IsType ts
    → parse_section 1 info (write_uleb128 (length ts) ++ write_each encode_type ts)
      ≡ ok (record info { types = info.types ++ ts }, [])
unfolding parse_section parse_type_section
types_section ts info short h = simp (
  read_uleb128-write_uleb128 (length ts) (write_each encode_type ts) short,
  ap (λ (l : List ℕ). parse_types (length ts) 0 info l)
      (sym (append-nil (write_each encode_type ts))),
  parse_types-encode ts 0 info [] h,
)

imports_section :
    (imports : List EnvImport) (info : SoInfo)
    → IsShort imports
    → All IsImport imports
    → parse_section 2 info (write_uleb128 (length imports) ++ write_each encode_import imports)
      ≡ ok (noted_imports imports (info, 0), [])
unfolding parse_section parse_import_section
imports_section imports info short h =
    rw (read_uleb128-write_uleb128 (length imports) (write_each encode_import imports) short) (
      ap (λ (l : List ℕ). parse_imports (length imports) 0 (info, 0) l)
        (sym (append-nil (write_each encode_import imports)))
      ∙ parse_imports-encode imports 0 (info, 0) [] h)

globals_section :
    (gs : List EnvGlobal) (info : SoInfo)
    → IsShort gs
    → All IsGlobal gs
    → parse_section 6 info (write_uleb128 (length gs) ++ write_each encode_global gs)
      ≡ ok (record info { own_global_init_consts = init_values gs }, [])
unfolding parse_section parse_global_section
globals_section gs info short h =
    let read : parse_globals (length gs) 0 (write_each encode_global gs) ≡ ok (init_values gs, []) =
      ap (λ (l : List ℕ). parse_globals (length gs) 0 l)
        (sym (append-nil (write_each encode_global gs)))
      ∙ parse_globals-encode gs 0 [] h in
    rw (read_uleb128-write_uleb128 (length gs) (write_each encode_global gs) short) (rw read refl)

exports_section :
    (exports : List EnvExport) (info : SoInfo)
    → IsShort exports
    → All IsExport exports
    → parse_section 7 info (write_uleb128 (length exports) ++ write_each encode_export exports)
      ≡ ok (noted_exports exports info, [])
unfolding parse_section parse_export_section
exports_section exports info short h =
    rw (read_uleb128-write_uleb128 (length exports) (write_each encode_export exports) short) (
      ap (λ (l : List ℕ). parse_exports (length exports) info l)
        (sym (append-nil (write_each encode_export exports)))
      ∙ parse_exports-encode exports info [] h)

module _ (s : Spec) where
  abbrev pub with_types : SoInfo
  with_types = after_section s.types new_info (record new_info { types = s.types })

  abbrev pub with_imports : SoInfo
  with_imports = after_section s.imports with_types (noted_imports s.imports (with_types, 0))

  abbrev pub with_globals : SoInfo
  with_globals =
      after_section s.globals with_imports
        (record with_imports { own_global_init_consts = init_values s.globals })

  -- What the loader knows of an encoded module: its types, what it notes of the imports, the constants
  -- and what it notes of the exports; the tags and elements are not looked at.
  unfoldable pub described : SoInfo
  unfolding after_section
  described = after_section s.exports with_globals (noted_exports s.exports with_globals)

  abbrev rest7 : List ℕ
  rest7 = write_entries 7 encode_export s.exports ++ write_entries 9 encode_elem s.elems

  abbrev rest6 : List ℕ
  rest6 = write_entries 6 encode_global s.globals ++ rest7

  abbrev rest13 : List ℕ
  rest13 = write_entries 13 encode_tag s.tags ++ rest6

  abbrev rest2 : List ℕ
  rest2 = write_entries 2 encode_import s.imports ++ rest13

  abbrev sections : List ℕ
  sections = write_entries 1 encode_type s.types ++ rest2

unchanged {ℓ} : {A : Type ℓ} (xs : List A) (info : SoInfo) → after_section xs info info ≡ info
unfolding after_section
unchanged [] info = refl
unchanged (x ∷ xs) info = refl

tail-IsShort : (xs ys : List ℕ) → IsShort (xs ++ ys) → IsShort ys
tail-IsShort xs ys h = omega (arith, h, length-append xs ys)

-- The elements at the end leave nothing.
finished :
    (s : Spec) (info : SoInfo) (fuel : ℕ)
    → length (write_entries 9 encode_elem s.elems) ≤ fuel
    → IsShort (write_entries 9 encode_elem s.elems)
    → parse_all parse_section fuel info (write_entries 9 encode_elem s.elems) ≡ ok info
unfolding parse_section parse_all
finished s info fuel enough short =
    let nil = append-nil (write_entries 9 encode_elem s.elems) in
    let (fuel', some, e) =
      entries_read 9 encode_elem s.elems info info
        (write_uleb128 (length s.elems) ++ write_each encode_elem s.elems) [] fuel (rw nil enough)
        (rw nil short) refl in
    ap (λ (l : List ℕ). parse_all parse_section fuel info l) (sym nil)
    ∙ (e ∙ ap (λ (x : SoInfo). ok x) (unchanged s.elems info))

from_exports :
    (s : Spec) (fuel : ℕ)
    → IsWritable s
    → length (rest7 s) ≤ fuel
    → IsShort (rest7 s)
    → parse_all parse_section fuel (with_globals s) (rest7 s) ≡ ok (described s)
unfolding described
from_exports s fuel w enough short =
    let elems = write_entries 9 encode_elem s.elems in
    let (f, le, e) =
      entries_read 7 encode_export s.exports (with_globals s)
        (noted_exports s.exports (with_globals s)) [] elems fuel enough short
        (exports_section s.exports (with_globals s) w.export_count w.all_exports) in
    e
    ∙ finished s (described s) f le
        (tail-IsShort (write_entries 7 encode_export s.exports) elems short)

from_tags :
    (s : Spec) (fuel : ℕ)
    → IsWritable s
    → length (rest13 s) ≤ fuel
    → IsShort (rest13 s)
    → parse_all parse_section fuel (with_imports s) (rest13 s) ≡ ok (described s)
unfolding parse_section
from_tags s fuel w enough short =
    let info = with_imports s in
    let short6 = tail-IsShort (write_entries 13 encode_tag s.tags) (rest6 s) short in
    let short7 = tail-IsShort (write_entries 6 encode_global s.globals) (rest7 s) short6 in
    let (f, le, e) =
      entries_read 13 encode_tag s.tags info info
        (write_uleb128 (length s.tags) ++ write_each encode_tag s.tags) (rest6 s) fuel enough short
        refl in
    let (f', le', e') =
      entries_read 6 encode_global s.globals info
        (record info { own_global_init_consts = init_values s.globals }) [] (rest7 s) f le short6
        (globals_section s.globals info w.global_count w.all_globals) in
    e
    ∙ (ap (λ (i : SoInfo). parse_all parse_section f i (rest6 s)) (unchanged s.tags info)
        ∙ (e' ∙ from_exports s f' w le' short7))

-- A module that fits is read back: parseSO accepts what encode writes and learns its types, imports,
-- constants and exports from it.
pub parse_so-encode : (s : Spec) → IsWritable s → parse_so (encode s) ≡ ok (described s)
unfolding parse_so encode
parse_so-encode s w =
    let short = tail-IsShort wasm_header (sections s) w.whole in
    let short2 = tail-IsShort (write_entries 1 encode_type s.types) (rest2 s) short in
    let short13 = tail-IsShort (write_entries 2 encode_import s.imports) (rest13 s) short2 in
    let (f, le, e) =
      entries_read 1 encode_type s.types new_info (record new_info { types = s.types }) [] (rest2 s)
        (length (sections s)) (omega arith) short
        (types_section s.types new_info w.type_count w.all_types) in
    let (f', le', e') =
      entries_read 2 encode_import s.imports (with_types s)
        (noted_imports s.imports (with_types s, 0)) [] (rest13 s) f le short2
        (imports_section s.imports (with_types s) w.import_count w.all_imports) in
    e ∙ (e' ∙ from_tags s f' w le' short13)
