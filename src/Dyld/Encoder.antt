-- ===== src/Dyld/Encoder.antt =====
-- internal/runtime/dyld/wasm.go: the sections of a module that only plumbs, and its encoder. An
-- int32 is its bit pattern.
pub mod RoundTrip
pub mod Modules
pub mod Learned
use particles.Base.{
  ℕ, zero, suc, ◌+◌, ◌-◌, ◌%◌, Bool, true, false, ◌&&◌, Option, none, some, List, [], ◌∷◌, ◌++◌,
  length, ltb, ◌==◌, if◌then◌else◌,
}
use particles.Base.Bytes.{name_eq}
use particles.Dyld.{write_uleb128, write_sleb128}
use particles.Dyld.Names.{Name}
use particles.Dyld.Info.{FuncType}

pub record EnvImport : Type 0 where
  pub module_name : Name
  pub name : Name
  pub kind : ℕ
  pub type_idx : ℕ
  pub min_pages : ℕ
  pub min_table : ℕ
  pub ref_type : ℕ
  pub g_val_type : ℕ
  pub g_mut : Bool

pub record EnvExport : Type 0 where
  pub name : Name
  pub kind : ℕ
  pub idx : ℕ

pub record EnvGlobal : Type 0 where
  pub val_type : ℕ
  pub is_mutable : Bool
  pub init_i32 : ℕ

pub record EnvElem : Type 0 where
  pub table_idx : ℕ
  pub offset : ℕ
  pub func_indices : List ℕ

-- envModuleSpec; a tag is the index of its type.
pub record Spec : Type 0 where
  pub types : List FuncType
  pub imports : List EnvImport
  pub tags : List ℕ
  pub globals : List EnvGlobal
  pub exports : List EnvExport
  pub elems : List EnvElem

-- int64 of an int32
abbrev pub int64_of : ℕ → ℕ
int64_of v = if ltb v 2147483648 then v else v + (18446744073709551616 - 4294967296)

unfoldable pub write_name : Name → List ℕ
write_name s = write_uleb128 (length s) ++ s

unfoldable pub write_section : ℕ → List ℕ → List ℕ
write_section id body = id ∷ (write_uleb128 (length body) ++ body)

unfoldable pub write_each {ℓ} : {A : Type ℓ} → (A → List ℕ) → List A → List ℕ
write_each f [] = []
write_each f (x ∷ xs) = f x ++ write_each f xs

-- A section with a count and its entries, left out where there are none
unfoldable pub write_entries {ℓ} : {A : Type ℓ} → ℕ → (A → List ℕ) → List A → List ℕ
unfolding write_section write_each
write_entries id f [] = []
write_entries id f (x ∷ xs) =
    write_section id (write_uleb128 (length (x ∷ xs)) ++ write_each f (x ∷ xs))

unfoldable pub encode_type : FuncType → List ℕ
encode_type t =
    0x60
    ∷ (write_uleb128 (length t.params)
        ++ (t.params ++ (write_uleb128 (length t.results) ++ t.results)))

abbrev pub flag : Bool → ℕ
flag b = if b then 1 else 0

unfoldable pub encode_desc : EnvImport → List ℕ
encode_desc imp =
    if imp.kind == 0
    then write_uleb128 imp.type_idx
    else if imp.kind == 2
    then 0 ∷ write_uleb128 imp.min_pages
    else if imp.kind == 1
    then imp.ref_type ∷ (0 ∷ write_uleb128 imp.min_table)
    else if imp.kind == 3
    then imp.g_val_type ∷ (flag imp.g_mut ∷ [])
    else []

unfoldable pub encode_import : EnvImport → List ℕ
unfolding write_name encode_desc
encode_import imp =
    write_name imp.module_name ++ (write_name imp.name ++ (imp.kind ∷ encode_desc imp))

unfoldable pub encode_tag : ℕ → List ℕ
encode_tag type_idx = 0 ∷ write_uleb128 type_idx

unfoldable pub encode_global : EnvGlobal → List ℕ
encode_global g =
    g.val_type ∷ (flag g.is_mutable ∷ (0x41 ∷ (write_sleb128 (int64_of g.init_i32) ++ (0x0B ∷ []))))

unfoldable pub encode_export : EnvExport → List ℕ
unfolding write_name
encode_export e = write_name e.name ++ (e.kind ∷ write_uleb128 e.idx)

unfoldable pub encode_elem : EnvElem → List ℕ
unfolding write_each
encode_elem el =
    0x02
    ∷ (write_uleb128 el.table_idx
        ++ (0x41
            ∷ (write_sleb128 (int64_of el.offset)
                ++ (0x0B
                    ∷ (0x00
                        ∷ (write_uleb128 (length el.func_indices)
                            ++ write_each write_uleb128 el.func_indices))))))

abbrev pub wasm_header : List ℕ
wasm_header = 0 ∷ 97 ∷ 115 ∷ 109 ∷ 1 ∷ 0 ∷ 0 ∷ 0 ∷ []

-- envModuleSpec.encode: the magic number, version 1 and the sections
unfoldable pub encode : Spec → List ℕ
unfolding write_entries encode_type encode_import encode_tag encode_global encode_export encode_elem
encode s =
    wasm_header
    ++ (write_entries 1 encode_type s.types
        ++ (write_entries 2 encode_import s.imports
            ++ (write_entries 13 encode_tag s.tags
                ++ (write_entries 6 encode_global s.globals
                    ++ (write_entries 7 encode_export s.exports
                        ++ write_entries 9 encode_elem s.elems)))))

unfoldable pub bytes_type_eq : FuncType → FuncType → Bool
unfolding name_eq
bytes_type_eq a b = name_eq a.params b.params && name_eq a.results b.results

-- The loop of internType from the index `i` on
unfoldable pub find_type : FuncType → List FuncType → ℕ → Option ℕ
unfolding bytes_type_eq
find_type ft [] i = none
find_type ft (t ∷ types) i =
    let later = find_type ft types (i + 1) in
    if bytes_type_eq t ft then some (i % 4294967296) else later

unfoldable pub interned : FuncType → List FuncType → Option ℕ → List FuncType × ℕ
interned ft types (some i) = (types, i)
interned ft types none = (types ++ (ft ∷ []), length types % 4294967296)

-- internType: the types with this one among them, and its index
unfoldable pub intern_type : FuncType → List FuncType → List FuncType × ℕ
unfolding find_type interned
intern_type ft types = interned ft types (find_type ft types 0)
