-- ===== src/Dyld/Info.antt =====
-- internal/runtime/dyld/loader.go: soInfo, what the loader takes from a library, and how the entries
-- of the import and export sections are noted in it. An int32 is its bit pattern.
use particles.Base.{
  ℕ, zero, suc, ◌+◌, ◌-◌, ◌%◌, Bool, true, false, ◌&&◌, Option, none, some, List, [], ◌∷◌, ◌++◌,
  leb, ◌==◌, if◌then◌else◌,
}
use particles.Base.Bytes.{has_prefix, name_eq}
use particles.Dyld.Names.{Name, ascii}

pub record FuncType : Type 0 where
  pub params : List ℕ
  pub results : List ℕ

-- funcImport and tagImport
pub record FuncImport : Type 0 where
  pub name : Name
  pub type_idx : ℕ

pub record WasiImport : Type 0 where
  pub module_name : Name
  pub method_name : Name
  pub type_idx : ℕ

-- A Go map from names
abbrev pub NameMap : Type 0
NameMap = List (Name × ℕ)

unfoldable pub assign : Name → ℕ → NameMap → NameMap
unfolding name_eq
assign k v [] = (k, v) ∷ []
assign k v ((j, w) ∷ m) = if name_eq j k then (k, v) ∷ m else (j, w) ∷ assign k v m

unfoldable pub lookup : Name → NameMap → Option ℕ
unfolding name_eq
lookup k [] = none
lookup k ((j, v) ∷ m) = if name_eq j k then some v else lookup k m

pub record SoInfo : Type 0 where
  pub memory_size : ℕ
  pub memory_align_log2 : ℕ
  pub table_size : ℕ
  pub table_align_log2 : ℕ
  pub needed : List Name
  pub func_imports : List FuncImport
  pub imports_memory : Bool
  pub imports_table : Bool
  pub imports_stack_ptr : Bool
  pub imports_memory_base : Bool
  pub imports_table_base : Bool
  pub got_func_imports : List Name
  pub got_mem_imports : List Name
  pub tag_imports : List FuncImport
  pub wasi_imports : List WasiImport
  pub own_func_count : ℕ
  pub own_func_type_idx : List ℕ
  pub imported_funcs : ℕ
  pub exports : NameMap
  pub data_export_names : List Name
  pub data_export_offsets : NameMap
  pub imported_globals : ℕ
  pub own_global_init_consts : List ℕ
  pub types : List FuncType

abbrev pub new_info : SoInfo
new_info = record {
  memory_size = 0;
  memory_align_log2 = 0;
  table_size = 0;
  table_align_log2 = 0;
  needed = [];
  func_imports = [];
  imports_memory = false;
  imports_table = false;
  imports_stack_ptr = false;
  imports_memory_base = false;
  imports_table_base = false;
  got_func_imports = [];
  got_mem_imports = [];
  tag_imports = [];
  wasi_imports = [];
  own_func_count = 0;
  own_func_type_idx = [];
  imported_funcs = 0;
  exports = [];
  data_export_names = [];
  data_export_offsets = [];
  imported_globals = 0;
  own_global_init_consts = [];
  types = [];
}

-- A function import of the import section
unfoldable pub note_func : Name → Name → ℕ → SoInfo → SoInfo
unfolding name_eq has_prefix
note_func mod_name name idx info =
    if name_eq mod_name (ascii "env")
    then record info {
      func_imports =
          info.func_imports ++ (record { name = name; type_idx = idx % 4294967296 } ∷ []);
    }
    else if has_prefix mod_name (ascii "wasi:")
    then record info {
      wasi_imports =
          info.wasi_imports
          ++ (record { module_name = mod_name; method_name = name; type_idx = idx % 4294967296 }
              ∷ []);
    }
    else info

unfoldable pub note_table : Name → Name → SoInfo → SoInfo
unfolding name_eq
note_table mod_name name info =
    if name_eq mod_name (ascii "env") && name_eq name (ascii "__indirect_function_table")
    then record info { imports_table = true }
    else info

unfoldable pub note_memory : Name → Name → SoInfo → SoInfo
unfolding name_eq
note_memory mod_name name info =
    if name_eq mod_name (ascii "env") && name_eq name (ascii "memory")
    then record info { imports_memory = true }
    else info

unfoldable pub note_tag : Name → ℕ → SoInfo → SoInfo
note_tag name idx info = record info {
  tag_imports = info.tag_imports ++ (record { name = name; type_idx = idx % 4294967296 } ∷ []);
}

unfoldable pub note_env_global : Name → SoInfo → SoInfo
unfolding name_eq
note_env_global name info =
    if name_eq name (ascii "__stack_pointer")
    then record info { imports_stack_ptr = true }
    else if name_eq name (ascii "__memory_base")
    then record info { imports_memory_base = true }
    else if name_eq name (ascii "__table_base")
    then record info { imports_table_base = true }
    else info

unfoldable pub note_global : Name → Name → SoInfo → SoInfo
unfolding name_eq note_env_global
note_global mod_name name old =
    let info : SoInfo = record old { imported_globals = (old.imported_globals + 1) % 4294967296 } in
    if name_eq mod_name (ascii "env")
    then note_env_global name info
    else if name_eq mod_name (ascii "GOT.func")
    then record info { got_func_imports = info.got_func_imports ++ (name ∷ []) }
    else if name_eq mod_name (ascii "GOT.mem")
    then record info { got_mem_imports = info.got_mem_imports ++ (name ∷ []) }
    else info

unfoldable pub nth {ℓ} : {A : Type ℓ} → List A → ℕ → Option A
nth [] i = none
nth (x ∷ xs) zero = some x
nth (x ∷ xs) (suc i) = nth xs i

unfoldable pub with_offset : Name → Option ℕ → SoInfo → SoInfo
unfolding assign
with_offset name none info = info
with_offset name (some offset) info = record info {
  data_export_offsets = assign name offset info.data_export_offsets;
}

-- An entry of the export section: its index counts the imported ones first.
unfoldable pub note_export : Name → ℕ → ℕ → SoInfo → SoInfo
unfolding with_offset assign nth
note_export name kind index info =
    let idx = index % 4294967296 in
    let named : SoInfo = record info {
      data_export_names = info.data_export_names ++ (name ∷ []);
    } in
    if kind == 3
    then (if leb info.imported_globals idx
        then with_offset name (nth info.own_global_init_consts (idx - info.imported_globals)) named
        else named)
    else if kind == 0 && leb info.imported_funcs idx
    then record info { exports = assign name (idx - info.imported_funcs) info.exports }
    else info
