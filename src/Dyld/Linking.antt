-- ===== src/Dyld/Linking.antt =====
-- internal/runtime/dyld/loader.go: the modules that the loader makes around a library. buildEnvModule,
-- buildGotMemShim, buildPostLoadShim and buildWasiShim give a module to encode.
pub mod Interning
mod EnvLists
pub mod Env
use particles.Base.{
  ℕ, zero, suc, ◌+◌, ◌%◌, Bool, true, false, Option, none, some, List, [], ◌∷◌, ◌++◌, length, not,
  ◌==◌, if◌then◌else◌,
}
use particles.Dyld.Names.{Name, ascii}
use particles.Dyld.Info.{SoInfo, FuncType, FuncImport, WasiImport, nth, lookup}
use particles.Dyld.Encoder.{Spec, EnvImport, EnvExport, EnvGlobal, EnvElem, intern_type}

pub data BuildError : Type 0 where
  sources_len addresses_len : BuildError
  type_out_of_range : ℕ → BuildError
  no_export unresolved : Name → BuildError
  own_out_of_range : ℕ → BuildError

pub data Built {ℓ} (A : Type ℓ) : Type ℓ where
  ok : A → Built A
  err : BuildError → Built A

abbrev pub then_built {ℓ κ} : {A : Type ℓ} {B : Type κ} → Built A → (A → Built B) → Built B
then_built (ok a) f = f a
then_built (err e) f = err e

unfoldable pub consed : ℕ → Built (List FuncType × List ℕ) → Built (List FuncType × List ℕ)
consed i (err e) = err e
consed i (ok (types, indices)) = ok (types, i ∷ indices)

-- The loops that intern the types of imports or tags: the types with them, and the index of each
unfoldable pub intern_all :
    List FuncType → List FuncImport → List FuncType → Built (List FuncType × List ℕ)
unfolding consed
intern_all so_types [] types = ok (types, [])
intern_all so_types (fi ∷ imports) types = elim (nth so_types fi.type_idx) [
  | none ↦ err (type_out_of_range fi.type_idx)
  | some t ↦ let (types', i) = intern_type t types in consed i (intern_all so_types imports types')
]

abbrev pub blank_import : EnvImport
blank_import = record {
  module_name = [];
  name = [];
  kind = 0;
  type_idx = 0;
  min_pages = 0;
  min_table = 0;
  ref_type = 0;
  g_val_type = 0;
  g_mut = false;
}

abbrev pub func_import : Name → Name → ℕ → EnvImport
func_import mod_name name idx = record blank_import {
  module_name = mod_name;
  name = name;
  kind = 0;
  type_idx = idx;
}

-- One import for each function, from its source
unfoldable pub func_env_imports : List FuncImport → List Name → List ℕ → List EnvImport
func_env_imports (fi ∷ imports) (source ∷ sources) (idx ∷ indices) =
    func_import source fi.name idx ∷ func_env_imports imports sources indices
func_env_imports _ _ _ = []

-- The imports under their own names, with the index from `i` on
unfoldable pub named_exports : ℕ → ℕ → List FuncImport → List EnvExport
named_exports kind i [] = []
named_exports kind i (fi ∷ imports) =
    record { name = fi.name; kind = kind; idx = i % 4294967296 }
    ∷ named_exports kind (i + 1) imports

abbrev pub when {ℓ} : {A : Type ℓ} → Bool → A → List A
when b x = if b then x ∷ [] else []

abbrev pub main_name : Name
main_name = ascii "main"

abbrev pub memory_import : EnvImport
memory_import = record blank_import { module_name = main_name; name = ascii "memory"; kind = 2 }

abbrev pub table_import : EnvImport
table_import = record blank_import {
  module_name = main_name;
  name = ascii "__indirect_function_table";
  kind = 1;
  ref_type = 0x70;
}

abbrev pub stack_import : EnvImport
stack_import = record blank_import {
  module_name = main_name;
  name = ascii "__stack_pointer";
  kind = 3;
  g_val_type = 0x7F;
  g_mut = true;
}

abbrev pub i32_global : Bool → ℕ → EnvGlobal
i32_global mutable_ v = record { val_type = 0x7F; is_mutable = mutable_; init_i32 = v }

abbrev pub export_as : Name → ℕ → ℕ → EnvExport
export_as name kind idx = record { name = name; kind = kind; idx = idx }

-- The globals of the module are counted from the stack pointer on.
abbrev pub count_if : Bool → ℕ
count_if b = if b then 1 else 0

-- Everything but the functions and tags that the module exports
unfoldable pub other_exports : SoInfo → List EnvExport
other_exports info =
    when info.imports_memory (export_as (ascii "memory") 2 0)
    ++ (when info.imports_table (export_as (ascii "__indirect_function_table") 1 0)
        ++ (when info.imports_stack_ptr (export_as (ascii "__stack_pointer") 3 0)
            ++ (when info.imports_memory_base
                  (export_as (ascii "__memory_base") 3 (count_if info.imports_stack_ptr))
                ++ when info.imports_table_base (
                    export_as (ascii "__table_base") 3
                      (count_if info.imports_stack_ptr + count_if info.imports_memory_base)))))

-- The module once the types are interned
unfoldable pub env_spec : SoInfo → List Name → ℕ → ℕ → List FuncType → List ℕ → List ℕ → Spec
unfolding func_env_imports named_exports other_exports
env_spec info sources memory_base table_base types func_indices tag_indices = record {
  types = types;
  imports =
      func_env_imports info.func_imports sources func_indices
      ++ (when info.imports_memory memory_import
          ++ (when info.imports_table table_import ++ when info.imports_stack_ptr stack_import));
  tags = tag_indices;
  globals =
      when info.imports_memory_base (i32_global false memory_base)
      ++ when info.imports_table_base (i32_global false table_base);
  exports =
      named_exports 0 0 info.func_imports
      ++ (named_exports 4 0 info.tag_imports ++ other_exports info);
  elems = [];
}

-- buildEnvModule: `sources` are the modules that the functions come from.
unfoldable pub build_env_module : SoInfo → List Name → ℕ → ℕ → Built Spec
unfolding intern_all env_spec
build_env_module info sources memory_base table_base =
    if not (length sources == length info.func_imports)
    then err sources_len
    else then_built (intern_all info.types info.func_imports []) (λ (types, func_indices).
      then_built (intern_all info.types info.tag_imports types) (λ (types', tag_indices).
        ok (env_spec info sources memory_base table_base types' func_indices tag_indices)))

-- One mutable global for each symbol, with its address or table index, exported under its name
unfoldable pub got_globals : List ℕ → List EnvGlobal
got_globals [] = []
got_globals (a ∷ addresses) = i32_global true a ∷ got_globals addresses

unfoldable pub got_exports : ℕ → List Name → List EnvExport
got_exports i [] = []
got_exports i (sym ∷ names) = export_as sym 3 (i % 4294967296) ∷ got_exports (i + 1) names

-- buildGotMemShim
unfoldable pub build_got_mem_shim : SoInfo → List ℕ → Built Spec
unfolding got_globals got_exports
build_got_mem_shim info addresses =
    if length addresses == length info.got_mem_imports
    then ok (record {
      types = [];
      imports = [];
      tags = [];
      elems = [];
      globals = got_globals addresses;
      exports = got_exports 0 info.got_mem_imports;
    })
    else err addresses_len

abbrev pub type_of_own : SoInfo → ℕ → Built FuncType
type_of_own info own = elim (nth info.own_func_type_idx own) [
  | none ↦ err (own_out_of_range own)
  | some idx ↦ elim (nth info.types idx) [ none ↦ err (type_out_of_range idx) | some t ↦ ok t ]
]

-- The type of an export of the library
unfoldable pub export_type : SoInfo → Name → Built FuncType
export_type info name = elim (lookup name info.exports) [
  | none ↦ err (no_export name)
  | some own ↦ type_of_own info own
]

-- The imports of the exports `names` from the library, with their types
unfoldable pub own_imports :
    SoInfo → List Name → List FuncType → Built (List FuncType × List EnvImport)
own_imports info [] types = ok (types, [])
own_imports info (name ∷ names) types = then_built (export_type info name) (λ t.
    let (types', i) = intern_type t types in
    then_built (own_imports info names types')
      (λ (final, imports). ok (final, func_import (ascii "so") name i ∷ imports)))

unfoldable pub counted_from : ℕ → ℕ → List ℕ
counted_from zero i = []
counted_from (suc n) i = (i % 4294967296) ∷ counted_from n (i + 1)

-- buildPostLoadShim
unfoldable pub build_post_load_shim : SoInfo → List Name → ℕ → Built Spec
unfolding own_imports counted_from export_type
build_post_load_shim info export_order shim_base =
    then_built (own_imports info export_order []) (λ (types, imports). ok (record {
      types = types;
      imports = table_import ∷ imports;
      tags = [];
      globals = [];
      exports = [];
      elems =
          record {
            table_idx = 0;
            offset = shim_base;
            func_indices = counted_from (length export_order) 0;
          }
          ∷ [];
    }))

unfoldable pub has_at : Name → Bool
has_at [] = false
has_at (b ∷ s) = if b == 64 then true else has_at s

-- shortName[:i] for the last "@"
unfoldable pub before_last_at : Name → Name
unfolding has_at
before_last_at [] = []
before_last_at (b ∷ s) = let more = b ∷ before_last_at s in if has_at s then more else []

unfoldable pub strip_version : Name → Name
unfolding before_last_at
strip_version s = if has_at s then before_last_at s else s

-- "wasi-lowered:<module>#<method>"
unfoldable pub lowered_name : Name → Name → Name
lowered_name short_name method_name =
    ascii "wasi-lowered:" ++ (short_name ++ (ascii "#" ++ method_name))

unfoldable pub wasi_loop :
    List FuncType
    → Name
    → ℕ
    → List WasiImport
    → List FuncType
    → Built (List FuncType × List EnvImport × List EnvExport)
unfolding lowered_name
wasi_loop so_types short_name i [] types = ok (types, [], [])
wasi_loop so_types short_name i (m ∷ methods) types = elim (nth so_types m.type_idx) [
  | none ↦ err (type_out_of_range m.type_idx)
  | some t ↦
      let (types', idx) = intern_type t types in
      then_built (wasi_loop so_types short_name (i + 1) methods types')
        (λ (final, imports, exports). ok (
          final,
          func_import main_name (lowered_name short_name m.method_name) idx ∷ imports,
          export_as m.method_name 0 (i % 4294967296) ∷ exports,
        ))
]

-- buildWasiShim
unfoldable pub build_wasi_shim : SoInfo → Name → List WasiImport → Built Spec
unfolding wasi_loop strip_version
build_wasi_shim info module_name methods =
    then_built (wasi_loop info.types (strip_version module_name) 0 methods [])
      (λ (types, imports, exports). ok (record {
        types = types;
        imports = imports;
        exports = exports;
        tags = [];
        globals = [];
        elems = [];
      }))
