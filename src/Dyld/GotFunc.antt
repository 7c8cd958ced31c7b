-- ===== src/Dyld/GotFunc.antt =====
-- internal/runtime/dyld/loader.go (buildGotFuncShim): the module that gives a library the table slots
-- of the functions it takes the address of. The functions of the main module are a parameter.
mod Symbols
pub mod Points
use particles.Base.{
  ℕ, zero, suc, ◌+◌, ◌%◌, Bool, true, false, ◌||◌, Option, none, some, List, [], ◌∷◌, ◌++◌, ltb,
  length, if◌then◌else◌,
}
use particles.Base.Bytes.{name_eq}
use particles.Dyld.Names.{Name}
use particles.Dyld.Info.{FuncType}
use particles.Dyld.Encoder.{Spec, EnvImport, EnvElem, intern_type}
use particles.Dyld.Linking.{
  Built, ok, err, then_built, unresolved, func_import, main_name, table_import, when, got_globals,
  got_exports,
}
use particles.Dyld.Registry.{Adapter, Resolved, in_library, in_main, nowhere, resolve_func}

-- The symbol's place in the table of the library's own exports: the last one counts.
unfoldable pub self_offset : Name → ℕ → List Name → Option ℕ
unfolding name_eq
self_offset sym i [] = none
self_offset sym i (n ∷ order) = elim (self_offset sym (i + 1) order) [
  | some j ↦ some j
  | none ↦ if name_eq n sym then some i else none
]

-- Where a symbol comes from: a table index that is known, or a function of main
pub data Target : Type 0 where
  known : ℕ → Target
  from_main : FuncType → Target
  missing : Target

unfoldable pub main_target : Option FuncType → Target
main_target none = missing
main_target (some t) = from_main t

unfoldable pub has_type : Option FuncType → Bool
has_type none = false
has_type (some t) = true

unfoldable pub outside_target : Resolved → Option FuncType → Target
unfolding main_target
outside_target (in_library idx) t = known idx
outside_target in_main t = main_target t
outside_target nowhere t = missing

unfoldable pub target_of : Adapter → (Name → Option FuncType) → ℕ → List Name → Name → Target
unfolding self_offset outside_target resolve_func has_type
target_of a main_type shim_base export_order sym = elim (self_offset sym 0 export_order) [
  | some off ↦ known ((shim_base + off) % 4294967296)
  | none ↦ outside_target (resolve_func sym (has_type (main_type sym)) a) (main_type sym)
]

unfoldable pub is_from_main : Target → Bool
is_from_main (known idx) = false
is_from_main (from_main t) = true
is_from_main missing = false

-- The first loop: whether any symbol comes from main
unfoldable pub need_table : (Name → Target) → List Name → Bool
unfolding is_from_main
need_table target [] = false
need_table target (sym ∷ names) = is_from_main (target sym) || need_table target names

-- gotResolution: a known index, or the function of the module that is to be placed
pub data Resolution : Type 0 where
  at_index placed : ℕ → Resolution

pub record Loop : Type 0 where
  pub resolutions : List Resolution
  pub imports : List EnvImport
  pub types : List FuncType

-- The second loop: `count` functions of main are imported so far.
unfoldable pub resolve_all : (Name → Target) → List Name → ℕ → List FuncType → Built Loop
resolve_all target [] count types = ok (record { resolutions = []; imports = []; types = types })
resolve_all target (sym ∷ names) count types = elim (target sym) [
  | known idx ↦
      then_built (resolve_all target names count types)
        (λ l. ok (record l { resolutions = at_index idx ∷ l.resolutions }))
  | from_main t ↦
      let (types', i) = intern_type t types in
      then_built (resolve_all target names ((count + 1) % 4294967296) types') (λ l. ok (record l {
        resolutions = placed count ∷ l.resolutions;
        imports = func_import main_name sym i ∷ l.imports;
      }))
  | missing ↦ err (unresolved sym)
]

-- The table indices: fresh slots from `base + off` on for the functions of main
unfoldable pub table_indices : ℕ → ℕ → List Resolution → List ℕ
table_indices base off [] = []
table_indices base off (at_index idx ∷ rs) = idx ∷ table_indices base off rs
table_indices base off (placed f ∷ rs) =
    ((base + off) % 4294967296) ∷ table_indices base (off + 1) rs

unfoldable pub placed_funcs : List Resolution → List ℕ
placed_funcs [] = []
placed_funcs (at_index idx ∷ rs) = placed_funcs rs
placed_funcs (placed f ∷ rs) = f ∷ placed_funcs rs

unfoldable pub got_spec : Bool → ℕ → List Name → Loop → Spec
unfolding table_indices placed_funcs got_globals got_exports
got_spec with_table base names l = record {
  types = l.types;
  imports = when with_table table_import ++ l.imports;
  tags = [];
  globals = got_globals (table_indices base 0 l.resolutions);
  exports = got_exports 0 names;
  elems =
      when (ltb 0 (length l.imports))
        (record { table_idx = 0; offset = base; func_indices = placed_funcs l.resolutions });
}

-- buildGotFuncShim
unfoldable pub build_got_func_shim :
    Adapter → (Name → Option FuncType) → List Name → ℕ → ℕ → List Name → Built Spec
unfolding target_of need_table resolve_all got_spec
build_got_func_shim a main_type names base shim_base export_order =
    let target = target_of a main_type shim_base export_order in
    then_built (resolve_all target names 0 [])
      (λ l. ok (got_spec (need_table target names) base names l))
