-- ===== src/Dyld/Encoder/Learned.antt =====
-- What parseSO of internal/runtime/dyld/loader.go reads of the modules that wasm.go encodes: the parts
-- that the loader uses.
use particles.Base.{
  ℕ, zero, suc, ◌%◌, ◌<◌, ◌≡◌, refl, sym, ap, ◌∙◌, ◌&&◌, Option, none, some, List, [], ◌∷◌, ◌++◌,
  All, append_assoc, append-nil, arith, ◌==◌, ◌-◌, if◌then◌else◌,
}
use particles.Base.Bytes.{name_eq}
use particles.Dyld.{ok}
use particles.Dyld.Names.{Name, ascii}
use particles.Dyld.Info.{
  new_info, SoInfo, FuncType, FuncImport, note_func, note_table, note_memory, note_global,
  note_env_global, note_export, with_offset, nth,
}
use particles.Dyld.Parser.{parse_so}
use particles.Dyld.Encoder.{EnvGlobal, Spec, EnvImport, EnvExport, encode}
use particles.Dyld.Encoder.RoundTrip.{
  IsImport, noted_kind, noted_import, noted_imports, noted_exports, init_values,
}
use particles.Dyld.Encoder.Modules.{
  IsWritable, after_section, with_types, with_imports, with_globals, described, parse_so-encode,
}

-- The functions that are imported from "env"
abbrev pub env_func : EnvImport → List FuncImport
env_func imp =
    if imp.kind == 0 && name_eq imp.module_name (ascii "env")
    then record { name = imp.name; type_idx = imp.type_idx } ∷ []
    else []

abbrev pub env_funcs : List EnvImport → List FuncImport
env_funcs [] = []
env_funcs (imp ∷ imports) = env_func imp ++ env_funcs imports

-- `new` adds the functions `funcs` to what `old` knows, and keeps its types and constants.
abbrev Adds : SoInfo → List FuncImport → SoInfo → Type 0
Adds old funcs new =
    (new.types ≡ old.types)
    × (new.own_global_init_consts ≡ old.own_global_init_consts)
    × (new.func_imports ≡ old.func_imports ++ funcs)

kind-Adds :
    (k : ℕ) (imp : EnvImport) (st : SoInfo × ℕ)
    → imp.kind ≡ k
    → imp.type_idx < 4294967296
    → Adds st.0 (env_func imp) (noted_kind k imp st).0
unfolding noted_kind note_func note_table note_memory note_global note_env_global
kind-Adds zero imp (info, count) e h =
    let idx : imp.type_idx % 4294967296 ≡ imp.type_idx = omega (arith, h) in
    rw e (ground (arith, append-nil info.func_imports, idx))
kind-Adds (suc zero) imp (info, count) e h = ground (arith, append-nil info.func_imports, e)
kind-Adds (suc (suc zero)) imp (info, count) e h = ground (arith, append-nil info.func_imports, e)
kind-Adds (suc (suc (suc k))) imp (info, count) e h =
    ground (arith, append-nil info.func_imports, e)

imports_add :
    (imports : List EnvImport) (st : SoInfo × ℕ)
    → All IsImport imports
    → Adds st.0 (env_funcs imports) (noted_imports imports st)
imports_add [] (info, count) h = (refl, refl, sym (append-nil info.func_imports))
imports_add (imp ∷ imports) st (p, h) =
    let (t, c, f) = kind-Adds imp.kind imp st refl p.3 in
    let (t', c', f') = imports_add imports (noted_import imp st) h in
    (
      t' ∙ t,
      c' ∙ c,
      f'
          ∙ (ap (λ (l : List FuncImport). l ++ env_funcs imports) f
              ∙ append_assoc st.0.func_imports (env_func imp) (env_funcs imports)),
    )

offset_keeps : (name : Name) (o : Option ℕ) (info : SoInfo) → Adds info [] (with_offset name o info)
unfolding with_offset
offset_keeps name none info = (refl, refl, sym (append-nil info.func_imports))
offset_keeps name (some x) info = (refl, refl, sym (append-nil info.func_imports))

export_keeps : (e : EnvExport) (info : SoInfo) → Adds info [] (note_export e.name e.kind e.idx info)
unfolding note_export
export_keeps e info = ground (
  arith,
  append-nil info.func_imports,
  offset_keeps e.name (nth info.own_global_init_consts (e.idx % 4294967296 - info.imported_globals))
      (record info { data_export_names = info.data_export_names ++ (e.name ∷ []) }),
)

exports_keep :
    (exports : List EnvExport) (info : SoInfo) → Adds info [] (noted_exports exports info)
exports_keep [] info = (refl, refl, sym (append-nil info.func_imports))
exports_keep (e ∷ exports) info =
    let (t, c, f) = export_keeps e info in
    let (t', c', f') = exports_keep exports (note_export e.name e.kind e.idx info) in
    (t' ∙ t, c' ∙ c, f' ∙ (append-nil _ ∙ f))

-- What a module without other sections than these shows.
abbrev Shows : SoInfo → List FuncType → List ℕ → List FuncImport → Type 0
Shows info types constants funcs =
    (info.types ≡ types) × (info.own_global_init_consts ≡ constants) × (info.func_imports ≡ funcs)

after_types :
    (ts : List FuncType)
    → Shows (after_section ts new_info (record new_info { types = ts })) ts [] []
unfolding after_section
after_types [] = (refl, refl, refl)
after_types (t ∷ ts) = (refl, refl, refl)

after_imports :
    (imports : List EnvImport) (info : SoInfo)
    → All IsImport imports
    → Adds info (env_funcs imports) (after_section imports info (noted_imports imports (info, 0)))
unfolding after_section
after_imports [] info h = (refl, refl, sym (append-nil info.func_imports))
after_imports (imp ∷ imports) info h = imports_add (imp ∷ imports) (info, 0) h

after_globals :
    (gs : List EnvGlobal) (info : SoInfo)
    → info.own_global_init_consts ≡ []
    → Shows
        (after_section gs info (record info { own_global_init_consts = init_values gs }))
        info.types
        (init_values gs)
        info.func_imports
unfolding after_section
after_globals [] info h = (refl, h, refl)
after_globals (g ∷ gs) info h = (refl, refl, refl)

after_exports :
    (exports : List EnvExport) (info : SoInfo)
    → Adds info [] (after_section exports info (noted_exports exports info))
unfolding after_section
after_exports [] info = (refl, refl, sym (append-nil info.func_imports))
after_exports (e ∷ exports) info = exports_keep (e ∷ exports) info

described-Shows :
    (s : Spec)
    → IsWritable s
    → Shows (described s) s.types (init_values s.globals) (env_funcs s.imports)
unfolding described
described-Shows s w =
    let (t1, c1, f1) = after_types s.types in
    let (t2, c2, f2) = after_imports s.imports (with_types s) w.all_imports in
    let (t3, c3, f3) = after_globals s.globals (with_imports s) (c2 ∙ c1) in
    let (t4, c4, f4) = after_exports s.exports (with_globals s) in
    (
      t4 ∙ (t3 ∙ (t2 ∙ t1)),
      c4 ∙ c3,
      f4
          ∙ (append-nil (with_globals s).func_imports
              ∙ (f3 ∙ (f2 ∙ ap (λ (l : List FuncImport). l ++ env_funcs s.imports) f1))),
    )

-- parseSO accepts what encode writes of a module that fits: it learns the types of the module, the
-- initial values of its globals and, in order, the functions that it imports from "env".
pub parse_so-encode_learns :
    (s : Spec)
    → IsWritable s
    → (info : SoInfo) × (parse_so (encode s) ≡ ok info)
      × (info.types ≡ s.types)
      × (info.own_global_init_consts ≡ init_values s.globals)
      × (info.func_imports ≡ env_funcs s.imports)
parse_so-encode_learns s w =
    let (t, c, f) = described-Shows s w in (described s, parse_so-encode s w, t, c, f)
