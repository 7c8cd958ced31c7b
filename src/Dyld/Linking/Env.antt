-- ===== src/Dyld/Linking/Env.antt =====
-- The environment module of internal/runtime/dyld/loader.go (buildEnvModule), from the library's side.
use particles.Base.{
  ℕ, ◌+◌, ◌<◌, ◌≤◌, ◌≡◌, refl, sym, ap, subst, ◌∙◌, Bool, true, false, not, some, List, [], length,
  ◌==◌, if◌then◌else◌, arith,
}
use particles.Dyld.Names.{Name}
use particles.Dyld.Info.{SoInfo, FuncType, FuncImport, nth}
use particles.Dyld.Encoder.{Spec}
use particles.Dyld.Linking.{
  Built, ok, err, then_built, intern_all, func_env_imports, named_exports, other_exports, env_spec,
  build_env_module, sources_len, export_as,
}
use particles.Dyld.Linking.Interning.{HasTypes, Interned, intern_all-Interned, nth-append}
use particles.Dyld.Linking.EnvLists.{
  ImportsFunc, ImportsFunc-append, HasTypes-nth, func_env_imports-ImportsFunc, HasTypes-Extends,
  nth-named_exports, nth-append_right, length-named_exports,
}

-- What the module does for the `j`-th function that the library imports: it imports the function from
-- its source under its name, with the library's type, and exports its `j`-th function under the name.
pub record Forwards (info : SoInfo) (sources : List Name) (s : Spec) (j : ℕ) (fi : FuncImport)
    : Type 0 where
  pub imports_it : ImportsFunc info.types s.types sources s.imports j fi
  pub exports_it : nth s.exports j ≡ some (export_as fi.name 0 j)

-- What it does for the `j`-th exception tag: it has a tag of the library's type and exports it.
pub record Defines (info : SoInfo) (s : Spec) (j : ℕ) (ti : FuncImport) : Type 0 where
  pub idx : ℕ
  pub type_of : FuncType
  pub tag : nth s.tags j ≡ some idx
  pub declared : nth info.types ti.type_idx ≡ some type_of
  pub interned : nth s.types idx ≡ some type_of
  pub exports_it : nth s.exports (length info.func_imports + j) ≡ some (export_as ti.name 4 j)

-- The module has all that the library imports from its environment.
abbrev pub Serves : SoInfo → List Name → Spec → Type 0
Serves info sources s =
    ((j : ℕ) (fi : FuncImport) → nth info.func_imports j ≡ some fi → Forwards info sources s j fi)
    × ((j : ℕ) (ti : FuncImport) → nth info.tag_imports j ≡ some ti → Defines info s j ti)

module _ (info : SoInfo) (sources : List Name) (memory_base table_base : ℕ)
    (types final : List FuncType) (func_indices tag_indices : List ℕ) where
  abbrev served : Spec
  served = env_spec info sources memory_base table_base final func_indices tag_indices

  spec-Forwards :
      (j : ℕ) (fi : FuncImport)
      → length sources ≡ length info.func_imports
      → length info.func_imports ≤ 4294967296
      → HasTypes info.types final info.func_imports func_indices
      → nth info.func_imports j ≡ some fi
      → Forwards info sources served j fi
  unfolding env_spec
  spec-Forwards j fi e few funcs at =
      let named = nth-named_exports 0 0 info.func_imports j fi (omega (arith, few)) at in
      let start : 0 + j ≡ j = omega arith in
      record {
        imports_it =
            ImportsFunc-append info.types final sources
              (func_env_imports info.func_imports sources func_indices) _ j fi
              (func_env_imports-ImportsFunc info.types final info.func_imports sources func_indices
                j fi e funcs at);
        exports_it =
            nth-append (named_exports 0 0 info.func_imports) _ j _
              (named ∙ ap (λ (k : ℕ). some (export_as fi.name 0 k)) start);
      }

  spec-Defines :
      (j : ℕ) (ti : FuncImport)
      → length info.tag_imports ≤ 4294967296
      → HasTypes info.types final info.tag_imports tag_indices
      → nth info.tag_imports j ≡ some ti
      → Defines info served j ti
  unfolding env_spec
  spec-Defines j ti few tags at =
      let (idx, t, here, declared, interned) =
        HasTypes-nth info.types final info.tag_imports tag_indices j ti tags at in
      let named = nth-named_exports 4 0 info.tag_imports j ti (omega (arith, few)) at in
      let start : 0 + j ≡ j = omega arith in
      let at_tags =
        nth-append (named_exports 4 0 info.tag_imports) (other_exports info) j _
          (named ∙ ap (λ (k : ℕ). some (export_as ti.name 4 k)) start) in
      record {
        idx = idx;
        type_of = t;
        tag = here;
        declared = declared;
        interned = interned;
        exports_it =
            ap (λ (k : ℕ). nth served.exports (k + j))
              (sym (length-named_exports 0 0 info.func_imports))
            ∙ (nth-append_right (named_exports 0 0 info.func_imports) _ j ∙ at_tags);
      }

value_of : Spec → Built Spec → Spec
value_of s (ok x) = x
value_of s (err e) = s

-- The steps of the builder, once the types of the functions are interned, and once those of the tags
tags_serve :
    (info : SoInfo) (sources : List Name) (memory_base table_base : ℕ) (types : List FuncType)
    (func_indices : List ℕ) (s : Spec) (tags : Built (List FuncType × List ℕ))
    → length sources ≡ length info.func_imports
    → length info.func_imports + length info.tag_imports < 4294967296
    → HasTypes info.types types info.func_imports func_indices
    → Interned info.types info.tag_imports types tags
    → then_built tags (λ (final, tag_indices).
      ok (env_spec info sources memory_base table_base final func_indices tag_indices))
      ≡ ok s
    → Serves info sources s
unfolding Interned value_of
tags_serve info sources memory_base table_base types func_indices s (err e) n few funcs i h = cc
tags_serve info sources memory_base table_base types func_indices s (ok (final, tag_indices)) n few
      funcs (ext, tags, size) h =
    let funcs' = HasTypes-Extends info.types types final info.func_imports func_indices ext funcs in
    subst (Serves info sources) (ap (value_of s) h) (
      λ j fi at.
          spec-Forwards info sources memory_base table_base types final func_indices tag_indices j
            fi n (omega (arith, few)) funcs' at,
      λ j ti at.
          spec-Defines info sources memory_base table_base types final func_indices tag_indices j ti
            (omega (arith, few)) tags at,
    )

funcs_serve :
    (info : SoInfo) (sources : List Name) (memory_base table_base : ℕ) (s : Spec)
    (funcs : Built (List FuncType × List ℕ))
    → length sources ≡ length info.func_imports
    → length info.func_imports + length info.tag_imports < 4294967296
    → Interned info.types info.func_imports [] funcs
    → then_built funcs (λ (types, func_indices).
      then_built (intern_all info.types info.tag_imports types) (λ (final, tag_indices).
        ok (env_spec info sources memory_base table_base final func_indices tag_indices)))
      ≡ ok s
    → Serves info sources s
unfolding Interned
funcs_serve info sources memory_base table_base s (err e) n few i h = cc
funcs_serve info sources memory_base table_base s (ok (types, func_indices)) n few
      (ext, typed, size) h =
    tags_serve info sources memory_base table_base types func_indices s
      (intern_all info.types info.tag_imports types) n few typed
      (intern_all-Interned info.types info.tag_imports types (omega (arith, few, size))) h

guarded :
    (P : Type 0) (s : Spec) (b : Bool) (x : Built Spec)
    → (b ≡ true → x ≡ ok s → P)
    → (if not b then err sources_len else x) ≡ ok s
    → P
guarded P s true x h e = h refl e
guarded P s false x h e = cc

-- The environment module that is built serves the library: for each function that the library imports
-- it imports one of the same name and type from the function's source and exports it under the name at
-- the same place, and for each exception tag it defines and exports one of the same type; where there
-- are fewer than 2 ^ 32 of them.
pub build_env_module-Serves :
    (info : SoInfo) (sources : List Name) (memory_base table_base : ℕ) (s : Spec)
    → length info.func_imports + length info.tag_imports < 4294967296
    → build_env_module info sources memory_base table_base ≡ ok s
    → Serves info sources s
unfolding build_env_module
build_env_module-Serves info sources memory_base table_base s few h =
    guarded (Serves info sources s) s (length sources == length info.func_imports) _
      (λ e same.
        funcs_serve info sources memory_base table_base s
          (intern_all info.types info.func_imports []) (ground (arith, e)) few
          (intern_all-Interned info.types info.func_imports [] (omega (arith, few))) same)
      h
