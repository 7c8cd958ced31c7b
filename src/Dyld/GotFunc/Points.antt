-- ===== src/Dyld/GotFunc/Points.antt =====
-- What the addresses of buildGotFuncShim (internal/runtime/dyld/loader.go) point to.
use particles.Base.{
  ℕ, zero, suc, ◌+◌, ◌-◌, ◌<◌, ◌≡◌, refl, ap, ◌∙◌, Bool, true, false, Option, none, some, List, [],
  ◌∷◌, ◌++◌, length, Any, leb, ltb, if◌then◌else◌, arith,
}
use particles.Dyld.Names.{Name}
use particles.Dyld.Info.{FuncType, nth}
use particles.Dyld.Encoder.{Spec, EnvImport, EnvElem}
use particles.Dyld.Linking.{
  Built, ok, err, then_built, unresolved, func_import, main_name, table_import, when, got_globals,
  got_exports,
}
use particles.Dyld.Registry.{Adapter}
use particles.Dyld.GotFunc.{
  Target, known, from_main, missing, target_of, need_table, Loop, resolve_all, table_indices,
  placed_funcs, got_spec, build_got_func_shim,
}
use particles.Dyld.GotFunc.Symbols.{
  functions, Each, Each-map, Points, Counted, Resolved, resolve_all-Resolved,
}

-- The function that the segments of a module place at a slot of the table
abbrev pub placed_at : List EnvElem → ℕ → Option ℕ
placed_at [] slot = none
placed_at (e ∷ elems) slot =
    let others = placed_at elems slot in
    if leb e.offset slot then nth e.func_indices (slot - e.offset) else others

-- The value of the global of a symbol is right: it is the known index, or a slot in which the module
-- places the function of main that has the symbol's name and type; the table is then main's.
abbrev pub PointsTo : Spec → Name → Target → ℕ → Type 0
PointsTo s name (known idx) value = value ≡ idx
PointsTo s name (from_main t) value =
    (f i : ℕ) × (nth s.imports 0 ≡ some table_import)
    × (placed_at s.elems value ≡ some f)
    × (nth (functions s.imports) f ≡ some (func_import main_name name i))
    × (nth s.types i ≡ some t)
PointsTo s name missing value = ⊥

nth_bound {ℓ} : {A : Type ℓ} (xs : List A) (k : ℕ) (x : A) → nth xs k ≡ some x → k < length xs
unfolding nth
nth_bound [] k x h = cc
nth_bound (y ∷ xs) zero x h = omega arith
nth_bound (y ∷ xs) (suc k) x h = omega (arith, nth_bound xs k x h)

functions-when :
    (b : Bool) (imports : List EnvImport)
    → functions imports ≡ imports
    → functions (when b table_import ++ imports) ≡ imports
functions-when true imports h = h
functions-when false imports h = h

-- A slot that is counted holds the function with its number.
placed_slot :
    (base k n : ℕ) (fs : List ℕ) (value : ℕ)
    → Counted 0 fs n
    → k < n
    → value ≡ base + (0 + k)
    → placed_at (when (ltb 0 n) (record { table_idx = 0; offset = base; func_indices = fs })) value
      ≡ some k
placed_slot base k n fs value c h e =
    let there : nth fs (value - base) ≡ some k =
      let at : value - base ≡ k = omega (arith, e) in
      let same : 0 + k ≡ k = omega arith in
      ap (λ j. nth fs j) at ∙ c k h ∙ ap (λ (x : ℕ). some x) same in
    let some_placed : ltb 0 n ≡ true = ground (arith, h) in
    let above : leb base value ≡ true = ground (arith, e) in rw (some_placed, above) there

spec-PointsTo :
    (b : Bool) (base : ℕ) (names : List Name) (l : Loop) (name : Name) (t : Target) (value : ℕ)
    → Counted 0 (placed_funcs l.resolutions) (length l.imports)
    → functions l.imports ≡ l.imports
    → b ≡ ltb 0 (length l.imports)
    → Points base 0 l.imports l.types name t value
    → PointsTo (got_spec b base names l) name t value
unfolding got_spec nth
spec-PointsTo b base names l name (known idx) value c f n h = h
spec-PointsTo b base names l name (from_main t) value c f n (k, i, e, at, typed) =
    let bound = nth_bound l.imports k (func_import main_name name i) at in
    let is_there : b ≡ true = ground (arith, n, bound) in
    (
      k,
      i,
      rw is_there refl,
      placed_slot base k (length l.imports) (placed_funcs l.resolutions) value c bound e,
      ap (λ is. nth is k) (functions-when b l.imports f) ∙ at,
      typed,
    )
spec-PointsTo b base names l name missing value c f n h = h

-- The answer of buildGotFuncShim: an error names a symbol that nothing has; a module has a global for
-- each symbol, exported under its name, whose value points to the symbol's function.
unfoldable pub Answers : List Name → (Name → Target) → Built Spec → Type 0
Answers names target (err e) = Any (λ name. (target name ≡ missing) × (e ≡ unresolved name)) names
Answers names target (ok s) =
    (values : List ℕ) × (s.globals ≡ got_globals values)
    × (s.exports ≡ got_exports 0 names)
    × Each (λ name value. PointsTo s name (target name) value) names values

built-Answers :
    (target : Name → Target) (base : ℕ) (names : List Name) (r : Built Loop)
    → Resolved target base names 0 0 [] r
    → Answers names target
        (then_built r (λ l. ok (got_spec (need_table target names) base names l)))
unfolding Resolved Answers got_spec
built-Answers target base names (err e) h = h
built-Answers target base names (ok l) (x, h, c, f, n) = (
  table_indices base 0 l.resolutions,
  refl,
  refl,
  Each-map names (table_indices base 0 l.resolutions)
      (λ name value.
        spec-PointsTo (need_table target names) base names l name (target name) value c f n)
      h,
)

-- Where the fresh slots end below 2^32, buildGotFuncShim fails only with a symbol that neither the
-- library, a loaded library nor main has. Else its module has a global for each symbol, exported under
-- its name: its value is the table index that the library or a loaded library has for the symbol, or a
-- slot of main's table in which the module places main's function of that name and type.
pub build_got_func_shim-Answers :
    (a : Adapter) (main_type : Name → Option FuncType) (names : List Name) (base shim_base : ℕ)
    (export_order : List Name)
    → base + length names < 4294967296
    → Answers names
        (target_of a main_type shim_base export_order)
        (build_got_func_shim a main_type names base shim_base export_order)
unfolding build_got_func_shim
build_got_func_shim-Answers a main_type names base shim_base export_order h =
    let target = target_of a main_type shim_base export_order in
    built-Answers target base names (resolve_all target names 0 []) (
      resolve_all-Resolved target base names 0 0 [] (omega (arith, h)) (omega (arith, h))
        (omega (arith, h)))
