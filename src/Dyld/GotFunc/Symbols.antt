-- ===== src/Dyld/GotFunc/Symbols.antt =====
-- The loop of buildGotFuncShim (internal/runtime/dyld/loader.go) over the symbols.
use particles.Base.{
  ℕ, zero, suc, ◌+◌, ◌%◌, ◌<◌, ◌≤◌, ◌≡◌, refl, sym, ap, subst, ◌∙◌, some, inl, inr, List, [], ◌∷◌,
  ◌++◌, append_assoc, append-nil, length, Any, ltb, ◌==◌, if◌then◌else◌, arith,
}
use particles.Dyld.Names.{Name}
use particles.Dyld.Info.{FuncType, nth}
use particles.Dyld.Encoder.{EnvImport, intern_type}
use particles.Dyld.Linking.{Built, ok, err, then_built, unresolved, func_import, main_name}
use particles.Dyld.Linking.Interning.{Extends, intern_type_lem, nth-append}
use particles.Dyld.GotFunc.{
  Target, known, from_main, missing, is_from_main, need_table, at_index, placed, Loop, resolve_all,
  table_indices, placed_funcs,
}

-- The functions that a module imports, which its function indices count
abbrev pub functions : List EnvImport → List EnvImport
functions [] = []
functions (i ∷ imports) =
    let others = functions imports in if i.kind == 0 then i ∷ others else others

-- Each of the symbols, with the value of its global
abbrev pub Each : (Name → ℕ → Type 0) → List Name → List ℕ → Type 0
Each P [] [] = Unit
Each P (n ∷ names) (v ∷ values) = P n v × Each P names values
Each P _ _ = ⊥

pub Each-map :
    {P Q : Name → ℕ → Type 0} (names : List Name) (values : List ℕ)
    → ((n : Name) (v : ℕ) → P n v → Q n v)
    → Each P names values
    → Each Q names values
Each-map [] [] f h = tt
Each-map [] (v ∷ values) f h = h
Each-map (n ∷ names) [] f h = h
Each-map (n ∷ names) (v ∷ values) f (p, h) = (f n v p, Each-map names values f h)

-- The same with the lists of the loop, for the slots from `base + off` on
abbrev pub Points : ℕ → ℕ → List EnvImport → List FuncType → Name → Target → ℕ → Type 0
Points base off imports types name (known idx) value = value ≡ idx
Points base off imports types name (from_main t) value =
    (k i : ℕ) × (value ≡ base + (off + k))
    × (nth imports k ≡ some (func_import main_name name i))
    × (nth types i ≡ some t)
Points base off imports types name missing value = ⊥

next-Points :
    (base off : ℕ) (i : EnvImport) (imports : List EnvImport) (types : List FuncType) (name : Name)
    (t : Target) (value : ℕ)
    → Points base (off + 1) imports types name t value
    → Points base off (i ∷ imports) types name t value
unfolding nth
next-Points base off i imports types name (known idx) value h = h
next-Points base off i imports types name (from_main t) value (k, j, e, p, q) =
    (suc k, j, omega (arith, e), p, q)
next-Points base off i imports types name missing value h = h

-- The functions that are placed are the imports in their order.
abbrev pub Counted : ℕ → List ℕ → ℕ → Type 0
Counted i fs n = (k : ℕ) → k < n → nth fs k ≡ some (i + k)

Extends-trans : (xs ys zs : List FuncType) → Extends xs ys → Extends ys zs → Extends xs zs
Extends-trans xs ys zs (more, e) (more', e') =
    (more ++ more', e' ∙ (ap (λ l. l ++ more') e ∙ append_assoc xs more more'))

next-Counted :
    (count n : ℕ) (fs : List ℕ) → Counted (count + 1) fs n → Counted count (count ∷ fs) (suc n)
unfolding nth
next-Counted count n fs c zero h =
    let e : count ≡ count + 0 = omega arith in ap (λ (x : ℕ). some x) e
next-Counted count n fs c (suc k) h =
    let e : (count + 1) + k ≡ count + suc k = omega arith in
    c k (omega (arith, h)) ∙ ap (λ (x : ℕ). some x) e

module _ (target : Name → Target) (base : ℕ) where
  -- What the loop gives for the symbols `names`
  abbrev pub Right : List Name → ℕ → ℕ → List FuncType → Loop → Type 0
  Right names off count types l =
      Extends types l.types
      × Each (λ name value. Points base off l.imports l.types name (target name) value) names
          (table_indices base off l.resolutions)
      × Counted count (placed_funcs l.resolutions) (length l.imports)
      × (functions l.imports ≡ l.imports)
      × (need_table target names ≡ ltb 0 (length l.imports))

  known-Right :
      (name : Name) (names : List Name) (off count idx : ℕ) (types : List FuncType) (l : Loop)
      → target name ≡ known idx
      → Right names off count types l
      → Right
          (name ∷ names)
          off
          count
          types
          (record l { resolutions = at_index idx ∷ l.resolutions })
  unfolding table_indices placed_funcs need_table is_from_main
  known-Right name names off count idx types l e (x, h, c, f, n) = (
    x,
    (subst (λ t. Points base off l.imports l.types name t idx) (sym e) refl, h),
    c,
    f,
    ground (arith, e, n),
  )

  main-Right :
      (name : Name) (names : List Name) (off count i : ℕ) (t : FuncType)
      (types types' : List FuncType) (l : Loop)
      → target name ≡ from_main t
      → base + off < 4294967296
      → Extends types types'
      → nth types' i ≡ some t
      → Right names (off + 1) (count + 1) types' l
      → Right (name ∷ names) off count types (record l {
        resolutions = placed count ∷ l.resolutions;
        imports = func_import main_name name i ∷ l.imports;
      })
  unfolding table_indices placed_funcs nth need_table is_from_main
  main-Right name names off count i t types types' l e small x at ((more, x'), h, c, f, n) =
      let head : Points base off (func_import main_name name i ∷ l.imports) l.types name
          (from_main t) ((base + off) % 4294967296) =
        (
          0,
          i,
          omega (arith, small),
          refl,
          ap (λ (ts : List FuncType). nth ts i) x' ∙ nth-append types' more i t at,
        ) in
      (
        Extends-trans types types' l.types x (more, x'),
        (
          subst
              (λ u.
                Points base off (func_import main_name name i ∷ l.imports) l.types name u
                  ((base + off) % 4294967296))
              (sym e) head,
          Each-map names (table_indices base (off + 1) l.resolutions)
              (λ n v.
                next-Points base off (func_import main_name name i) l.imports l.types n (target n)
                  v)
              h,
        ),
        next-Counted count (length l.imports) (placed_funcs l.resolutions) c,
        ap (λ is. func_import main_name name i ∷ is) f,
        ground (arith, e),
      )

  -- The loop answers with what is right, or with an error.
  unfoldable pub Resolved : List Name → ℕ → ℕ → List FuncType → Built Loop → Type 0
  Resolved names off count types (err e) =
      Any (λ name. (target name ≡ missing) × (e ≡ unresolved name)) names
  Resolved names off count types (ok l) = Right names off count types l

  then-Resolved :
      (name : Name) (names : List Name) (off off' count count' : ℕ) (types types' : List FuncType)
      (b : Built Loop) (f : Loop → Loop)
      → ((l : Loop) → Right names off' count' types' l → Right (name ∷ names) off count types (f l))
      → Resolved names off' count' types' b
      → Resolved (name ∷ names) off count types (then_built b (λ l. ok (f l)))
  unfolding Resolved
  then-Resolved name names off off' count count' types types' (err e) f g h = inr h
  then-Resolved name names off off' count count' types types' (ok l) f g h = g l h

  known_step :
      (name : Name) (names : List Name) (count idx : ℕ) (types : List FuncType)
      → target name ≡ known idx
      → resolve_all target (name ∷ names) count types
        ≡ then_built
            (resolve_all target names count types)
            (λ l. ok (record l { resolutions = at_index idx ∷ l.resolutions }))
  unfolding resolve_all
  known_step name names count idx types e = rw (e, resolve_all) refl

  missing_step :
      (name : Name) (names : List Name) (count : ℕ) (types : List FuncType)
      → target name ≡ missing
      → resolve_all target (name ∷ names) count types ≡ err (unresolved name)
  unfolding resolve_all
  missing_step name names count types e = rw (e, resolve_all) refl

  main_step :
      (name : Name) (names : List Name) (count : ℕ) (t : FuncType) (types : List FuncType)
      → target name ≡ from_main t
      → count + 1 < 4294967296
      → resolve_all target (name ∷ names) count types
        ≡ then_built (resolve_all target names (count + 1) (intern_type t types).0) (λ l.
          ok (record l {
            resolutions = placed count ∷ l.resolutions;
            imports = func_import main_name name (intern_type t types).1 ∷ l.imports;
          }))
  unfolding resolve_all
  main_step name names count t types e h =
      let next : (count + 1) % 4294967296 ≡ count + 1 = omega (arith, h) in
      rw (e, resolve_all, next) refl

  -- What the loop gives for all further symbols
  abbrev pub Onwards : List Name → Type 0
  Onwards names =
      (off count : ℕ) (types : List FuncType)
      → base + (off + length names) ≤ 4294967296
      → count + length names < 4294967296
      → length types + length names < 4294967296
      → Resolved names off count types (resolve_all target names count types)

  step-Resolved :
      (name : Name) (names : List Name) (u : Target)
      → target name ≡ u
      → Onwards names
      → Onwards (name ∷ names)
  unfolding Resolved
  step-Resolved name names missing e rest off count types b c s =
      subst (Resolved (name ∷ names) off count types) (sym (missing_step name names count types e))
        (inl (e, refl))
  step-Resolved name names (known idx) e rest off count types b c s =
      subst (Resolved (name ∷ names) off count types)
        (sym (known_step name names count idx types e))
        (then-Resolved name names off off count count types types
          (resolve_all target names count types) _
          (λ l. known-Right name names off count idx types l e)
          (rest off count types (omega (arith, b)) (omega (arith, c)) (omega (arith, s))))
  step-Resolved name names (from_main t) e rest off count types b c s =
      let (x, at, size) = intern_type_lem t types (omega (arith, s)) in
      let types' = (intern_type t types).0 in
      subst (Resolved (name ∷ names) off count types)
        (sym (main_step name names count t types e (omega (arith, c))))
        (then-Resolved name names off (off + 1) count (count + 1) types types'
          (resolve_all target names (count + 1) types') _
          (λ l.
            main-Right name names off count (intern_type t types).1 t types types' l e
              (omega (arith, b)) x at)
          (rest (off + 1) (count + 1) types' (omega (arith, b)) (omega (arith, c))
            (omega (arith, s, size))))

  pub resolve_all-Resolved : (names : List Name) → Onwards names
  unfolding resolve_all Resolved table_indices placed_funcs need_table
  resolve_all-Resolved [] off count types b c s =
      (([], sym (append-nil types)), tt, (λ k h. absurd (omega (arith, h))), refl, refl)
  resolve_all-Resolved (name ∷ names) off count types b c s =
      step-Resolved name names (target name) refl (resolve_all-Resolved names) off count types b c s
