-- ===== src/Dyld/Linking/EnvLists.antt =====
-- The lists of imports and exports of the environment module of internal/runtime/dyld/loader.go.
use particles.Base.{
  ℕ, zero, suc, ◌+◌, ◌%◌, ◌≤◌, ◌≡◌, refl, ap, ◌∙◌, some, List, [], ◌∷◌, ◌++◌, length, arith,
}
use particles.Dyld.Names.{Name}
use particles.Dyld.Info.{FuncType, FuncImport, nth}
use particles.Dyld.Encoder.{EnvImport}
use particles.Dyld.Linking.{func_import, func_env_imports, named_exports, export_as}
use particles.Dyld.Linking.Interning.{HasTypes, Extends, nth-append}

pub nth-append_right {ℓ} :
    {A : Type ℓ} (xs ys : List A) (i : ℕ) → nth (xs ++ ys) (length xs + i) ≡ nth ys i
unfolding nth
nth-append_right [] ys i = let e : 0 + i ≡ i = omega arith in ap (λ (k : ℕ). nth ys k) e
nth-append_right (x ∷ xs) ys i =
    let e : suc (length xs) + i ≡ suc (length xs + i) = omega arith in
    ap (λ (k : ℕ). nth (x ∷ (xs ++ ys)) k) e ∙ nth-append_right xs ys i

pub length-named_exports :
    (kind i : ℕ) (imports : List FuncImport)
    → length (named_exports kind i imports) ≡ length imports
unfolding named_exports
length-named_exports kind i [] = refl
length-named_exports kind i (fi ∷ imports) =
    ap (λ (k : ℕ). suc k) (length-named_exports kind (i + 1) imports)

pub nth-named_exports :
    (kind i : ℕ) (imports : List FuncImport) (j : ℕ) (fi : FuncImport)
    → i + length imports ≤ 4294967296
    → nth imports j ≡ some fi
    → nth (named_exports kind i imports) j ≡ some (export_as fi.name kind (i + j))
unfolding named_exports nth
nth-named_exports kind i [] j fi h at = cc
nth-named_exports kind i (f ∷ imports) zero fi h at =
    let here : i % 4294967296 ≡ i + 0 = omega (arith, h) in ground (arith, at, here)
nth-named_exports kind i (f ∷ imports) (suc j) fi h at =
    let e : (i + 1) + j ≡ i + suc j = omega arith in
    nth-named_exports kind (i + 1) imports j fi (omega (arith, h)) at
    ∙ ap (λ (k : ℕ). some (export_as fi.name kind k)) e

-- The import of a function: from its source, under its name, with its type
pub record ImportsFunc (so_types final : List FuncType) (sources : List Name)
    (imports : List EnvImport) (j : ℕ) (fi : FuncImport) : Type 0 where
  pub source : Name
  pub idx : ℕ
  pub type_of : FuncType
  pub from : nth sources j ≡ some source
  pub imported : nth imports j ≡ some (func_import source fi.name idx)
  pub declared : nth so_types fi.type_idx ≡ some type_of
  pub interned : nth final idx ≡ some type_of

pub func_env_imports-ImportsFunc :
    (so_types final : List FuncType) (imports : List FuncImport) (sources : List Name)
    (indices : List ℕ) (j : ℕ) (fi : FuncImport)
    → length sources ≡ length imports
    → HasTypes so_types final imports indices
    → nth imports j ≡ some fi
    → ImportsFunc so_types final sources (func_env_imports imports sources indices) j fi
unfolding func_env_imports nth
func_env_imports-ImportsFunc so_types final [] sources indices j fi e h at = cc
func_env_imports-ImportsFunc so_types final (f ∷ imports) [] indices j fi e h at =
    absurd (omega (arith, e))
func_env_imports-ImportsFunc so_types final (f ∷ imports) (source ∷ sources) [] j fi e h at =
    elim h [ ]
func_env_imports-ImportsFunc so_types final (f ∷ imports) (source ∷ sources) (i ∷ indices) zero fi e
      ((t, d, n), h) at =
    record {
      source = source;
      idx = i;
      type_of = t;
      from = refl;
      imported = ground (arith, at);
      declared = ground (arith, at, d);
      interned = n;
    }
func_env_imports-ImportsFunc so_types final (f ∷ imports) (source ∷ sources) (i ∷ indices) (suc j)
      fi e (p, h) at =
    let deeper =
      func_env_imports-ImportsFunc so_types final imports sources indices j fi (omega (arith, e)) h
        at in
    record {
      source = deeper.source;
      idx = deeper.idx;
      type_of = deeper.type_of;
      from = deeper.from;
      imported = deeper.imported;
      declared = deeper.declared;
      interned = deeper.interned;
    }

-- Types stay where they are when the list goes on.
pub HasTypes-Extends :
    (so_types types final : List FuncType) (imports : List FuncImport) (indices : List ℕ)
    → Extends types final
    → HasTypes so_types types imports indices
    → HasTypes so_types final imports indices
HasTypes-Extends so_types types final [] [] x h = tt
HasTypes-Extends so_types types final [] (i ∷ indices) x h = elim h [ ]
HasTypes-Extends so_types types final (fi ∷ imports) [] x h = elim h [ ]
HasTypes-Extends so_types types final (fi ∷ imports) (i ∷ indices) (more, x) ((t, d, n), h) = (
  (t, d, ap (λ (l : List FuncType). nth l i) x ∙ nth-append types more i t n),
  HasTypes-Extends so_types types final imports indices (more, x) h,
)

pub ImportsFunc-append :
    (so_types final : List FuncType) (sources : List Name) (imports more : List EnvImport) (j : ℕ)
    (fi : FuncImport)
    → ImportsFunc so_types final sources imports j fi
    → ImportsFunc so_types final sources (imports ++ more) j fi
ImportsFunc-append so_types final sources imports more j fi h = record {
  source = h.source;
  idx = h.idx;
  type_of = h.type_of;
  from = h.from;
  imported = nth-append imports more j (func_import h.source fi.name h.idx) h.imported;
  declared = h.declared;
  interned = h.interned;
}

pub HasTypes-nth :
    (so_types final : List FuncType) (imports : List FuncImport) (indices : List ℕ) (j : ℕ)
    (fi : FuncImport)
    → HasTypes so_types final imports indices
    → nth imports j ≡ some fi
    → (idx : ℕ) × (t : FuncType) × (nth indices j ≡ some idx)
      × (nth so_types fi.type_idx ≡ some t)
      × (nth final idx ≡ some t)
unfolding nth
HasTypes-nth so_types final [] [] j fi h at = cc
HasTypes-nth so_types final [] (i ∷ indices) j fi h at = elim h [ ]
HasTypes-nth so_types final (f ∷ imports) [] j fi h at = elim h [ ]
HasTypes-nth so_types final (f ∷ imports) (i ∷ indices) zero fi ((t, d, n), h) at =
    (i, t, refl, ground (arith, at, d), n)
HasTypes-nth so_types final (f ∷ imports) (i ∷ indices) (suc j) fi (p, h) at =
    HasTypes-nth so_types final imports indices j fi h at
