-- ===== src/Dyld/Linking/Interning.antt =====
-- internType of internal/runtime/dyld/wasm.go, and the loop of loader.go that interns the types of
-- imports.
use particles.Base.{
  ℕ, zero, suc, ◌+◌, ◌%◌, ◌<◌, ◌≤◌, ◌≡◌, refl, sym, ap, subst, ◌∙◌, Bool, true, false, Option, none,
  some, List, [], ◌∷◌, ◌++◌, length, length-append, append_assoc, append-nil, Option-cases, inl,
  inr, arith, if◌then◌else◌,
}
use particles.Base.Bytes.{name_eq_sound}
use particles.Dyld.Info.{FuncType, FuncImport, nth}
use particles.Dyld.Encoder.{bytes_type_eq, find_type, interned, intern_type}
use particles.Dyld.Linking.{Built, ok, err, consed, intern_all, type_out_of_range}

pub nth-append {ℓ} :
    {A : Type ℓ} (xs ys : List A) (i : ℕ) (a : A) → nth xs i ≡ some a → nth (xs ++ ys) i ≡ some a
unfolding nth
nth-append [] ys i a h = cc
nth-append (x ∷ xs) ys zero a h = h
nth-append (x ∷ xs) ys (suc i) a h = nth-append xs ys i a h

pub nth-length {ℓ} : {A : Type ℓ} (xs : List A) (a : A) → nth (xs ++ (a ∷ [])) (length xs) ≡ some a
unfolding nth
nth-length [] a = refl
nth-length (x ∷ xs) a = nth-length xs a

type_eq_sound : (a b : FuncType) → bytes_type_eq a b ≡ true → a ≡ b
unfolding bytes_type_eq
type_eq_sound a b h =
    let p = name_eq_sound a.params b.params in
    let r = name_eq_sound a.results b.results in ground (arith, h, p, r)

-- `new` continues the list `old`.
abbrev pub Extends {ℓ} : {A : Type ℓ} → List A → List A → Type ℓ
Extends old new = (more : List _) × (new ≡ old ++ more)

abbrev Found : FuncType → List FuncType → ℕ → Option ℕ → Type 0
Found ft types i none = Unit
Found ft types i (some k) = (j : ℕ) × (k ≡ i + j) × (nth types j ≡ some ft)

later-Found :
    (ft t : FuncType) (types : List FuncType) (i : ℕ) (o : Option ℕ)
    → Found ft types (i + 1) o
    → Found ft (t ∷ types) i o
unfolding nth
later-Found ft t types i none h = tt
later-Found ft t types i (some k) (j, e, at) = (suc j, omega (arith, e), at)

here-Found :
    (ft t : FuncType) (types : List FuncType) (i : ℕ) (b : Bool) (later : Option ℕ)
    → (b ≡ true → t ≡ ft)
    → i < 4294967296
    → Found ft types (i + 1) later
    → Found ft (t ∷ types) i (if b then some (i % 4294967296) else later)
unfolding nth
here-Found ft t types i true later same h k =
    (0, omega (arith, h), ap (λ (x : FuncType). some x) (same refl))
here-Found ft t types i false later same h k = later-Found ft t types i later k

find_type-Found :
    (ft : FuncType) (types : List FuncType) (i : ℕ)
    → i + length types ≤ 4294967296
    → Found ft types i (find_type ft types i)
unfolding find_type
find_type-Found ft [] i h = tt
find_type-Found ft (t ∷ types) i h =
    here-Found ft t types i (bytes_type_eq t ft) (find_type ft types (i + 1)) (type_eq_sound t ft)
      (omega (arith, h)) (find_type-Found ft types (i + 1) (omega (arith, h)))

interned_lem :
    (ft : FuncType) (types : List FuncType) (o : Option ℕ)
    → Found ft types 0 o
    → length types < 4294967296
    → Extends types (interned ft types o).0
      × (nth (interned ft types o).0 (interned ft types o).1 ≡ some ft)
      × (length (interned ft types o).0 ≤ suc (length types))
unfolding interned
interned_lem ft types (some k) (j, e, at) h =
    let e' : k ≡ j = omega (arith, e) in
    (([], sym (append-nil types)), ap (λ (x : ℕ). nth types x) e' ∙ at, omega arith)
interned_lem ft types none f h =
    let here : length types % 4294967296 ≡ length types = omega (arith, h) in
    (
      (ft ∷ [], refl),
      ap (λ (x : ℕ). nth (types ++ (ft ∷ [])) x) here ∙ nth-length types ft,
      omega (arith, length-append types (ft ∷ [])),
    )

-- The type is in the new list at the index, the old types keep theirs, and one is added at most.
pub intern_type_lem :
    (ft : FuncType) (types : List FuncType)
    → length types < 4294967296
    → Extends types (intern_type ft types).0
      × (nth (intern_type ft types).0 (intern_type ft types).1 ≡ some ft)
      × (length (intern_type ft types).0 ≤ suc (length types))
unfolding intern_type
intern_type_lem ft types h =
    interned_lem ft types (find_type ft types 0) (find_type-Found ft types 0 (omega (arith, h))) h

-- Each import has its type, that of the library, at its index in the list `final`.
abbrev pub HasTypes : List FuncType → List FuncType → List FuncImport → List ℕ → Type 0
HasTypes so_types final [] [] = Unit
HasTypes so_types final (fi ∷ imports) (i ∷ indices) =
    ((t : FuncType) × (nth so_types fi.type_idx ≡ some t) × (nth final i ≡ some t))
    × HasTypes so_types final imports indices
HasTypes so_types final _ _ = ⊥

unfoldable pub Interned :
    List FuncType → List FuncImport → List FuncType → Built (List FuncType × List ℕ) → Type 0
Interned so_types imports types (err e) = Unit
Interned so_types imports types (ok (types', indices)) =
    Extends types types'
    × HasTypes so_types types' imports indices
    × (length types' ≤ length types + length imports)

consed-Interned :
    (so_types types types' : List FuncType) (fi : FuncImport) (imports : List FuncImport)
    (t : FuncType) (i : ℕ) (rest : Built (List FuncType × List ℕ))
    → nth so_types fi.type_idx ≡ some t
    → Extends types types'
    → nth types' i ≡ some t
    → length types' ≤ suc (length types)
    → Interned so_types imports types' rest
    → Interned so_types (fi ∷ imports) types (consed i rest)
unfolding consed Interned
consed-Interned so_types types types' fi imports t i (err e) at (more, ext) here size h = tt
consed-Interned so_types types types' fi imports t i (ok (final, indices)) at (more, ext) here size
      ((more', ext'), typed, size') =
    (
      (
        more ++ more',
        ext' ∙ (ap (λ (l : List FuncType). l ++ more') ext ∙ append_assoc types more more'),
      ),
      ((t, at, ap (λ (l : List FuncType). nth l i) ext' ∙ nth-append types' more' i t here), typed),
      omega (arith, size, size'),
    )

missing_type :
    (so_types : List FuncType) (fi : FuncImport) (imports : List FuncImport) (types : List FuncType)
    → nth so_types fi.type_idx ≡ none
    → intern_all so_types (fi ∷ imports) types ≡ err (type_out_of_range fi.type_idx)
unfolding intern_all
missing_type so_types fi imports types e = ground (arith, e)

next_type :
    (so_types : List FuncType) (fi : FuncImport) (imports : List FuncImport) (types : List FuncType)
    (t : FuncType)
    → nth so_types fi.type_idx ≡ some t
    → intern_all so_types (fi ∷ imports) types
      ≡ consed (intern_type t types).1 (intern_all so_types imports (intern_type t types).0)
unfolding intern_all
next_type so_types fi imports types t e = ground (arith, e)

pub intern_all-Interned :
    (so_types : List FuncType) (imports : List FuncImport) (types : List FuncType)
    → length types + length imports < 4294967296
    → Interned so_types imports types (intern_all so_types imports types)
unfolding intern_all Interned
intern_all-Interned so_types [] types h = (([], sym (append-nil types)), tt, omega arith)
intern_all-Interned so_types (fi ∷ imports) types h =
    elim (Option-cases (nth so_types fi.type_idx)) [
      | inl e ↦
          subst (Interned so_types (fi ∷ imports) types)
            (sym (missing_type so_types fi imports types e)) tt
      | inr (t, e) ↦
          let (ext, here, size) = intern_type_lem t types (omega (arith, h)) in
          subst (Interned so_types (fi ∷ imports) types)
            (sym (next_type so_types fi imports types t e))
            (consed-Interned so_types types (intern_type t types).0 fi imports t
              (intern_type t types).1 (intern_all so_types imports (intern_type t types).0) e ext
              here size
              (intern_all-Interned so_types imports (intern_type t types).0
                (omega (arith, h, size))))
    ]
