-- ===== src/Libffi/Sound.antt =====
-- The parser of types of internal/runtime/libffi/sig.go, from what it accepts to the layout.
use particles.Base.{
  ℕ, suc, zero, ◌+◌, ◌≡◌, refl, ap, subst, ◌∙◌, Bool, true, false, List, [], ◌∷◌, ◌++◌, length,
  ◌==◌, if◌then◌else◌, map, arith,
}
use particles.Libffi.{
  Primitive, ParsedType, void, long_double, primitive, struct_flat, Parsed, ok, err, byte_of,
  primitive_of, TypeError, add_field, field_or_error, parse_fields, struct_of, parse_struct,
  primitive_or_error, parse_type,
}
use particles.Libffi.Encoding.{encode_type}

primitive_of_sound : (b : ℕ) (t : Primitive) → primitive_of b ≡ ok t → b ≡ byte_of t
unfolding primitive_of byte_of
primitive_of_sound b t h = ground arith

value_or : {E A : Type 0} → A → Parsed E A → A
value_or a (ok x) = x
value_or a (err e) = a

pub ok_injective : {E A : Type 0} (a b : A) → ◌≡◌ {A = Parsed E A} (ok a) (ok b) → a ≡ b
unfolding value_or
ok_injective a b h = ap (value_or a) h

pub if_ok :
    {E A : Type 0} (P : A → Type 0) (c : Bool) (x y : Parsed E A) (a : A)
    → (c ≡ true → x ≡ ok a → P a)
    → (c ≡ false → y ≡ ok a → P a)
    → (if c then x else y) ≡ ok a
    → P a
if_ok P true x y a h k e = h refl e
if_ok P false x y a h k e = k refl e

abbrev FieldsFrom : ℕ → List ℕ → List Primitive × List ℕ → Type 0
FieldsFrom n bytes (fields, rest) = (n ≡ length fields) × (bytes ≡ map byte_of fields ++ rest)

field_sound :
    (n i b : ℕ) (bytes : List ℕ) (o : Parsed (Unit {0}) Primitive)
    (others : Parsed TypeError (List Primitive × List ℕ)) (p : List Primitive × List ℕ)
    → primitive_of b ≡ o
    → ((q : List Primitive × List ℕ) → others ≡ ok q → FieldsFrom n bytes q)
    → field_or_error i b o others ≡ ok p
    → FieldsFrom (suc n) (b ∷ bytes) p
unfolding field_or_error add_field
field_sound n i b bytes (err u) others p e k h = cc
field_sound n i b bytes (ok t) (err x) p e k h = cc
field_sound n i b bytes (ok t) (ok (fields, rest)) p e k h =
    let (count, shape) = k (fields, rest) refl in
    subst (FieldsFrom (suc n) (b ∷ bytes)) (ok_injective (t ∷ fields, rest) p h) (
      ground (arith, count),
      ap (λ (x : ℕ). x ∷ bytes) (primitive_of_sound b t e)
          ∙ ap (λ (l : List ℕ). byte_of t ∷ l) shape,
    )

parse_fields_sound :
    (n i : ℕ) (bytes : List ℕ) (p : List Primitive × List ℕ)
    → parse_fields n i bytes ≡ ok p
    → FieldsFrom n bytes p
unfolding parse_fields
parse_fields_sound zero i bytes p h =
    subst (FieldsFrom zero bytes) (ok_injective ([], bytes) p h) (refl, refl)
parse_fields_sound (suc n) i [] p h = cc
parse_fields_sound (suc n) i (b ∷ bytes) p h =
    field_sound n i b bytes (primitive_of b) (parse_fields n (i + 1) bytes) p refl
      (λ q e. parse_fields_sound n (i + 1) bytes q e) h

abbrev pub TypeFrom : List ℕ → ParsedType × List ℕ → Type 0
TypeFrom bytes (t, rest) = bytes ≡ encode_type t ++ rest

struct_of_sound :
    (n : ℕ) (bytes : List ℕ) (o : Parsed TypeError (List Primitive × List ℕ))
    (p : ParsedType × List ℕ)
    → ((q : List Primitive × List ℕ) → o ≡ ok q → FieldsFrom n bytes q)
    → struct_of o ≡ ok p
    → TypeFrom (18 ∷ n ∷ bytes) p
unfolding struct_of
struct_of_sound n bytes (err e) p k h = cc
struct_of_sound n bytes (ok (fields, rest)) p k h =
    let (count, shape) = k (fields, rest) refl in
    subst (TypeFrom (18 ∷ n ∷ bytes)) (ok_injective (struct_flat fields, rest) p h)
      (ap (λ (x : ℕ). 18 ∷ x ∷ bytes) count ∙ ap (λ (l : List ℕ). 18 ∷ length fields ∷ l) shape)

parse_struct_sound :
    (bytes : List ℕ) (p : ParsedType × List ℕ) → parse_struct bytes ≡ ok p → TypeFrom (18 ∷ bytes) p
unfolding parse_struct
parse_struct_sound [] p h = cc
parse_struct_sound (n ∷ bytes) p h =
    struct_of_sound n bytes (parse_fields n 0 bytes) p (parse_fields_sound n 0 bytes) h

primitive_or_error_sound :
    (b : ℕ) (bytes : List ℕ) (o : Parsed (Unit {0}) Primitive) (p : ParsedType × List ℕ)
    → primitive_of b ≡ o
    → primitive_or_error b bytes o ≡ ok p
    → TypeFrom (b ∷ bytes) p
unfolding primitive_or_error
primitive_or_error_sound b bytes (err u) p e h = cc
primitive_or_error_sound b bytes (ok t) p e h =
    subst (TypeFrom (b ∷ bytes)) (ok_injective (primitive t, bytes) p h)
      (ap (λ (x : ℕ). x ∷ bytes) (primitive_of_sound b t e))

byte_is : (b c : ℕ) → (b == c) ≡ true → c ≡ b
byte_is b c h = ground (arith, h)

pub parse_type_sound :
    (bytes : List ℕ) (p : ParsedType × List ℕ) → parse_type bytes ≡ ok p → TypeFrom bytes p
unfolding parse_type
parse_type_sound [] p h = cc
parse_type_sound (b ∷ bytes) p h =
    if_ok (TypeFrom (b ∷ bytes)) (b == 0) _ _ p
      (λ c e.
        subst (λ (x : ℕ). TypeFrom (x ∷ bytes) p) (byte_is b 0 c)
          (subst (TypeFrom (0 ∷ bytes)) (ok_injective (void, bytes) p e) refl))
      (λ no e.
        if_ok (TypeFrom (b ∷ bytes)) (b == 16) _ _ p
          (λ c e'.
            subst (λ (x : ℕ). TypeFrom (x ∷ bytes) p) (byte_is b 16 c)
              (subst (TypeFrom (16 ∷ bytes)) (ok_injective (long_double, bytes) p e') refl))
          (λ no' e'.
            if_ok (TypeFrom (b ∷ bytes)) (b == 18) _ _ p
              (λ c e''.
                subst (λ (x : ℕ). TypeFrom (x ∷ bytes) p) (byte_is b 18 c)
                  (parse_struct_sound bytes p e''))
              (λ no'' e''. primitive_or_error_sound b bytes (primitive_of b) p refl e'') e')
          e)
      h
