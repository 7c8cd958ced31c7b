-- ===== src/Libffi/Lowering.antt =====
-- Theorems on LoweredValtypes and ByteSize of internal/runtime/libffi/sig.go.
use particles.Base.{ℕ, ◌≡◌, refl, sym, List, [], ◌∷◌, map, ◌==◌, if◌then◌else◌, arith, sum_of}
use particles.Libffi.{
  Primitive, i32, i64, f32, f64, ParsedType, void, long_double, primitive, struct_flat, byte_of,
  lowered_valtypes, byte_size, primitive_size, sizes,
}

-- The size of a wasm value, by the byte of its type.
abbrev pub valtype_size : ℕ → ℕ
valtype_size b = if (b == 127) then 4 else if b == 125 then 4 else 8

sum_of-fields : (fields : List Primitive) → sum_of valtype_size (map byte_of fields) ≡ sizes fields
unfolding byte_of primitive_size sizes
sum_of-fields [] = refl
sum_of-fields (i32 ∷ fields) = omega (arith, sum_of-fields fields)
sum_of-fields (i64 ∷ fields) = omega (arith, sum_of-fields fields)
sum_of-fields (f32 ∷ fields) = omega (arith, sum_of-fields fields)
sum_of-fields (f64 ∷ fields) = omega (arith, sum_of-fields fields)

-- The size of a type is the sum of the sizes of the wasm values that it is lowered to.
pub byte_size-lowered_valtypes :
    (t : ParsedType) → byte_size t ≡ sum_of valtype_size (lowered_valtypes t)
unfolding byte_size lowered_valtypes byte_of primitive_size
byte_size-lowered_valtypes void = refl
byte_size-lowered_valtypes long_double = refl
byte_size-lowered_valtypes (primitive i32) = refl
byte_size-lowered_valtypes (primitive i64) = refl
byte_size-lowered_valtypes (primitive f32) = refl
byte_size-lowered_valtypes (primitive f64) = refl
byte_size-lowered_valtypes (struct_flat fields) = sym (sum_of-fields fields)
