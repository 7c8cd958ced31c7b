-- ===== src/Libffi.antt =====
-- internal/runtime/libffi/sig.go: the descriptor of a C function's signature and its parser. A
-- reader is the list of the bytes that are left.
pub mod Encoding
pub mod Sound
pub mod Descriptor
pub mod Lowering
mod Tests
use particles.Base.{
  ℕ, suc, zero, ◌+◌, Bool, true, false, not, ◌&&◌, List, [], ◌∷◌, length, leb, ◌==◌, if◌then◌else◌,
  map, ◌++◌,
}

pub data Primitive : Type 0 where
  i32 i64 f32 f64 : Primitive

-- ParsedType: its Kind, with the FlatFields of a flattened struct
pub data ParsedType : Type 0 where
  void long_double : ParsedType
  primitive : Primitive → ParsedType
  struct_flat : List Primitive → ParsedType

pub record ParsedSig : Type 0 where
  pub varargs : Bool
  pub n_fixed_args : ℕ
  pub returns : ParsedType
  pub params : List ParsedType

pub data TypeError : Type 0 where
  type_end nfields_end : TypeError
  field_end : (index : ℕ) → TypeError
  nested_aggregate : (index byte : ℕ) → TypeError
  unknown_type : (byte : ℕ) → TypeError

pub data SigError : Type 0 where
  header_end nfixed_end nparams_end : SigError
  reserved_bits : (header : ℕ) → SigError
  return_type : TypeError → SigError
  param : (index : ℕ) → TypeError → SigError
  trailing_bytes : ℕ → SigError

pub data Parsed {ℓ} (E A : Type ℓ) : Type ℓ where
  ok : A → Parsed E A
  err : E → Parsed E A

-- TyI32, TyI64, TyF32, TyF64
unfoldable pub byte_of : Primitive → ℕ
byte_of i32 = 127
byte_of i64 = 126
byte_of f32 = 125
byte_of f64 = 124

unfoldable pub primitive_of : ℕ → Parsed (Unit {0}) Primitive
primitive_of b =
    if b == 127
    then ok i32
    else if b == 126
    then ok i64
    else if b == 125
    then ok f32
    else if b == 124
    then ok f64
    else err tt

pub add_field :
    Parsed TypeError (List Primitive × List ℕ)
    → Primitive
    → Parsed TypeError (List Primitive × List ℕ)
add_field (err e) t = err e
add_field (ok (fields, rest)) t = ok (t ∷ fields, rest)

pub field_or_error :
    ℕ
    → ℕ
    → Parsed (Unit {0}) Primitive
    → Parsed TypeError (List Primitive × List ℕ)
    → Parsed TypeError (List Primitive × List ℕ)
unfolding add_field
field_or_error i b (err u) others = err (nested_aggregate i b)
field_or_error i b (ok t) others = add_field others t

-- The fields of a flattened struct, from the `i`-th on: `n` of them are left.
unfoldable pub parse_fields : ℕ → ℕ → List ℕ → Parsed TypeError (List Primitive × List ℕ)
unfolding field_or_error
parse_fields zero i bytes = ok ([], bytes)
parse_fields (suc n) i [] = err (field_end i)
parse_fields (suc n) i (b ∷ bytes) =
    field_or_error i b (primitive_of b) (parse_fields n (i + 1) bytes)

pub struct_of : Parsed TypeError (List Primitive × List ℕ) → Parsed TypeError (ParsedType × List ℕ)
struct_of (err e) = err e
struct_of (ok (fields, rest)) = ok (struct_flat fields, rest)

pub parse_struct : List ℕ → Parsed TypeError (ParsedType × List ℕ)
unfolding struct_of
parse_struct [] = err nfields_end
parse_struct (n ∷ bytes) = struct_of (parse_fields n 0 bytes)

pub primitive_or_error :
    ℕ → List ℕ → Parsed (Unit {0}) Primitive → Parsed TypeError (ParsedType × List ℕ)
primitive_or_error b bytes (ok t) = ok (primitive t, bytes)
primitive_or_error b bytes (err u) = err (unknown_type b)

unfoldable pub parse_type : List ℕ → Parsed TypeError (ParsedType × List ℕ)
unfolding parse_struct primitive_or_error
parse_type [] = err type_end
parse_type (b ∷ bytes) =
    if b == 0
    then ok (void, bytes)
    else if b == 16
    then ok (long_double, bytes)
    else if b == 18
    then parse_struct bytes
    else primitive_or_error b bytes (primitive_of b)

pub add_param :
    ParsedType
    → Parsed SigError (List ParsedType × List ℕ)
    → Parsed SigError (List ParsedType × List ℕ)
add_param t (err e) = err e
add_param t (ok (types, rest)) = ok (t ∷ types, rest)

-- `n` parameters are left, from the `i`-th on.
unfoldable pub parse_params : ℕ → ℕ → List ℕ → Parsed SigError (List ParsedType × List ℕ)
unfolding add_param
parse_params zero i bytes = ok ([], bytes)
parse_params (suc n) i bytes = elim (parse_type bytes) [
  | err e ↦ err (param i e)
  | ok p ↦ add_param p.0 (parse_params n (i + 1) p.1)
]

-- What ParseSig answers once all parts are read: the count of fixed arguments is normalized where
-- there are no variable ones.
pub finish :
    ℕ → ℕ → ParsedType → Parsed SigError (List ParsedType × List ℕ) → Parsed SigError ParsedSig
finish header nfixed returns (err e) = err e
finish header nfixed returns (ok (params, b ∷ rest)) = err (trailing_bytes (suc (length rest)))
finish header nfixed returns (ok (params, [])) =
    let varargs = header == 1 in
    ok (record {
      varargs = varargs;
      n_fixed_args = if varargs then nfixed else length params;
      returns = returns;
      params = params;
    })

pub after_return : ℕ → ℕ → ParsedType → List ℕ → Parsed SigError ParsedSig
unfolding finish
after_return header nfixed returns [] = err nparams_end
after_return header nfixed returns (n ∷ bytes) =
    finish header nfixed returns (parse_params n 0 bytes)

pub after_nfixed : ℕ → ℕ → Parsed TypeError (ParsedType × List ℕ) → Parsed SigError ParsedSig
unfolding after_return
after_nfixed header nfixed (err e) = err (return_type e)
after_nfixed header nfixed (ok (t, bytes)) = after_return header nfixed t bytes

-- ParseSig
unfoldable pub parse_sig : List ℕ → Parsed SigError ParsedSig
unfolding after_nfixed
parse_sig [] = err header_end
parse_sig (header ∷ bytes) = if leb 2 header then err (reserved_bits header) else elim bytes [
  | [] ↦ err nfixed_end
  | nfixed ∷ rest ↦ after_nfixed header nfixed (parse_type rest)
]

-- LoweredValtypes
unfoldable pub lowered_valtypes : ParsedType → List ℕ
lowered_valtypes void = []
lowered_valtypes (primitive t) = byte_of t ∷ []
lowered_valtypes long_double = byte_of i64 ∷ byte_of i64 ∷ []
lowered_valtypes (struct_flat fields) = map byte_of fields

unfoldable pub primitive_size : Primitive → ℕ
primitive_size i32 = 4
primitive_size f32 = 4
primitive_size i64 = 8
primitive_size f64 = 8

unfoldable pub sizes : List Primitive → ℕ
sizes [] = 0
sizes (t ∷ fields) = primitive_size t + sizes fields

-- ByteSize
unfoldable pub byte_size : ParsedType → ℕ
byte_size void = 0
byte_size long_double = 16
byte_size (primitive t) = primitive_size t
byte_size (struct_flat fields) = sizes fields
