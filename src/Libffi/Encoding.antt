-- ===== src/Libffi/Encoding.antt =====
-- The layout of a descriptor of internal/runtime/libffi/sig.go, and the parser on it.
use particles.Base.{
  ℕ, suc, ◌+◌, ◌≡◌, refl, sym, ap, ◌∙◌, Bool, true, false, List, [], ◌∷◌, ◌++◌, length,
  if◌then◌else◌, map, append_assoc, append-nil,
}
use particles.Libffi.{
  Primitive, i32, i64, f32, f64, ParsedType, void, long_double, primitive, struct_flat, ParsedSig,
  Parsed, ok, err, byte_of, primitive_of, TypeError, SigError, param, add_field, field_or_error,
  parse_fields, struct_of, parse_struct, primitive_or_error, parse_type, add_param, parse_params,
  finish, after_return, after_nfixed, parse_sig,
}

-- The specification: the layout of the descriptor.
abbrev pub encode_type : ParsedType → List ℕ
encode_type void = 0 ∷ []
encode_type long_double = 16 ∷ []
encode_type (primitive t) = byte_of t ∷ []
encode_type (struct_flat fields) = 18 ∷ length fields ∷ map byte_of fields

abbrev pub encode_types : List ParsedType → List ℕ
encode_types [] = []
encode_types (t ∷ types) = encode_type t ++ encode_types types

abbrev pub encode_sig : ParsedSig → List ℕ
encode_sig s =
    (if s.varargs then 1 else 0)
    ∷ s.n_fixed_args
    ∷ (encode_type s.returns ++ (length s.params ∷ encode_types s.params))

parse_fields-encode :
    (fields : List Primitive) (i : ℕ) (rest : List ℕ)
    → parse_fields (length fields) i (map byte_of fields ++ rest) ≡ ok (fields, rest)
unfolding parse_fields field_or_error add_field primitive_of byte_of
parse_fields-encode [] i rest = refl
parse_fields-encode (i32 ∷ fields) i rest =
    ap (λ o. add_field o i32) (parse_fields-encode fields (i + 1) rest)
parse_fields-encode (i64 ∷ fields) i rest =
    ap (λ o. add_field o i64) (parse_fields-encode fields (i + 1) rest)
parse_fields-encode (f32 ∷ fields) i rest =
    ap (λ o. add_field o f32) (parse_fields-encode fields (i + 1) rest)
parse_fields-encode (f64 ∷ fields) i rest =
    ap (λ o. add_field o f64) (parse_fields-encode fields (i + 1) rest)

parse_type-encode :
    (t : ParsedType) (rest : List ℕ) → parse_type (encode_type t ++ rest) ≡ ok (t, rest)
unfolding parse_type parse_struct struct_of primitive_or_error primitive_of byte_of
parse_type-encode void rest = refl
parse_type-encode long_double rest = refl
parse_type-encode (primitive i32) rest = refl
parse_type-encode (primitive i64) rest = refl
parse_type-encode (primitive f32) rest = refl
parse_type-encode (primitive f64) rest = refl
parse_type-encode (struct_flat fields) rest = ap struct_of (parse_fields-encode fields 0 rest)

unfoldable pub with_param :
    ℕ → ℕ → Parsed TypeError (ParsedType × List ℕ) → Parsed SigError (List ParsedType × List ℕ)
with_param n i (err e) = err (param i e)
with_param n i (ok p) = add_param p.0 (parse_params n (i + 1) p.1)

pub parse_params-step :
    (n i : ℕ) (bytes : List ℕ) (o : Parsed TypeError (ParsedType × List ℕ))
    → parse_type bytes ≡ o
    → parse_params (suc n) i bytes ≡ with_param n i o
unfolding parse_params with_param
parse_params-step n i bytes (err x) e = ap (with_param n i) e
parse_params-step n i bytes (ok p) e = ap (with_param n i) e

parse_params-encode :
    (types : List ParsedType) (i : ℕ) (rest : List ℕ)
    → parse_params (length types) i (encode_types types ++ rest) ≡ ok (types, rest)
unfolding parse_params with_param
parse_params-encode [] i rest = refl
parse_params-encode (t ∷ types) i rest =
    ap (parse_params (suc (length types)) i)
      (append_assoc (encode_type t) (encode_types types) rest)
    ∙ parse_params-step (length types) i (encode_type t ++ (encode_types types ++ rest))
        (ok (t, encode_types types ++ rest)) (parse_type-encode t (encode_types types ++ rest))
    ∙ ap (add_param t) (parse_params-encode types (i + 1) rest)

after_nfixed-encode :
    (header nfixed : ℕ) (t : ParsedType) (types : List ParsedType)
    → after_nfixed header nfixed (parse_type (encode_type t ++ (length types ∷ encode_types types)))
      ≡ finish header nfixed t (ok (types, []))
unfolding after_nfixed after_return
after_nfixed-encode header nfixed t types =
    ap (after_nfixed header nfixed) (parse_type-encode t (length types ∷ encode_types types))
    ∙ ap (finish header nfixed t) (
        ap (parse_params (length types) 0) (sym (append-nil (encode_types types)))
        ∙ parse_params-encode types 0 [])

pub parse_sig-encode :
    (varargs : Bool) (nfixed : ℕ) (t : ParsedType) (types : List ParsedType)
    → parse_sig (
        encode_sig
          (record { varargs = varargs; n_fixed_args = nfixed; returns = t; params = types }))
      ≡ ok (record {
        varargs = varargs;
        n_fixed_args = if varargs then nfixed else length types;
        returns = t;
        params = types;
      })
unfolding parse_sig finish
parse_sig-encode true nfixed t types = after_nfixed-encode 1 nfixed t types
parse_sig-encode false nfixed t types = after_nfixed-encode 0 nfixed t types
