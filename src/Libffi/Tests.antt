-- ===== src/Libffi/Tests.antt =====
-- Descriptors of C functions.
use particles.Base.{ℕ, ◌≡◌, ◌↔◌, refl, false, List, [], ◌∷◌}
use particles.Libffi.{
  i32, f64, ParsedType, void, primitive, struct_flat, ParsedSig, ok, parse_sig, byte_size,
  lowered_valtypes,
}
use particles.Libffi.Descriptor.{IsDescriptor, parse_sig_iff}

-- void f(int, struct { int; double; })
abbrev two_params : ParsedSig
two_params = record {
  varargs = false;
  n_fixed_args = 2;
  returns = void;
  params = primitive i32 ∷ struct_flat (i32 ∷ f64 ∷ []) ∷ [];
}

abbrev descriptor : List ℕ
descriptor = 0 ∷ 2 ∷ 0 ∷ 2 ∷ 127 ∷ 18 ∷ 2 ∷ 127 ∷ 124 ∷ []

parsed : parse_sig descriptor ≡ ok two_params
unfolding parse_sig particles.Libffi.parse_type particles.Libffi.parse_params
    particles.Libffi.primitive_of particles.Libffi.parse_fields
parsed = refl

parse_sig_iff_example : (parse_sig descriptor ≡ ok two_params) ↔ IsDescriptor descriptor two_params
parse_sig_iff_example = parse_sig_iff descriptor two_params
