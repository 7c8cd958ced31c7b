-- ===== src/Libffi/Descriptor.antt =====
-- The parser of descriptors of internal/runtime/libffi/sig.go, from what it accepts to the layout.
use particles.Base.{
  ℕ, suc, zero, ◌+◌, ◌≡◌, ◌↔◌, refl, sym, ap, subst, ◌∙◌, false, List, [], ◌∷◌, ◌++◌, length, leb,
  ◌==◌, if◌then◌else◌, append_assoc, append-nil, arith,
}
use particles.Libffi.{
  ParsedType, ParsedSig, Parsed, ok, err, TypeError, SigError, parse_type, add_param, parse_params,
  finish, after_return, after_nfixed, parse_sig,
}
use particles.Libffi.Encoding.{
  encode_type, encode_types, encode_sig, parse_sig-encode, with_param, parse_params-step,
}
use particles.Libffi.Sound.{TypeFrom, ok_injective, if_ok, parse_type_sound}

abbrev bit : ℕ → ℕ
bit header = if header == 1 then 1 else 0

abbrev TypesFrom : ℕ → List ℕ → List ParsedType × List ℕ → Type 0
TypesFrom n bytes (types, rest) = (n ≡ length types) × (bytes ≡ encode_types types ++ rest)

add_param_sound :
    (n : ℕ) (t : ParsedType) (bytes others : List ℕ)
    (o : Parsed SigError (List ParsedType × List ℕ)) (p : List ParsedType × List ℕ)
    → bytes ≡ encode_type t ++ others
    → ((q : List ParsedType × List ℕ) → o ≡ ok q → TypesFrom n others q)
    → add_param t o ≡ ok p
    → TypesFrom (suc n) bytes p
unfolding add_param
add_param_sound n t bytes others (err e) p shape k h = cc
add_param_sound n t bytes others (ok (types, rest)) p shape k h =
    let (count, more) = k (types, rest) refl in
    subst (TypesFrom (suc n) bytes) (ok_injective (t ∷ types, rest) p h) (
      ap suc count,
      shape
          ∙ (ap (λ (l : List ℕ). encode_type t ++ l) more
              ∙ sym (append_assoc (encode_type t) (encode_types types) rest)),
    )

with_param_sound :
    (n i : ℕ) (bytes : List ℕ) (o : Parsed TypeError (ParsedType × List ℕ))
    (p : List ParsedType × List ℕ)
    → ((q : ParsedType × List ℕ) → o ≡ ok q → TypeFrom bytes q)
    → ((others : List ℕ) (q : List ParsedType × List ℕ)
        → parse_params n (i + 1) others ≡ ok q
        → TypesFrom n others q)
    → with_param n i o ≡ ok p
    → TypesFrom (suc n) bytes p
unfolding with_param
with_param_sound n i bytes (err e) p k m h = cc
with_param_sound n i bytes (ok (t, others)) p k m h =
    add_param_sound n t bytes others (parse_params n (i + 1) others) p (k (t, others) refl)
      (m others) h

parse_params_sound :
    (n i : ℕ) (bytes : List ℕ) (p : List ParsedType × List ℕ)
    → parse_params n i bytes ≡ ok p
    → TypesFrom n bytes p
unfolding parse_params
parse_params_sound zero i bytes p h =
    subst (TypesFrom zero bytes) (ok_injective ([], bytes) p h) (refl, refl)
parse_params_sound (suc n) i bytes p h =
    with_param_sound n i bytes (parse_type bytes) p (parse_type_sound bytes)
      (λ others q e. parse_params_sound n (i + 1) others q e)
      (sym (parse_params-step n i bytes (parse_type bytes) refl) ∙ h)

-- The bytes are the descriptor of the signature, with some count of fixed arguments, which stands
-- for itself where there are variable arguments and for nothing where there are none.
abbrev pub IsDescriptor : List ℕ → ParsedSig → Type 0
IsDescriptor bytes s =
    (nfixed : ℕ) × (bytes ≡ encode_sig (record s { n_fixed_args = nfixed }))
    × (s.n_fixed_args ≡ (if s.varargs then nfixed else length s.params))

header_bit : (header : ℕ) → leb 2 header ≡ false → header ≡ (if header == 1 then 1 else 0)
header_bit header h = ground (arith, h)

finish_sound :
    (header nfixed n : ℕ) (t : ParsedType) (bytes : List ℕ)
    (o : Parsed SigError (List ParsedType × List ℕ)) (s : ParsedSig)
    → leb 2 header ≡ false
    → ((q : List ParsedType × List ℕ) → o ≡ ok q → TypesFrom n bytes q)
    → finish header nfixed t o ≡ ok s
    → IsDescriptor (header ∷ nfixed ∷ (encode_type t ++ (n ∷ bytes))) s
unfolding finish
finish_sound header nfixed n t bytes (err e) s small k h = cc
finish_sound header nfixed n t bytes (ok (types, b ∷ rest)) s small k h = cc
finish_sound header nfixed n t bytes (ok (types, [])) s small k h =
    let (count, shape) = k (types, []) refl in
    subst (IsDescriptor (header ∷ nfixed ∷ (encode_type t ++ (n ∷ bytes)))) (ok_injective _ s h) (
      nfixed,
      ap (λ (x : ℕ). x ∷ nfixed ∷ (encode_type t ++ (n ∷ bytes))) (header_bit header small)
          ∙ (ap (λ (x : ℕ). bit header ∷ nfixed ∷ (encode_type t ++ (x ∷ bytes))) count
              ∙ ap (λ (l : List ℕ). bit header ∷ nfixed ∷ (encode_type t ++ (length types ∷ l)))
                  (shape ∙ append-nil (encode_types types))),
      refl,
    )

after_return_sound :
    (header nfixed : ℕ) (t : ParsedType) (bytes : List ℕ) (s : ParsedSig)
    → leb 2 header ≡ false
    → after_return header nfixed t bytes ≡ ok s
    → IsDescriptor (header ∷ nfixed ∷ (encode_type t ++ bytes)) s
unfolding after_return
after_return_sound header nfixed t [] s small h = cc
after_return_sound header nfixed t (n ∷ bytes) s small h =
    finish_sound header nfixed n t bytes (parse_params n 0 bytes) s small
      (parse_params_sound n 0 bytes) h

after_nfixed_sound :
    (header nfixed : ℕ) (bytes : List ℕ) (o : Parsed TypeError (ParsedType × List ℕ))
    (s : ParsedSig)
    → leb 2 header ≡ false
    → ((q : ParsedType × List ℕ) → o ≡ ok q → TypeFrom bytes q)
    → after_nfixed header nfixed o ≡ ok s
    → IsDescriptor (header ∷ nfixed ∷ bytes) s
unfolding after_nfixed
after_nfixed_sound header nfixed bytes (err e) s small k h = cc
after_nfixed_sound header nfixed bytes (ok (t, rest)) s small k h =
    subst (λ (l : List ℕ). IsDescriptor (header ∷ nfixed ∷ l) s) (sym (k (t, rest) refl))
      (after_return_sound header nfixed t rest s small h)

parse_sig_sound : (bytes : List ℕ) (s : ParsedSig) → parse_sig bytes ≡ ok s → IsDescriptor bytes s
unfolding parse_sig
parse_sig_sound [] s h = cc
parse_sig_sound (header ∷ []) s h =
    if_ok (λ (x : ParsedSig). IsDescriptor (header ∷ []) x) (leb 2 header) _ _ s (λ c e. cc)
      (λ c e. cc) h
parse_sig_sound (header ∷ (nfixed ∷ rest)) s h =
    if_ok (λ (x : ParsedSig). IsDescriptor (header ∷ (nfixed ∷ rest)) x) (leb 2 header) _ _ s
      (λ c e. cc)
      (λ small e.
        after_nfixed_sound header nfixed rest (parse_type rest) s small (parse_type_sound rest) e)
      h

same_sig :
    (nfixed : ℕ) (s : ParsedSig)
    → s.n_fixed_args ≡ (if s.varargs then nfixed else length s.params)
    → record s { n_fixed_args = if s.varargs then nfixed else length s.params } ≡ s
same_sig nfixed s h = ap (λ (x : ℕ). record s { n_fixed_args = x }) (sym h)

-- ParseSig accepts bytes as a signature exactly when they are its descriptor: no byte is missing or
-- left over, and every type, count and flag is the one that stands there.
pub parse_sig_iff :
    (bytes : List ℕ) (s : ParsedSig) → (parse_sig bytes ≡ ok s) ↔ IsDescriptor bytes s
parse_sig_iff bytes s = (
  parse_sig_sound bytes s,
  λ (nfixed, shape, fixed).
      ap parse_sig shape
      ∙ (parse_sig-encode s.varargs nfixed s.returns s.params ∙ ap ok (same_sig nfixed s fixed)),
)
