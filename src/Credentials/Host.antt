-- ===== src/Credentials/Host.antt =====
-- credentials/host.go: the adapter that a particle calls to get placeholders and raw values, over
-- any store.
use particles.Base.{
  String, len, slice, str_append, ◌≡◌, ◌≢◌, refl, sym, ap, ◌||◌, not, leb, Option, none, some,
  arith, str_eq, eq_iff, if◌then◌else◌, ◌↔◌, Bool-cases, inl, inr,
}
use Prim.Native.String.len
use Prim.Native.String.{[], ◌∷◌}
use text.Mathlib.Text.{starts_with}
use text.Mathlib.TextEquality.{starts_with_iff}
use text.Mathlib.TextPositions.{len_utf8-pos, starts_with-append, slice-append_right, len-append}
use particles.Credentials.{
  Metadata, basic_meta, oauth2_meta, apikey_meta, signing_key_meta, raw_meta, ApplyKind, ApplySpec,
  Bytes, Kind, kind_of, Error, Result, ok, err, is_not_found, value_role, Descriptor,
}
use particles.Credentials.Store.{Store}

abbrev pub placeholder_prefix : String
placeholder_prefix = "__particle_cred_"

unfoldable pub placeholder_for : String → String
placeholder_for id = str_append placeholder_prefix id

-- IDFromPlaceholder
unfoldable pub id_from_placeholder : String → Option String
id_from_placeholder s =
    if leb (len s) (len placeholder_prefix) || not (starts_with s placeholder_prefix)
    then none
    else some (slice s (len placeholder_prefix) (len s))

-- gen.ApplySpec, whose empty fields are absent
pub record LiftedSpec : Type 0 where
  pub kind : ApplyKind
  pub name : Option String
  pub scheme : Option String

abbrev non_empty : String → Option String
non_empty s = if str_eq s "" then none else some s

unfoldable pub lift_apply_spec : ApplySpec → LiftedSpec
lift_apply_spec s = record { kind = s.kind; name = non_empty s.name; scheme = non_empty s.scheme }

unfoldable pub apply_spec_for_meta : Metadata → Option LiftedSpec
unfolding lift_apply_spec
apply_spec_for_meta (basic_meta username) =
    some (record { kind = ApplyKind.basic; name = none; scheme = none })
apply_spec_for_meta (oauth2_meta m) =
    some (record { kind = ApplyKind.bearer; name = none; scheme = none })
apply_spec_for_meta (apikey_meta location) = some (lift_apply_spec location)
apply_spec_for_meta (signing_key_meta algorithm) = none
apply_spec_for_meta raw_meta = none

-- gen.CredentialError; a mismatch carries the kind that its message names
pub data CredentialError : Type 0 where
  not_configured : CredentialError
  type_mismatch : Kind → CredentialError
  storage_error : Error → CredentialError

pub data Reply {ℓ} (A : Type ℓ) : Type ℓ where
  done : A → Reply A
  failed : CredentialError → Reply A

unfoldable pub err_to_credential_error : Error → CredentialError
err_to_credential_error e = if is_not_found e then not_configured else storage_error e

pub record PlaceholderInfo : Type 0 where
  pub placeholder : String
  pub spec : LiftedSpec

placeholder_info : Descriptor → Option LiftedSpec → Reply PlaceholderInfo
placeholder_info d none = failed (type_mismatch (kind_of d.meta))
placeholder_info d (some spec) = done (record { placeholder = placeholder_for d.id; spec = spec })

placeholder_of : Result Descriptor → Reply PlaceholderInfo
unfolding placeholder_info
placeholder_of (err e) = failed (err_to_credential_error e)
placeholder_of (ok d) = placeholder_info d (apply_spec_for_meta d.meta)

method_reply : Result String → Reply (Option String)
method_reply (err e) = failed (err_to_credential_error e)
method_reply (ok method) = done (non_empty method)

raw_reply : Result Bytes → Reply Bytes
raw_reply (err e) = failed (err_to_credential_error e)
raw_reply (ok value) = done value

module _ {S : Type 0} (store : Store S) where
  -- GetPlaceholder
  unfoldable pub get_placeholder : S → String → Reply PlaceholderInfo
  unfolding placeholder_of
  get_placeholder s name = placeholder_of (store.get_by_name s name)

  -- GetConfiguredMethod
  unfoldable pub get_configured_method : S → String → Reply (Option String)
  unfolding method_reply
  get_configured_method s name = method_reply (store.configured_method s name)

  raw_value : S → Descriptor → Metadata → Reply Bytes
  unfolding raw_reply
  raw_value s d raw_meta = raw_reply (store.read_secret s d.id value_role)
  raw_value s d other = failed (type_mismatch (kind_of other))

  raw_of : S → Result Descriptor → Reply Bytes
  unfolding raw_value
  raw_of s (err e) = failed (err_to_credential_error e)
  raw_of s (ok d) = raw_value s d d.meta

  -- GetRaw
  unfoldable pub get_raw : S → String → Reply Bytes
  unfolding raw_of
  get_raw s name = raw_of s (store.get_by_name s name)

  raw_of_done :
      (s : S) (r : Result Descriptor) (v : Bytes)
      → raw_of s r ≡ done v
      → (d : Descriptor) × (r ≡ ok d)
        × (d.meta ≡ raw_meta)
        × (store.read_secret s d.id value_role ≡ ok v)
  unfolding raw_of raw_value raw_reply
  raw_of_done s (err e) v h = cc
  raw_of_done s (ok d) v h = (d, refl, ground arith, ground arith)

  -- A secret value is handed to a particle only for a raw credential of the name asked for, and it
  -- is the value that the store has for it.
  pub get_raw_done :
      (s : S) (name : String) (v : Bytes)
      → get_raw s name ≡ done v
      → (d : Descriptor) × (store.get_by_name s name ≡ ok d)
        × (d.meta ≡ raw_meta)
        × (store.read_secret s d.id value_role ≡ ok v)
  unfolding get_raw
  get_raw_done s name v h = raw_of_done s (store.get_by_name s name) v h

len_zero : (s : String) → len s ≡ 0 → s ≡ ""
len_zero [] h = refl
len_zero (c ∷ s) h = let (k, e) = len_utf8-pos c in ground (arith, e, h, len.cons c s)

len_of_empty : (s : String) → s ≡ "" → len s ≡ 0
len_of_empty s e = ap len e

id_from_placeholder-placeholder_for :
    (id : String)
    → id_from_placeholder (placeholder_for id) ≡ (if str_eq id "" then none else some id)
unfolding id_from_placeholder placeholder_for
id_from_placeholder-placeholder_for id = ground (
  arith,
  eq_iff id "",
  len_zero id,
  len-append placeholder_prefix id,
  len_of_empty id,
  starts_with-append placeholder_prefix id,
  slice-append_right placeholder_prefix id,
)

-- Every text with the prefix and more is the placeholder of exactly the id after the prefix.
pub id_from_placeholder_iff :
    (s id : String) → (id_from_placeholder s ≡ some id) ↔ ((s ≡ placeholder_for id) × (id ≢ ""))
unfolding placeholder_for
id_from_placeholder_iff s id = (
  λ h. elim (Bool-cases (starts_with s placeholder_prefix)) [
    | inl starts ↦
        let (r, e) = (starts_with_iff s placeholder_prefix).0 starts in
        let shape : s ≡ placeholder_for r = sym e in
        ground (
          arith,
          eq_iff r "",
          id_from_placeholder-placeholder_for r,
          ap id_from_placeholder shape,
          h,
          shape,
        )
    | inr not_prefixed ↦ (unfold id_from_placeholder in ground (arith, not_prefixed, h))
  ],
  λ (e, filled).
      ground
        (arith, eq_iff id "", id_from_placeholder-placeholder_for id, ap id_from_placeholder e),
)
