-- ===== src/Credentials/Signing.antt =====
-- credentials/signing.go: MACs under the key of a signing-key credential, over any store. `hmac`
-- is crypto/hmac with the named hash.
use particles.Base.{
  String, ◌≡◌, refl, Bool, true, false, ◌&&◌, Option, none, some, [], ◌∷◌, arith, str_eq,
  if◌then◌else◌, ◌==◌, ◌↔◌,
}
use particles.Credentials.{
  Metadata, signing_key_meta, Bytes, Error, Result, ok, err, is_not_found, key_role, Descriptor,
}
use particles.Credentials.Store.{Store}

pub data Algorithm : Type 0 where
  hmac_sha256 hmac_sha512 : Algorithm

unfoldable pub hash_for : String → Option Algorithm
hash_for name =
    if str_eq name "hmac-sha256"
    then some hmac_sha256
    else if str_eq name "hmac-sha512"
    then some hmac_sha512
    else none

-- gen.SigningError; invalid input carries the store's error or the algorithm of its message
pub data SigningError : Type 0 where
  not_configured not_signing_key : SigningError
  store_failed : Error → SigningError
  unsupported : String → SigningError

pub data Signed {ℓ} (A : Type ℓ) : Type ℓ where
  done : A → Signed A
  failed : SigningError → Signed A

abbrev store_error : Error → SigningError
store_error e = if is_not_found e then not_configured else store_failed e

-- hmac.Equal
unfoldable pub bytes_eq : Bytes → Bytes → Bool
bytes_eq [] [] = true
bytes_eq [] (y ∷ ys) = false
bytes_eq (x ∷ xs) [] = false
bytes_eq (x ∷ xs) (y ∷ ys) = (x == y) && bytes_eq xs ys

pub bytes_eq_iff : (xs ys : Bytes) → (bytes_eq xs ys ≡ true) ↔ (xs ≡ ys)
unfolding bytes_eq
bytes_eq_iff [] [] = (λ h. refl, λ h. refl)
bytes_eq_iff [] (y ∷ ys) = (λ h. cc, λ h. cc)
bytes_eq_iff (x ∷ xs) [] = (λ h. cc, λ h. cc)
bytes_eq_iff (x ∷ xs) (y ∷ ys) =
    (λ h. ground (arith, bytes_eq_iff xs ys), λ h. ground (arith, bytes_eq_iff xs ys))

keyed : Result Bytes → Algorithm → Signed (Algorithm × Bytes)
keyed (err e) a = failed (store_error e)
keyed (ok key) a = done (a, key)

module _ {S : Type 0} (store : Store S) (hmac : Algorithm → Bytes → Bytes → Bytes) where
  with_algorithm : S → Descriptor → String → Option Algorithm → Signed (Algorithm × Bytes)
  unfolding keyed
  with_algorithm s d name none = failed (unsupported name)
  with_algorithm s d name (some a) = keyed (store.read_secret s d.id key_role) a

  with_meta : S → Descriptor → Metadata → Signed (Algorithm × Bytes)
  unfolding with_algorithm
  with_meta s d (signing_key_meta name) = with_algorithm s d name (hash_for name)
  with_meta s d other = failed not_signing_key

  mac_of : S → Result Descriptor → Signed (Algorithm × Bytes)
  unfolding with_meta
  mac_of s (err e) = failed (store_error e)
  mac_of s (ok d) = with_meta s d d.meta

  -- macFor: the keyed hash that Sign and Verify write the message into
  unfoldable pub mac_for : S → String → Signed (Algorithm × Bytes)
  unfolding mac_of
  mac_for s name = mac_of s (store.get_by_name s name)

  sum_with : Bytes → Signed (Algorithm × Bytes) → Signed Bytes
  sum_with message (done (a, key)) = done (hmac a key message)
  sum_with message (failed e) = failed e

  unfoldable pub sign : S → String → Bytes → Signed Bytes
  unfolding sum_with
  sign s name message = sum_with message (mac_for s name)

  check_with : Bytes → Bytes → Signed (Algorithm × Bytes) → Signed Bool
  check_with message signature (done (a, key)) = done (bytes_eq (hmac a key message) signature)
  check_with message signature (failed e) = failed e

  unfoldable pub verify : S → String → Bytes → Bytes → Signed Bool
  unfolding check_with
  verify s name message signature = check_with message signature (mac_for s name)

  check_with_sum :
      (message signature : Bytes) (m : Signed (Algorithm × Bytes))
      → (check_with message signature m ≡ done true) ↔ (sum_with message m ≡ done signature)
  unfolding check_with sum_with
  check_with_sum message signature (done (a, key)) = (
    λ h. ground (arith, bytes_eq_iff (hmac a key message) signature),
    λ h. ground (arith, bytes_eq_iff (hmac a key message) signature),
  )
  check_with_sum message signature (failed e) = (λ h. cc, λ h. cc)

  -- Verify accepts a signature exactly where Sign of the same message under the same name gives it.
  pub verify_iff-sign :
      (s : S) (name : String) (message signature : Bytes)
      → (verify s name message signature ≡ done true) ↔ (sign s name message ≡ done signature)
  unfolding verify sign
  verify_iff-sign s name message signature = check_with_sum message signature (mac_for s name)
