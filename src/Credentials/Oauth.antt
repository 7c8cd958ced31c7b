-- ===== src/Credentials/Oauth.antt =====
-- credentials/oauth.go: rotation of an OAuth2 access token and the adapter around it, over any
-- store that keeps the laws. `refresher` is the exchange with the provider, `marshal` the JSON form
-- of a token, `text` Go's conversion of bytes to a string.
pub mod Rotation
use particles.Base.{
  String, ℕ, ◌≡◌, ◌≢◌, refl, sym, ap, ◌∙◌, Bool, true, false, ◌&&◌, not, Option, none, some, List,
  [], ◌∷◌, arith, str_eq, eq_iff, eq_refl, if◌then◌else◌, ◌==◌, inl, inr,
}
use particles.Credentials.{
  Metadata, OAuth2Meta, oauth2_meta, Bytes, Secret, Error, secret_not_set, Result, ok, err,
  is_not_found, access_token, refresh_token, client_secret, Descriptor,
}
use particles.Credentials.Store.{Store, IsLawful}
use particles.Credentials.Memory.View.{overlaid, last_value}

-- Times are nanoseconds since the zero time of Go.
pub record AccessToken : Type 0 where
  pub token : String
  pub type : String
  pub expires_at : ℕ

pub record RefreshRequest : Type 0 where
  pub meta : OAuth2Meta
  pub client_secret : Bytes
  pub refresh_token : Bytes

pub record RefreshResponse : Type 0 where
  pub access_token : Bytes
  pub refresh_token : Bytes
  pub expires_at : ℕ
  pub token_type : String

-- The errors of rotateAccessToken; each but two wraps another error.
pub data RotateError : Type 0 where
  lookup_failed no_refresh_token no_client_secret refresh_failed store_failed : Error → RotateError
  not_oauth2 empty_token : RotateError

-- gen.OauthError
pub data OauthError : Type 0 where
  not_configured not_oauth : OauthError
  refresh_failed_with : RotateError → OauthError

-- errors.Is(err, ErrNotFound)
unfoldable pub is_missing : RotateError → Bool
is_missing (lookup_failed e) = is_not_found e
is_missing (no_refresh_token e) = is_not_found e
is_missing (no_client_secret e) = is_not_found e
is_missing (refresh_failed e) = is_not_found e
is_missing (store_failed e) = is_not_found e
is_missing not_oauth2 = false
is_missing empty_token = false

pub data Outcome {ℓ} (A : Type ℓ) : Type ℓ where
  done : A → Outcome A
  failed : RotateError → Outcome A

abbrev bind {ℓ κ} : {A : Type ℓ} → {B : Type κ} → Outcome A → (A → Outcome B) → Outcome B
bind (done a) f = f a
bind (failed e) f = failed e

abbrev wrap {ℓ} : {A : Type ℓ} → (Error → RotateError) → Result A → Outcome A
wrap f (ok a) = done a
wrap f (err e) = failed (f e)

unfoldable pub oauth2_of : Metadata → Outcome OAuth2Meta
oauth2_of (oauth2_meta m) = done m
oauth2_of other = failed not_oauth2

-- A client secret that is not set is passed on as empty.
unfoldable pub optional_secret : Result Bytes → Outcome Bytes
optional_secret (ok v) = done v
optional_secret (err secret_not_set) = done []
optional_secret (err e) = failed (no_client_secret e)

abbrev is_empty : Bytes → Bool
is_empty [] = true
is_empty (b ∷ bs) = false

non_empty_response : RefreshResponse → Outcome RefreshResponse
non_empty_response r = if is_empty r.access_token then failed empty_token else done r

module _ (marshal : AccessToken → Bytes) (text : Bytes → String) where
  unfoldable pub bundle_of : RefreshResponse → AccessToken
  bundle_of r = record {
    token = text r.access_token;
    type = r.token_type;
    expires_at = r.expires_at;
  }

  -- The secrets that a rotation writes: the refresh token only where the provider gave a new one.
  unfoldable pub rotated : RefreshResponse → List Secret
  unfolding bundle_of
  rotated r =
      record { role = access_token; value = marshal (bundle_of r) }
      ∷ (if is_empty r.refresh_token
          then []
          else record { role = refresh_token; value = r.refresh_token } ∷ [])

  module _ {S : Type 0} (store : Store S)
      (refresher : RefreshRequest → Result RefreshResponse) where
    gather : S → String → Outcome RefreshRequest
    unfolding oauth2_of optional_secret
    gather s id = bind (wrap lookup_failed (store.get_by_id s id)) (λ (d : Descriptor).
        bind (oauth2_of d.meta) (λ (meta : OAuth2Meta).
          bind (wrap no_refresh_token (store.read_secret s id refresh_token)) (λ (token : Bytes).
            bind (optional_secret (store.read_secret s id client_secret)) (λ (secret : Bytes).
              done (record { meta = meta; client_secret = secret; refresh_token = token })))))

    -- The part of rotateAccessToken before the write.
    unfoldable pub obtain : S → String → Outcome RefreshResponse
    unfolding gather non_empty_response
    obtain s id = bind (gather s id) (λ (request : RefreshRequest).
        bind (wrap refresh_failed (refresher request)) non_empty_response)

    stored : RefreshResponse → Result (Unit {0}) × S → Outcome AccessToken × S
    unfolding bundle_of
    stored r (ok u, t) = (done (bundle_of r), t)
    stored r (err e, t) = (failed (store_failed e), t)

    commit : S → String → Outcome RefreshResponse → Outcome AccessToken × S
    unfolding stored rotated
    commit s id (failed e) = (failed e, s)
    commit s id (done r) = stored r (store.write_secrets s id (rotated r))

    unfoldable pub rotate_access_token : S → String → Outcome AccessToken × S
    unfolding commit
    rotate_access_token s id = commit s id (obtain s id)

    refresh_error : RotateError → OauthError
    refresh_error e = if is_missing e then not_configured else refresh_failed_with e

    rotation_reply : Outcome AccessToken × S → Option OauthError × S
    unfolding refresh_error
    rotation_reply (done token, t) = (none, t)
    rotation_reply (failed e, t) = (some (refresh_error e), t)

    refresh_meta : S → Descriptor → Metadata → Option OauthError × S
    unfolding rotation_reply
    refresh_meta s d (oauth2_meta m) = rotation_reply (rotate_access_token s d.id)
    refresh_meta s d other = (some not_oauth, s)

    refresh_found : S → Result Descriptor → Option OauthError × S
    unfolding refresh_meta
    refresh_found s (err e) =
        (some (if is_not_found e then not_configured else refresh_failed_with (lookup_failed e)), s)
    refresh_found s (ok d) = refresh_meta s d d.meta

    -- oauthAdapter.Refresh: no error, or the variant that the particle sees
    unfoldable pub refresh : S → String → Option OauthError × S
    unfolding refresh_found
    refresh s name = refresh_found s (store.get_by_name s name)
