-- ===== src/Credentials.antt =====
-- credentials/credentials.go: the data of the credential store's contract.
pub mod Memory
pub mod Store
pub mod Host
pub mod Signing
pub mod Oauth
mod Tests
mod HostTests
use particles.Base.{ℕ, String, Bool, true, false, Option, List}

pub data Kind : Type 0 where
  basic oauth2 apikey signing_key raw : Kind

pub data ApplyKind : Type 0 where
  basic bearer header auth_scheme query_param : ApplyKind

pub record ApplySpec : Type 0 where
  pub kind : ApplyKind
  pub name : String
  pub scheme : String

pub record OAuth2Meta : Type 0 where
  pub authorization_url : String
  pub token_url : String
  pub client_id : String
  pub scopes : List String
  pub flow : String

-- BasicMeta, OAuth2Meta, APIKeyMeta, SigningKeyMeta, RawMeta
pub data Metadata : Type 0 where
  basic_meta : (username : String) → Metadata
  oauth2_meta : OAuth2Meta → Metadata
  apikey_meta : (location : ApplySpec) → Metadata
  signing_key_meta : (algorithm : String) → Metadata
  raw_meta : Metadata

-- Metadata.Kind
unfoldable pub kind_of : Metadata → Kind
kind_of (basic_meta _) = Kind.basic
kind_of (oauth2_meta _) = Kind.oauth2
kind_of (apikey_meta _) = Kind.apikey
kind_of (signing_key_meta _) = Kind.signing_key
kind_of raw_meta = Kind.raw

pub record Descriptor : Type 0 where
  pub id : String
  pub name : String
  pub method : String
  pub meta : Metadata

-- A secret's value is its bytes.
abbrev pub Bytes : Type 0
Bytes = List ℕ

pub record Secret : Type 0 where
  pub role : String
  pub value : Bytes

-- The well-known roles.
abbrev pub password : String
password = "password"

abbrev pub access_token : String
access_token = "access_token"

abbrev pub refresh_token : String
refresh_token = "refresh_token"

abbrev pub client_secret : String
client_secret = "client_secret"

abbrev pub key_role : String
key_role = "key"

abbrev pub value_role : String
value_role = "value"

pub data Error : Type 0 where
  -- ErrNotFound
  not_found : Error
  -- ErrSecretNotSet, which wraps ErrNotFound
  secret_not_set : Error
  -- what Put and WriteSecrets refuse: nil metadata, an empty name or method, an empty role
  no_metadata no_name no_method : Error
  empty_role : ℕ → Error
  -- any other error, with its text
  other : String → Error

-- errors.Is(err, ErrNotFound)
unfoldable pub is_not_found : Error → Bool
is_not_found not_found = true
is_not_found secret_not_set = true
is_not_found _ = false

pub data Result {ℓ} (A : Type ℓ) : Type ℓ where
  ok : A → Result A
  err : Error → Result A
