-- ===== src/Policy/Substitution.antt =====
-- runtime/policy.go, httpPolicy: the check of the first hop and the substitution of placeholders.
-- The library record stands for pure functions of Go's library and of encoding: the canonical name
-- of a header, the parsing and encoding of a query, base64 and JSON. What a request makes the host
-- do is recorded in a trace, the latest event first.
pub mod Trace
pub mod Literal
pub mod Scope
use particles.Base.{
  ℕ, ◌+◌, String, Bool, true, false, ◌&&◌, ◌||◌, not, Option, none, some, List, [], ◌∷◌, str_eq,
  str_append, leb, ◌==◌, if◌then◌else◌,
}
use particles.Base.Dict
use particles.Base.Dict.{Dict}
use particles.Credentials.{
  Bytes, Descriptor, Metadata, basic_meta, oauth2_meta, apikey_meta, signing_key_meta, raw_meta,
  ApplySpec, ApplyKind, Error, Result, is_not_found, password, access_token, key_role,
}
use particles.Credentials.Store.{Store}
use particles.Credentials.Host.{placeholder_for}
use particles.Credentials.Oauth.{AccessToken, Outcome}
use particles.Policy.{
  Request, HttpPolicy, HostSet, RedirectError, host_not_allowed, first, header_get, header_set,
  host_set, is_in, allows_host,
}
use particles.Policy.Client.{Response}

pub record Library : Type 0 where
  pub lower : String → String
  pub canonical : String → String
  pub parse_query : String → Dict (List String)
  pub encode_query : Dict (List String) → String
  -- []byte(s), string(b), base64.StdEncoding
  pub bytes : String → Bytes
  pub text : Bytes → String
  pub base64 : Bytes → String
  -- UnmarshalAccessToken
  pub unmarshal : Bytes → Option AccessToken

-- httpPolicy; `refresh_access_token` is absent where the proactive path is disabled
pub record Policy (S : Type 0) : Type 0 where
  pub descriptor : Option HttpPolicy
  pub store : Store S
  pub declared_credentials : List String
  pub credential_hosts : Dict HostSet
  pub refresh_access_token : Option (S → String → Outcome AccessToken × S)

-- newHTTPPolicy, the sets of hosts: a credential with an empty list is not bound.
unfoldable pub bind_hosts : (String → String) → Dict (List String) → Dict HostSet
bind_hosts lower [] = []
bind_hosts lower ((name, []) ∷ rest) = bind_hosts lower rest
bind_hosts lower ((name, h ∷ hosts) ∷ rest) =
    Dict.set name (host_set lower (h ∷ hosts) []) (bind_hosts lower rest)

pub data Event : Type 0 where
  looked_up : (name : String) → Event
  secret_read : (id role : String) → Event
  refreshed : (id : String) → Event
  sent : Request → Event

pub record State (S : Type 0) : Type 0 where
  pub store : S
  pub trace : List Event

abbrev pub logged : {S : Type 0} → Event → State S → State S
logged e st = record st { trace = e ∷ st.trace }

pub data SubstituteError : Type 0 where
  lookup_failed : (name : String) → Error → SubstituteError
  secret_missing : (id role : String) → SubstituteError
  read_failed : (id role : String) → Error → SubstituteError
  bad_token : (id : String) → SubstituteError

pub data Step {ℓ} (A : Type ℓ) : Type ℓ where
  go : A → Step A
  stop : SubstituteError → Step A

abbrev pub then_do :
    {S A B : Type 0} → Step A × State S → (A → State S → Step B × State S) → Step B × State S
then_do (go a, st) f = f a st
then_do (stop e, st) f = (stop e, st)

-- What the inner doer answers; an error may wrap one of CheckRedirect.
pub data InnerReply : Type 0 where
  reply : Response → InnerReply
  inner_error : Option RedirectError → String → InnerReply

pub data Answer : Type 0 where
  answered : Response → Answer
  denied : (host : String) → Answer
  stopped : SubstituteError → Answer
  failed : String → Answer

-- 30 seconds in nanoseconds
abbrev pub token_skew : ℕ
token_skew = 30000000000

-- The zero time is 0.
unfoldable pub token_needs_refresh : AccessToken → ℕ → Bool
token_needs_refresh b now = if b.expires_at == 0 then false else leb b.expires_at (now + token_skew)

abbrev with_prefix : String → String → String
with_prefix scheme value = str_append scheme (str_append " " value)

checked_secret : String → String → Result Bytes → Step Bytes
checked_secret id role (Result.ok v) = go v
checked_secret id role (Result.err e) =
    stop (if is_not_found e then secret_missing id role else read_failed id role e)

module _ (lib : Library) {S : Type 0} (p : Policy S) (now : ℕ) where
  abbrev pub get_header : Request → String → String
  get_header = header_get lib.canonical

  abbrev pub set_header : Request → String → String → Request
  set_header = header_set lib.canonical

  -- readSecret
  unfoldable pub read_role : State S → String → String → Step Bytes × State S
  unfolding checked_secret
  read_role st id role = (
    checked_secret id role (p.store.read_secret st.store id role),
    logged (secret_read id role) st,
  )

  unfoldable pub substitute_basic :
      State S → Request → String → String → String → Step Request × State S
  unfolding read_role header_get header_set
  substitute_basic st r id placeholder username =
      if str_eq (get_header r "Authorization") (with_prefix "Basic" placeholder)
      then then_do (read_role st id password) (λ (secret : Bytes) (st' : State S). (
        go (
            set_header r "Authorization" (
              with_prefix "Basic"
                (lib.base64 (lib.bytes (str_append username (str_append ":" (lib.text secret))))))),
        st',
      ))
      else (go r, st)

  abbrev kept_or_fresh : State S → AccessToken → Outcome AccessToken × S → AccessToken × State S
  kept_or_fresh st old (Outcome.done fresh, s) = (fresh, record st { store = s })
  kept_or_fresh st old (Outcome.failed e, s) = (old, record st { store = s })

  -- The proactive refresh of a token that is about to expire; its failure keeps the old token.
  fresh_token :
      Option (S → String → Outcome AccessToken × S)
      → State S
      → String
      → AccessToken
      → AccessToken × State S
  unfolding token_needs_refresh
  fresh_token none st id b = (b, st)
  fresh_token (some refresh) st id b =
      if token_needs_refresh b now
      then kept_or_fresh (logged (refreshed id) st) b (refresh st.store id)
      else (b, st)

  put_token : Request → String → Option AccessToken → State S → Step Request × State S
  unfolding fresh_token header_set
  put_token r id none st = (stop (bad_token id), st)
  put_token r id (some b) st =
      let (token, st') = fresh_token p.refresh_access_token st id b in
      (go (set_header r "Authorization" (with_prefix "Bearer" token.token)), st')

  unfoldable pub substitute_bearer : State S → Request → String → String → Step Request × State S
  unfolding read_role put_token header_get
  substitute_bearer st r id placeholder =
      if str_eq (get_header r "Authorization") (with_prefix "Bearer" placeholder)
      then then_do (read_role st id access_token)
          (λ (secret : Bytes) (st' : State S). put_token r id (lib.unmarshal secret) st')
      else (go r, st)

  key_in_header : State S → Request → String → String → String → Step Request × State S
  unfolding read_role header_get header_set
  key_in_header st r id placeholder name =
      if str_eq name "" || not (str_eq (get_header r name) placeholder)
      then (go r, st)
      else then_do (read_role st id key_role)
          (λ (key : Bytes) (st' : State S). (go (set_header r name (lib.text key)), st'))

  key_in_scheme : State S → Request → String → String → String → Step Request × State S
  unfolding read_role header_get header_set
  key_in_scheme st r id placeholder scheme =
      if str_eq scheme ""
        || not (str_eq (get_header r "Authorization") (with_prefix scheme placeholder))
      then (go r, st)
      else then_do (read_role st id key_role) (λ (key : Bytes) (st' : State S).
        (go (set_header r "Authorization" (with_prefix scheme (lib.text key))), st'))

  key_in_query : State S → Request → String → String → String → Step Request × State S
  unfolding read_role
  key_in_query st r id placeholder name =
      let query = lib.parse_query r.raw_query in
      if str_eq name "" || not (str_eq (first (Dict.get name query)) placeholder)
      then (go r, st)
      else then_do (read_role st id key_role) (λ (key : Bytes) (st' : State S). (
        go (record r { raw_query = lib.encode_query (Dict.set name (lib.text key ∷ []) query) }),
        st',
      ))

  substitute_api_key :
      State S → Request → String → String → ApplySpec → ApplyKind → Step Request × State S
  unfolding key_in_header key_in_scheme key_in_query
  substitute_api_key st r id placeholder location ApplyKind.header =
      key_in_header st r id placeholder location.name
  substitute_api_key st r id placeholder location ApplyKind.auth_scheme =
      key_in_scheme st r id placeholder location.scheme
  substitute_api_key st r id placeholder location ApplyKind.query_param =
      key_in_query st r id placeholder location.name
  substitute_api_key st r id placeholder location _ = (go r, st)

  substitute_meta : State S → Request → Descriptor → Metadata → Step Request × State S
  unfolding substitute_basic substitute_bearer substitute_api_key placeholder_for
  substitute_meta st r d (basic_meta username) =
      substitute_basic st r d.id (placeholder_for d.id) username
  substitute_meta st r d (oauth2_meta m) = substitute_bearer st r d.id (placeholder_for d.id)
  substitute_meta st r d (apikey_meta location) =
      substitute_api_key st r d.id (placeholder_for d.id) location location.kind
  substitute_meta st r d (signing_key_meta a) = (go r, st)
  substitute_meta st r d raw_meta = (go r, st)

  substitute_found : State S → Request → String → Result Descriptor → Step Request × State S
  unfolding substitute_meta
  substitute_found st r name (Result.err e) =
      (if is_not_found e then go r else stop (lookup_failed name e), st)
  substitute_found st r name (Result.ok d) = substitute_meta st r d d.meta

  -- A credential without a set of hosts is not bound to any.
  unfoldable pub in_scope : String → String → Bool
  in_scope name host = elim (Dict.get name p.credential_hosts) [
    | none ↦ true
    | some hosts ↦ is_in hosts (lib.lower host)
  ]

  unfoldable pub substitute_one : State S → Request → String → Step Request × State S
  unfolding substitute_found in_scope
  substitute_one st r name =
      if in_scope name r.host
      then substitute_found (logged (looked_up name) st) r name (p.store.get_by_name st.store name)
      else (go r, st)

  unfoldable pub substitute_all : State S → Request → List String → Step Request × State S
  unfolding substitute_one
  substitute_all st r [] = (go r, st)
  substitute_all st r (name ∷ names) =
      then_do (substitute_one st r name)
        (λ (r' : Request) (st' : State S). substitute_all st' r' names)

  unfoldable pub substitute_credentials : State S → Request → Step Request × State S
  unfolding substitute_all
  substitute_credentials st r = substitute_all st r p.declared_credentials

  module _ (inner : Request → InnerReply) where
    -- A hop that the client refused is the same denial as that of the first hop.
    unfoldable pub recoded : InnerReply → Answer
    recoded (reply a) = answered a
    recoded (inner_error (some (host_not_allowed host)) text) = denied host
    recoded (inner_error _ text) = failed text

    send_on : Step Request × State S → Answer × State S
    unfolding recoded
    send_on (stop e, st) = (stopped e, st)
    send_on (go r, st) = (recoded (inner r), logged (sent r) st)

    -- Do
    unfoldable pub do_request : State S → Request → Answer × State S
    unfolding send_on substitute_credentials
    do_request st r =
        if allows_host lib.lower p.descriptor r.host
        then send_on (substitute_credentials st r)
        else (denied r.host, st)
