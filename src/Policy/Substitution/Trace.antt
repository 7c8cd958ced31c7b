-- ===== src/Policy/Substitution/Trace.antt =====
-- Theorems on httpPolicy.Do of runtime/policy.go: which credentials are looked up and read, and
-- which requests leave.
use particles.Base.{
  ℕ, String, ◌≡◌, refl, sym, ap, ◌∙◌, Bool, true, false, Option, none, some, List, [], ◌∷◌,
  if◌then◌else◌, All, All-map, Any, inl, inr,
}
use particles.Credentials.{
  Descriptor, Metadata, basic_meta, oauth2_meta, apikey_meta, signing_key_meta, raw_meta, ApplySpec,
  ApplyKind, Result, is_not_found, password, access_token, key_role,
}
use particles.Credentials.Host.{placeholder_for}
use particles.Credentials.Oauth.{AccessToken, Outcome}
use particles.Policy.{Request, allows_host, header_set}
use particles.Policy.Substitution.{
  Library, Policy, Event, looked_up, secret_read, refreshed, sent, State, Step, go, stop,
  lookup_failed, then_do, InnerReply, read_role, substitute_basic, substitute_bearer, put_token,
  fresh_token, key_in_header, key_in_scheme, key_in_query, substitute_api_key, substitute_meta,
  substitute_found, substitute_one, substitute_all, substitute_credentials, in_scope, send_on,
  do_request, Answer, token_needs_refresh, kept_or_fresh,
}

-- The role of the secret that takes the place of a placeholder.
abbrev pub role_of : Metadata → Option String
role_of (basic_meta username) = some password
role_of (oauth2_meta m) = some access_token
role_of (apikey_meta location) = some key_role
role_of (signing_key_meta a) = none
role_of raw_meta = none

module _ (lib : Library) {S : Type 0} (p : Policy S) (now : ℕ) (host : String) where
  -- The credential is declared and may be used on this host.
  abbrev pub IsUsable : String → Type 0
  IsUsable name =
      Any (λ (other : String). other ≡ name) p.declared_credentials
      × (in_scope lib p now name host ≡ true)

  -- The secret is that of a usable credential, in the role in which its kind is put into requests.
  abbrev pub IsUsableSecret : String → String → Type 0
  IsUsableSecret id role =
      (name : String) × (s : S) × (d : Descriptor) × IsUsable name
      × (p.store.get_by_name s name ≡ Result.ok d)
      × (d.id ≡ id)
      × (role_of d.meta ≡ some role)

  abbrev pub IsJustified : Event → Type 0
  IsJustified (looked_up name) = IsUsable name
  IsJustified (secret_read id role) = IsUsableSecret id role
  IsJustified (refreshed id) = IsUsableSecret id access_token
  IsJustified (sent r) = (r.host ≡ host) × (allows_host lib.lower p.descriptor host ≡ true)

  abbrev IsForHost : Step Request → Type 0
  IsForHost (go r) = r.host ≡ host
  IsForHost (stop e) = Unit

  abbrev IsTraced : Step Request × State S → Type 0
  IsTraced (x, st) = IsForHost x × All IsJustified st.trace

  if-IsTraced :
      (c : Bool) (x y : Step Request × State S)
      → IsTraced x
      → IsTraced y
      → IsTraced (if c then x else y)
  if-IsTraced true x y h k = h
  if-IsTraced false x y h k = k

  then_do-IsTraced :
      {A : Type 0} (x : Step A × State S) (f : A → State S → Step Request × State S)
      → All IsJustified x.1.trace
      → ((a : A) (st : State S) → All IsJustified st.trace → IsTraced (f a st))
      → IsTraced (then_do x f)
  then_do-IsTraced (go a, st) f h k = k a st h
  then_do-IsTraced (stop e, st) f h k = (tt, h)

  module _ (r : Request) (same : r.host ≡ host) where
    kept-IsJustified :
        (st : State S) (old : AccessToken) (o : Outcome AccessToken × S)
        → All IsJustified st.trace
        → All IsJustified (kept_or_fresh lib p now st old o).1.trace
    kept-IsJustified st old (Outcome.done fresh, s) h = h
    kept-IsJustified st old (Outcome.failed e, s) h = h

    fresh-IsJustified :
        (o : Option (S → String → Outcome AccessToken × S)) (st : State S) (id : String)
        (b : AccessToken)
        → IsUsableSecret id access_token
        → All IsJustified st.trace
        → All IsJustified (fresh_token lib p now o st id b).1.trace
    unfolding fresh_token
    fresh-IsJustified none st id b u h = h
    fresh-IsJustified (some refresh) st id b u h =
        elim (token_needs_refresh b now)
          as (λ (c : Bool).
            All IsJustified
              (if c
                then kept_or_fresh lib p now (record st { trace = refreshed id ∷ st.trace }) b
                    (refresh st.store id)
                else (b, st)).1.trace) [
                  | true ↦
                      kept-IsJustified (record st { trace = refreshed id ∷ st.trace }) b
                        (refresh st.store id) (u, h)
                  | false ↦ h
                ]

    put_token-IsTraced :
        (id : String) (o : Option AccessToken) (st : State S)
        → IsUsableSecret id access_token
        → All IsJustified st.trace
        → IsTraced (put_token lib p now r id o st)
    unfolding put_token header_set
    put_token-IsTraced id none st u h = (tt, h)
    put_token-IsTraced id (some b) st u h =
        (same, fresh-IsJustified p.refresh_access_token st id b u h)

    api_key-IsTraced :
        (st : State S) (id placeholder : String) (location : ApplySpec) (k : ApplyKind)
        → IsUsableSecret id key_role
        → All IsJustified st.trace
        → IsTraced (substitute_api_key lib p now st r id placeholder location k)
    unfolding substitute_api_key key_in_header key_in_scheme key_in_query header_set read_role
    api_key-IsTraced st id placeholder location ApplyKind.header u h =
        if-IsTraced _ (go r, st) _ (same, h)
          (then_do-IsTraced (read_role lib p now st id key_role) _ (u, h) (λ a st' k. (same, k)))
    api_key-IsTraced st id placeholder location ApplyKind.auth_scheme u h =
        if-IsTraced _ (go r, st) _ (same, h)
          (then_do-IsTraced (read_role lib p now st id key_role) _ (u, h) (λ a st' k. (same, k)))
    api_key-IsTraced st id placeholder location ApplyKind.query_param u h =
        if-IsTraced _ (go r, st) _ (same, h)
          (then_do-IsTraced (read_role lib p now st id key_role) _ (u, h) (λ a st' k. (same, k)))
    api_key-IsTraced st id placeholder location _ u h = (same, h)

    meta-IsTraced :
        (st : State S) (d : Descriptor) (m : Metadata)
        → ((role : String) → role_of m ≡ some role → IsUsableSecret d.id role)
        → All IsJustified st.trace
        → IsTraced (substitute_meta lib p now st r d m)
    unfolding substitute_meta substitute_basic substitute_bearer header_set read_role
    meta-IsTraced st d (basic_meta username) u h =
        if-IsTraced _ _ (go r, st)
          (then_do-IsTraced (read_role lib p now st d.id password) _ (u password refl, h)
            (λ a st' k. (same, k)))
          (same, h)
    meta-IsTraced st d (oauth2_meta m) u h =
        if-IsTraced _ _ (go r, st)
          (then_do-IsTraced (read_role lib p now st d.id access_token) _ (u access_token refl, h)
            (λ a st' k. put_token-IsTraced d.id (lib.unmarshal a) st' (u access_token refl) k))
          (same, h)
    meta-IsTraced st d (apikey_meta location) u h =
        api_key-IsTraced st d.id (placeholder_for d.id) location location.kind (u key_role refl) h
    meta-IsTraced st d (signing_key_meta a) u h = (same, h)
    meta-IsTraced st d raw_meta u h = (same, h)

    found-IsTraced :
        (name : String) (s : S) (st : State S) (o : Result Descriptor)
        → p.store.get_by_name s name ≡ o
        → IsUsable name
        → All IsJustified st.trace
        → IsTraced (substitute_found lib p now st r name o)
    unfolding substitute_found
    found-IsTraced name s st (Result.ok d) e u h =
        meta-IsTraced st d d.meta (λ role k. (name, s, d, u, e, refl, k)) h
    found-IsTraced name s st (Result.err x) e u h =
        elim (is_not_found x)
          as (λ (c : Bool).
            IsForHost (if c then go r else stop (lookup_failed name x))
            × All IsJustified st.trace) [ true ↦ (same, h) | false ↦ (tt, h) ]

    scoped-IsTraced :
        (name : String) (st : State S) (c : Bool)
        → in_scope lib p now name r.host ≡ c
        → Any (λ (other : String). other ≡ name) p.declared_credentials
        → All IsJustified st.trace
        → IsTraced (
            if c
            then substitute_found lib p now
                (record st { trace = looked_up name ∷ st.trace })
                r
                name
                (p.store.get_by_name st.store name)
            else (go r, st))
    scoped-IsTraced name st false e declared h = (same, h)
    scoped-IsTraced name st true e declared h =
        let usable : IsUsable name = (declared, ap (in_scope lib p now name) (sym same) ∙ e) in
        found-IsTraced name st.store (record st { trace = looked_up name ∷ st.trace })
          (p.store.get_by_name st.store name) refl usable (usable, h)

    one-IsTraced :
        (name : String) (st : State S)
        → Any (λ (other : String). other ≡ name) p.declared_credentials
        → All IsJustified st.trace
        → IsTraced (substitute_one lib p now st r name)
    unfolding substitute_one
    one-IsTraced name st declared h =
        scoped-IsTraced name st (in_scope lib p now name r.host) refl declared h

  then_request-IsTraced :
      (x : Step Request × State S) (f : Request → State S → Step Request × State S)
      → IsTraced x
      → ((r : Request) (st : State S)
          → r.host ≡ host
          → All IsJustified st.trace
          → IsTraced (f r st))
      → IsTraced (then_do x f)
  then_request-IsTraced (go r, st) f (same, h) k = k r st same h
  then_request-IsTraced (stop e, st) f h k = h

  substitute_all-IsTraced :
      (names : List String) (st : State S) (r : Request)
      → r.host ≡ host
      → All (λ (name : String). Any (λ (other : String). other ≡ name) p.declared_credentials) names
      → All IsJustified st.trace
      → IsTraced (substitute_all lib p now st r names)
  unfolding substitute_all
  substitute_all-IsTraced [] st r same declared h = (same, h)
  substitute_all-IsTraced (name ∷ names) st r same (d, declared) h =
      then_request-IsTraced (substitute_one lib p now st r name) _ (one-IsTraced r same name st d h)
        (λ r' st' same' k. substitute_all-IsTraced names st' r' same' declared k)

  sent-IsJustified :
      (inner : Request → InnerReply) (x : Step Request × State S)
      → allows_host lib.lower p.descriptor host ≡ true
      → IsTraced x
      → All IsJustified (send_on lib p now inner x).1.trace
  unfolding send_on
  sent-IsJustified inner (go r, st) allowed (same, h) = ((same, allowed), h)
  sent-IsJustified inner (stop e, st) allowed (same, h) = h

members :
    (names : List String)
    → All (λ (name : String). Any (λ (other : String). other ≡ name) names) names
members [] = tt
members (x ∷ xs) = (inl refl, All-map _ _ xs (λ a h. inr h) (members xs))

module _ (lib : Library) {S : Type 0} (p : Policy S) (now : ℕ) (inner : Request → InnerReply) where
  allowed-IsJustified :
      (s : S) (r : Request) (c : Bool)
      → allows_host lib.lower p.descriptor r.host ≡ c
      → let st : State S = record { store = s; trace = [] } in
        All
          (IsJustified lib p now r.host)
          (if c
            then send_on lib p now inner (substitute_credentials lib p now st r)
            else (Answer.denied r.host, st)).1.trace
  unfolding substitute_credentials
  allowed-IsJustified s r false e = tt
  allowed-IsJustified s r true e =
      sent-IsJustified lib p now r.host inner
        (substitute_all lib p now (record { store = s; trace = [] }) r p.declared_credentials) e
        (substitute_all-IsTraced lib p now r.host p.declared_credentials
          (record { store = s; trace = [] }) r refl (members p.declared_credentials) tt)

  -- Whatever Do is asked, every event it causes is justified: a credential is looked up only if it
  -- is declared and may be used on the host, a secret is read or refreshed only for such a
  -- credential and in the role of its kind, and a request is sent only to the host that was asked
  -- for and only if it is allowed.
  pub do_request-IsJustified :
      (s : S) (r : Request)
      → All
          (IsJustified lib p now r.host)
          (do_request lib p now inner (record { store = s; trace = [] }) r).1.trace
  unfolding do_request
  do_request-IsJustified s r =
      allowed-IsJustified s r (allows_host lib.lower p.descriptor r.host) refl
