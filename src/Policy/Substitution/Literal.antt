-- ===== src/Policy/Substitution/Literal.antt =====
-- Theorems on httpPolicy.Do of runtime/policy.go: a request that carries no placeholder where a
-- credential of its host is to be put.
use particles.Base.{
  ℕ, String, ◌≡◌, refl, sym, ap, subst, Bool, true, false, ◌&&◌, not, List, [], ◌∷◌, str_eq,
  if◌then◌else◌, All, arith,
}
use particles.Base.Dict
use particles.Credentials.{
  Descriptor, Metadata, basic_meta, oauth2_meta, apikey_meta, signing_key_meta, raw_meta, ApplySpec,
  ApplyKind, Result, is_not_found,
}
use particles.Credentials.Host.{placeholder_for}
use particles.Policy.{Request, allows_host, header_get, first}
use particles.Policy.Substitution.{
  Library, Policy, Event, looked_up, sent, State, Step, go, stop, lookup_failed, then_do,
  InnerReply, substitute_basic, substitute_bearer, key_in_header, key_in_scheme, key_in_query,
  substitute_api_key, substitute_meta, substitute_found, substitute_one, substitute_all,
  substitute_credentials, in_scope, send_on, do_request, Answer, recoded, with_prefix,
}

module _ (lib : Library) {S : Type 0} (p : Policy S) (now : ℕ) where
  -- Where a key of this kind is to be put stands the placeholder.
  abbrev pub carries_key : Request → String → ApplySpec → ApplyKind → Bool
  carries_key r placeholder location ApplyKind.header =
      not (str_eq location.name "") && str_eq (header_get lib.canonical r location.name) placeholder
  carries_key r placeholder location ApplyKind.auth_scheme =
      not (str_eq location.scheme "")
      && str_eq (header_get lib.canonical r "Authorization")
          (with_prefix location.scheme placeholder)
  carries_key r placeholder location ApplyKind.query_param =
      not (str_eq location.name "")
      && str_eq (first (Dict.get location.name (lib.parse_query r.raw_query))) placeholder
  carries_key r placeholder location _ = false

  abbrev pub carries : Request → Descriptor → Metadata → Bool
  carries r d (basic_meta username) =
      str_eq (header_get lib.canonical r "Authorization")
        (with_prefix "Basic" (placeholder_for d.id))
  carries r d (oauth2_meta m) =
      str_eq (header_get lib.canonical r "Authorization")
        (with_prefix "Bearer" (placeholder_for d.id))
  carries r d (apikey_meta location) = carries_key r (placeholder_for d.id) location location.kind
  carries r d (signing_key_meta a) = false
  carries r d raw_meta = false

  abbrev pub IsLiteralIn : Request → Result Descriptor → Type 0
  IsLiteralIn r (Result.err e) = is_not_found e ≡ true
  IsLiteralIn r (Result.ok d) = carries r d d.meta ≡ false

  -- The credential is not for the host, is not configured, or its placeholder is not in its place.
  abbrev pub IsLiteral : S → Request → String → Type 0
  IsLiteral s r name =
      in_scope lib p now name r.host ≡ true → IsLiteralIn r (p.store.get_by_name s name)

  key_literal :
      (st : State S) (r : Request) (id : String) (location : ApplySpec) (k : ApplyKind)
      → carries_key r (placeholder_for id) location k ≡ false
      → substitute_api_key lib p now st r id (placeholder_for id) location k ≡ (go r, st)
  unfolding substitute_api_key key_in_header key_in_scheme key_in_query
  key_literal st r id location ApplyKind.header h = ground (arith, h)
  key_literal st r id location ApplyKind.auth_scheme h = ground (arith, h)
  key_literal st r id location ApplyKind.query_param h = ground (arith, h)
  key_literal st r id location _ h = refl

  meta_literal :
      (st : State S) (r : Request) (d : Descriptor) (m : Metadata)
      → carries r d m ≡ false
      → substitute_meta lib p now st r d m ≡ (go r, st)
  unfolding substitute_meta substitute_basic substitute_bearer substitute_api_key key_in_header
      key_in_scheme key_in_query
  meta_literal st r d (basic_meta username) h = ground (arith, h)
  meta_literal st r d (oauth2_meta m) h = ground (arith, h)
  meta_literal st r d (apikey_meta location) h = key_literal st r d.id location location.kind h
  meta_literal st r d (signing_key_meta a) h = refl
  meta_literal st r d raw_meta h = refl

  abbrev pub IsLookup : Event → Type 0
  IsLookup (looked_up name) = Unit
  IsLookup _ = ⊥

  -- The latest event is the request's departure, and before it credentials were only looked up.
  abbrev pub SendsOnly : Request → List Event → Type 0
  SendsOnly r trace = (before : List Event) × (trace ≡ sent r ∷ before) × All IsLookup before

  abbrev IsUntouched : S → Request → Step Request × State S → Type 0
  IsUntouched s r (x, st) = (x ≡ go r) × (st.store ≡ s) × All IsLookup st.trace

  found-IsUntouched :
      (s : S) (st : State S) (r : Request) (name : String) (o : Result Descriptor)
      → IsLiteralIn r o
      → st.store ≡ s
      → All IsLookup st.trace
      → IsUntouched s r (substitute_found lib p now st r name o)
  unfolding substitute_found
  found-IsUntouched s st r name (Result.err e) h same quiet =
      (ap (λ (c : Bool). if c then go r else stop (lookup_failed name e)) h, same, quiet)
  found-IsUntouched s st r name (Result.ok d) h same quiet =
      subst (IsUntouched s r) (sym (meta_literal st r d d.meta h)) (refl, same, quiet)

  scoped-IsUntouched :
      (s : S) (st : State S) (r : Request) (name : String) (c : Bool)
      → in_scope lib p now name r.host ≡ c
      → IsLiteral s r name
      → st.store ≡ s
      → All IsLookup st.trace
      → IsUntouched s r (
          if c
          then substitute_found lib p now
              (record st { trace = looked_up name ∷ st.trace })
              r
              name
              (p.store.get_by_name st.store name)
          else (go r, st))
  scoped-IsUntouched s st r name false e h same quiet = (refl, same, quiet)
  scoped-IsUntouched s st r name true e h same quiet =
      subst
        (λ (t : S). IsUntouched s r (
          substitute_found lib p now (record st { trace = looked_up name ∷ st.trace }) r name
            (p.store.get_by_name t name)))
        (sym same)
        (found-IsUntouched s (record st { trace = looked_up name ∷ st.trace }) r name
          (p.store.get_by_name s name) (h e) same (tt, quiet))

  same_request : (r a : Request) → ◌≡◌ {A = Step Request} (go a) (go r) → a ≡ r
  same_request r a e = ground (arith, e)

  then_do-IsUntouched :
      (s : S) (r : Request) (x : Step Request × State S)
      (f : Request → State S → Step Request × State S)
      → IsUntouched s r x
      → ((st : State S) → st.store ≡ s → All IsLookup st.trace → IsUntouched s r (f r st))
      → IsUntouched s r (then_do x f)
  then_do-IsUntouched s r (go a, st) f (e, same, quiet) k =
      subst (λ (b : Request). IsUntouched s r (f b st)) (sym (same_request r a e)) (k st same quiet)
  then_do-IsUntouched s r (stop x, st) f (e, same, quiet) k = cc

  substitute_all-IsUntouched :
      (names : List String) (s : S) (st : State S) (r : Request)
      → All (IsLiteral s r) names
      → st.store ≡ s
      → All IsLookup st.trace
      → IsUntouched s r (substitute_all lib p now st r names)
  unfolding substitute_all substitute_one
  substitute_all-IsUntouched [] s st r literal same quiet = (refl, same, quiet)
  substitute_all-IsUntouched (name ∷ names) s st r (h, literal) same quiet =
      then_do-IsUntouched s r (substitute_one lib p now st r name) _
        (scoped-IsUntouched s st r name (in_scope lib p now name r.host) refl h same quiet)
        (λ st' same' quiet'. substitute_all-IsUntouched names s st' r literal same' quiet')

  module _ (inner : Request → InnerReply) where
    sent_untouched :
        (s : S) (r : Request) (x : Step Request × State S)
        → IsUntouched s r x
        → let (answer, st) = send_on lib p now inner x in
          (answer ≡ recoded lib p now inner (inner r)) × (st.store ≡ s) × SendsOnly r st.trace
    unfolding send_on
    sent_untouched s r (go a, st) (e, same, quiet) =
        let a_is_r = same_request r a e in
        (
          ap (λ (b : Request). recoded lib p now inner (inner b)) a_is_r,
          same,
          (st.trace, ap (λ (b : Request). sent b ∷ st.trace) a_is_r, quiet),
        )
    sent_untouched s r (stop x, st) (e, same, quiet) = cc

    -- An allowed request in which no declared credential's placeholder stands in its place, or only
    -- those of credentials that are for other hosts, is sent exactly as it is, once, as the last event;
    -- before it credentials are only looked up, no secret is read. The answer is that of the inner
    -- doer, and the store is unchanged.
    pub literal_request :
        (s : S) (r : Request)
        → allows_host lib.lower p.descriptor r.host ≡ true
        → All (IsLiteral s r) p.declared_credentials
        → let (answer, st) = do_request lib p now inner (record { store = s; trace = [] }) r in
          (answer ≡ recoded lib p now inner (inner r)) × (st.store ≡ s) × SendsOnly r st.trace
    unfolding do_request substitute_credentials
    literal_request s r allowed literal =
        subst
          (λ (c : Bool).
            let (answer, st) =
              (if c
                then send_on lib p now inner (
                    substitute_all lib p now (record { store = s; trace = [] }) r
                      p.declared_credentials)
                else (Answer.denied r.host, record { store = s; trace = [] })) in
            (answer ≡ recoded lib p now inner (inner r)) × (st.store ≡ s) × SendsOnly r st.trace)
          (sym allowed)
          (sent_untouched s r
            (substitute_all lib p now (record { store = s; trace = [] }) r p.declared_credentials)
            (substitute_all-IsUntouched p.declared_credentials s (record { store = s; trace = [] })
              r literal refl tt))
