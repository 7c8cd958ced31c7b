-- ===== src/Policy/Client.antt =====
-- runtime/options.go, the http.Client with CheckRedirect that a particle has by default: a chain of
-- redirects. `send` is the network, `redirect` the next request that a response asks for.
use particles.Base.{
  ℕ, suc, zero, ◌+◌, ◌≤◌, String, ◌≡◌, ◌≢◌, refl, true, Option, none, some, List, [], ◌∷◌, All,
  arith, length, ◌⊎◌, inl, inr,
}
use particles.Policy.{
  Request, HttpPolicy, RedirectError, check_redirect, allows_host, max_redirects,
}

pub record Response : Type 0 where
  pub status : ℕ
  pub location : String
  pub body : String

-- What one round trip gives.
pub data RoundTrip : Type 0 where
  answered : Response → RoundTrip
  failed : String → RoundTrip

-- What Do of a client answers; a policy's refusal of a hop is wrapped in the error.
pub data ClientReply : Type 0 where
  response : Response → ClientReply
  hop_refused : RedirectError → ClientReply
  network_error : String → ClientReply
  out_of_fuel : ClientReply

module _ (lower : String → String) (policy : Option HttpPolicy) (send : Request → RoundTrip)
    (redirect : Request → Response → Option Request) where
  abbrev next_of : Request → RoundTrip → ClientReply ⊎ Request
  next_of r (failed e) = inl (network_error e)
  next_of r (answered a) = elim (redirect r a) [ none ↦ inl (response a) | some next ↦ inr next ]

  -- After `r` was sent: the answer, or what follows on the next request.
  abbrev go_on :
      Request
      → ClientReply ⊎ Request
      → (Request → ClientReply × List Request)
      → ClientReply × List Request
  go_on r (inl reply) rest = (reply, r ∷ [])
  go_on r (inr next) rest = let (reply, sent) = rest next in (reply, r ∷ sent)

  -- The hop, if the check passes; `rest` is what sending it gives.
  abbrev hop : Option RedirectError → ClientReply × List Request → ClientReply × List Request
  hop (some e) rest = (hop_refused e, [])
  hop none rest = rest

  -- The answer, and the requests that were sent, after `via` earlier ones.
  unfoldable pub follow : ℕ → ℕ → Request → ClientReply × List Request
  follow zero via r = (out_of_fuel, [])
  follow (suc fuel) via r = go_on r (next_of r (send r)) (λ (next : Request).
      hop (check_redirect lower policy next (suc via)) (follow fuel (suc via) next))

  -- http.Client.Do: at most `max_redirects` requests are sent.
  unfoldable pub client_do : Request → ClientReply × List Request
  unfolding follow
  client_do r = follow max_redirects 0 r

  abbrev pub IsAllowed : Request → Type 0
  IsAllowed r = allows_host lower policy r.host ≡ true

  check_passed :
      (next : Request) (via : ℕ)
      → check_redirect lower policy next via ≡ none
      → IsAllowed next × (suc via ≤ max_redirects)
  unfolding check_redirect
  check_passed next via h = ground arith

  hop-All :
      (next : Request) (via : ℕ) (o : Option RedirectError) (rest : ClientReply × List Request)
      → check_redirect lower policy next via ≡ o
      → (IsAllowed next → All IsAllowed rest.1)
      → All IsAllowed (hop o rest).1
  hop-All next via none rest e h = h (check_passed next via e).0
  hop-All next via (some x) rest e h = tt

  go_on-All :
      (r : Request) (o : ClientReply ⊎ Request) (rest : Request → ClientReply × List Request)
      → IsAllowed r
      → ((next : Request) → All IsAllowed (rest next).1)
      → All IsAllowed (go_on r o rest).1
  go_on-All r (inl reply) rest h k = (h, tt)
  go_on-All r (inr next) rest h k = (h, k next)

  follow-All : (fuel via : ℕ) (r : Request) → IsAllowed r → All IsAllowed (follow fuel via r).1
  unfolding follow
  follow-All zero via r h = tt
  follow-All (suc fuel) via r h = go_on-All r (next_of r (send r)) _ h (λ next.
      hop-All next (suc via) (check_redirect lower policy next (suc via))
        (follow fuel (suc via) next) refl (follow-All fuel (suc via) next))

  -- An answer, and no more requests than the limit leaves after `via`.
  abbrev IsBounded : ℕ → ClientReply × List Request → Type 0
  IsBounded via (reply, sent) = (reply ≢ out_of_fuel) × (via + length sent ≤ max_redirects)

  hop-IsBounded :
      (next : Request) (via : ℕ) (o : Option RedirectError) (rest : ClientReply × List Request)
      → check_redirect lower policy next via ≡ o
      → via ≤ max_redirects
      → (suc via ≤ max_redirects → IsBounded via rest)
      → IsBounded via (hop o rest)
  hop-IsBounded next via none rest e small h = h (check_passed next via e).1
  hop-IsBounded next via (some x) rest e small h = (λ k. cc, ground arith)

  go_on-IsBounded :
      (r : Request) (t : RoundTrip) (via : ℕ) (rest : Request → ClientReply × List Request)
      → suc via ≤ max_redirects
      → ((next : Request) → IsBounded (suc via) (rest next))
      → IsBounded via (go_on r (next_of r t) rest)
  go_on-IsBounded r (failed e) via rest small k = (λ x. cc, ground arith)
  go_on-IsBounded r (answered a) via rest small k =
      elim (redirect r a)
        as (λ (o : Option Request).
          IsBounded via
            (go_on r (elim o [ none ↦ inl (response a) | some next ↦ inr next ]) rest)) [
              | none ↦ (λ x. cc, ground arith)
              | some next ↦ ((k next).0, ground (arith, (k next).1))
            ]

  follow-IsBounded :
      (fuel via : ℕ) (r : Request)
      → max_redirects ≤ via + fuel
      → suc via ≤ max_redirects
      → IsBounded via (follow fuel via r)
  unfolding follow
  follow-IsBounded zero via r h small = ground arith
  follow-IsBounded (suc fuel) via r h small = go_on-IsBounded r (send r) via _ small (λ next.
      hop-IsBounded next (suc via) (check_redirect lower policy next (suc via))
        (follow fuel (suc via) next) refl small
        (λ k. follow-IsBounded fuel (suc via) next (ground arith) k))

  -- From an allowed request, whatever the network answers and wherever it redirects to, the client
  -- ends after at most ten requests, and every one of them goes to an allowed host.
  pub client_do-IsAllowed :
      (r : Request)
      → IsAllowed r
      → let (reply, sent) = client_do r in
        (reply ≢ out_of_fuel) × (length sent ≤ 10) × All IsAllowed sent
  unfolding client_do
  client_do-IsAllowed r h =
      let (ends, few) = follow-IsBounded max_redirects 0 r (ground arith) (ground arith) in
      (ends, ground (arith, few), follow-All max_redirects 0 r h)
