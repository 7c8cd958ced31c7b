-- ===== src/Policy/Hosts.antt =====
-- Theorems on AllowsHost of runtime/policy.go: which hosts a policy allows.
use particles.Base.{String, ◌≡◌, ◌≢◌, ◌↔◌, ◌⊎◌, inl, inr, true, some, List, [], ◌∷◌, arith, eq_iff}
use particles.Base.Dict
use particles.Base.Dict.{Dict, get-set}
use particles.Policy.{HostSet, is_in, host_set, new_http_policy, allows_host}

module _ (lower : String → String) where
  -- Some entry of the list is not empty and equals the host without regard to case.
  abbrev pub IsListed : String → List String → Type 0
  IsListed host [] = ⊥
  IsListed host (h ∷ hosts) = ((h ≢ "") × (lower h ≡ lower host)) ⊎ IsListed host hosts

  is_in-set :
      (h host : String) (set : HostSet)
      → (is_in (Dict.set (lower h) tt set) (lower host) ≡ true)
        ↔ ((lower h ≡ lower host) ⊎ (is_in set (lower host) ≡ true))
  unfolding is_in
  is_in-set h host set = (
    λ x. ground (arith, eq_iff (lower h) (lower host), get-set (lower h) (lower host) tt set),
    λ x. ground (arith, eq_iff (lower h) (lower host), get-set (lower h) (lower host) tt set),
  )

  is_in-host_set :
      (hosts : List String) (set : HostSet) (host : String)
      → (is_in (host_set lower hosts set) (lower host) ≡ true)
        ↔ (IsListed host hosts ⊎ (is_in set (lower host) ≡ true))
  unfolding host_set
  is_in-host_set [] set host = (λ h. inr h, λ h. elim h [ inl x ↦ elim x [ ] | inr y ↦ y ])
  is_in-host_set (h ∷ hosts) set host = (
    λ x. ground (
      arith,
      eq_iff h "",
      is_in-host_set hosts set host,
      is_in-set h host set,
      is_in-host_set hosts (Dict.set (lower h) tt set) host,
    ),
    λ x. ground (
      arith,
      eq_iff h "",
      is_in-host_set hosts set host,
      is_in-set h host set,
      is_in-host_set hosts (Dict.set (lower h) tt set) host,
    ),
  )

  -- A policy allows exactly the hosts that its list names, in any case; an empty name allows none.
  pub allows_host_iff :
      (hosts : List String) (host : String)
      → (allows_host lower (some (new_http_policy lower hosts)) host ≡ true) ↔ IsListed host hosts
  unfolding allows_host new_http_policy
  allows_host_iff hosts host = (
    λ h. elim ((is_in-host_set hosts [] host).0 h) [
      | inl y ↦ y
      | inr y ↦ unfold is_in Dict.get in cc
    ],
    λ h. (is_in-host_set hosts [] host).1 (inl h),
  )
