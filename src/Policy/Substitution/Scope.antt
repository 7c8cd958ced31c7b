-- ===== src/Policy/Substitution/Scope.antt =====
-- Theorems on the hosts of a credential in newHTTPPolicy and substituteOne of runtime/policy.go.
use particles.Base.{
  ℕ, String, ◌≡◌, ◌↔◌, inl, inr, refl, sym, ap, ◌∙◌, subst, true, Option, none, some, List, [], ◌∷◌,
  str_eq, eq_iff, Bool-cases, arith,
}
use particles.Base.Dict
use particles.Base.Dict.{Dict, get-set, HasDistinctKeys, IsAbsent}
use particles.Policy.{HostSet, host_set, new_http_policy, allows_host, is_in}
use particles.Policy.Hosts.{IsListed, allows_host_iff}
use particles.Policy.Substitution.{Library, Policy, bind_hosts, in_scope}

abbrev bound_set : (String → String) → Option (List String) → Option HostSet
bound_set lower none = none
bound_set lower (some []) = none
bound_set lower (some (h ∷ hosts)) = some (host_set lower (h ∷ hosts) [])

get_absent : {V : Type 0} (name : String) (m : Dict V) → IsAbsent name m → Dict.get name m ≡ none
unfolding Dict.get
get_absent name [] h = refl
get_absent name ((k, v) ∷ m) (e, h) = ground (arith, e, get_absent name m h)

get-bind_hosts :
    (lower : String → String) (name : String) (hosts : Dict (List String))
    → HasDistinctKeys hosts
    → Dict.get name (bind_hosts lower hosts) ≡ bound_set lower (Dict.get name hosts)
unfolding bind_hosts Dict.get
get-bind_hosts lower name [] h = refl
get-bind_hosts lower name ((k, []) ∷ rest) (absent, h) = elim (Bool-cases (str_eq k name)) [
  | inl e ↦
      let missing : Dict.get name rest ≡ none =
        subst (λ (x : String). Dict.get x rest ≡ none) ((eq_iff k name).0 e)
          (get_absent k rest absent) in
      ground (arith, e, missing, get-bind_hosts lower name rest h)
  | inr e ↦ ground (arith, e, get-bind_hosts lower name rest h)
]
get-bind_hosts lower name ((k, x ∷ xs) ∷ rest) (absent, h) = ground (
  arith,
  get-bind_hosts lower name rest h,
  get-set k name (host_set lower (x ∷ xs) []) (bind_hosts lower rest),
)

-- The credential has no hosts of its own, or the host is one of them.
abbrev pub IsForHost : (String → String) → String → Option (List String) → Type 0
IsForHost lower host none = Unit
IsForHost lower host (some []) = Unit
IsForHost lower host (some (h ∷ hosts)) = IsListed lower host (h ∷ hosts)

scope_iff :
    (lower : String → String) (host : String) (o : Option (List String))
    → ((elim (bound_set lower o) [ none ↦ true | some hosts ↦ is_in hosts (lower host) ]) ≡ true)
      ↔ IsForHost lower host o
scope_iff lower host none = (λ h. tt, λ h. refl)
scope_iff lower host (some []) = (λ h. tt, λ h. refl)
scope_iff lower host (some (h ∷ hosts)) =
    unfold allows_host new_http_policy in allows_host_iff lower (h ∷ hosts) host

-- A credential may be used on a host exactly where its list of hosts names the host, in any case, or
-- where it has no list or an empty one. A list that is not empty but holds only empty names allows it
-- nowhere.
pub in_scope_iff :
    (lib : Library) {S : Type 0} (p : Policy S) (now : ℕ) (hosts : Dict (List String))
    (name host : String)
    → HasDistinctKeys hosts
    → p.credential_hosts ≡ bind_hosts lib.lower hosts
    → (in_scope lib p now name host ≡ true) ↔ IsForHost lib.lower host (Dict.get name hosts)
unfolding in_scope
in_scope_iff lib p now hosts name host distinct e =
    subst
      (λ (o : Option HostSet).
        ((elim o [ none ↦ true | some set ↦ is_in set (lib.lower host) ]) ≡ true)
        ↔ IsForHost lib.lower host (Dict.get name hosts))
      (sym (ap (Dict.get name) e ∙ get-bind_hosts lib.lower name hosts distinct))
      (scope_iff lib.lower host (Dict.get name hosts))
