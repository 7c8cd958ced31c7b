-- ===== src/Policy.antt =====
-- runtime/policy.go: the allow-list of hosts of a particle and its check on redirects, and the
-- requests it is asked about. The sections' parameters stand for pure functions of Go's library:
-- `lower` is strings.ToLower, `canonical` the canonical form of a header's name.
pub mod Hosts
pub mod Client
pub mod Substitution
mod Tests
use particles.Base.{
  ℕ, String, Bool, true, false, Option, none, some, List, [], ◌∷◌, str_eq, leb, if◌then◌else◌,
}
use particles.Base.Dict
use particles.Base.Dict.{Dict}
use particles.Credentials.{Bytes}

-- The parts of http.Request that the policy reads or that it must not change.
pub record Request : Type 0 where
  pub method : String
  -- URL.Hostname()
  pub host : String
  pub path : String
  pub raw_query : String
  pub headers : Dict (List String)
  pub body : Bytes

-- The first value, as http.Header.Get and url.Values.Get give it.
abbrev pub first : Option (List String) → String
first none = ""
first (some []) = ""
first (some (v ∷ rest)) = v

module _ (canonical : String → String) where
  unfoldable pub header_get : Request → String → String
  header_get r name = first (Dict.get (canonical name) r.headers)

  unfoldable pub header_set : Request → String → String → Request
  header_set r name v = record r { headers = Dict.set (canonical name) (v ∷ []) r.headers }

-- map[string]struct{}
abbrev pub HostSet : Type 0
HostSet = Dict (Unit {0})

unfoldable pub is_in : HostSet → String → Bool
is_in set h = elim (Dict.get h set) [ some u ↦ true | none ↦ false ]

-- HTTPPolicy
pub record HttpPolicy : Type 0 where
  pub allowed_hosts : HostSet

abbrev pub max_redirects : ℕ
max_redirects = 10

pub data RedirectError : Type 0 where
  -- HostNotAllowedError
  host_not_allowed : (host : String) → RedirectError
  too_many_redirects : RedirectError

module _ (lower : String → String) where
  -- The set of lower-cased names that are not empty, which both constructors build.
  unfoldable pub host_set : List String → HostSet → HostSet
  host_set [] set = set
  host_set (h ∷ hosts) set = host_set hosts (if str_eq h "" then set else Dict.set (lower h) tt set)

  -- newHTTPPolicyDescriptor
  unfoldable pub new_http_policy : List String → HttpPolicy
  new_http_policy hosts = record { allowed_hosts = host_set hosts [] }

  -- AllowsHost, also on a nil receiver
  unfoldable pub allows_host : Option HttpPolicy → String → Bool
  allows_host none host = false
  allows_host (some p) host = is_in p.allowed_hosts (lower host)

  -- CheckRedirect, by the number of the requests made so far; no error, or the one it returns
  unfoldable pub check_redirect : Option HttpPolicy → Request → ℕ → Option RedirectError
  check_redirect p next via =
      if allows_host p next.host
      then if leb max_redirects via then some too_many_redirects else none
      else some (host_not_allowed next.host)
