-- ===== src/Policy/Tests.antt =====
-- The policy at concrete inputs: the particle has one API key, for the host api.example.
use particles.Base.{
  String, refl, Option, none, some, [], ◌∷◌, ◌≡◌, ◌≢◌, ◌↔◌, true, false, All, length, ◌≤◌,
}
use particles.Base.Dict
use particles.Credentials.{apikey_meta, raw_meta, ApplyKind}
use particles.Credentials.Memory
use particles.Credentials.Memory.{
  Entry, Backend, new_backend, put, id_pointer, name_pointer, empty_role_at,
}
use particles.Credentials.Memory.Isolation.{put_call, step}
use particles.Credentials.Store.{memory_store}
use particles.Policy.{Request, new_http_policy, allows_host, host_set, header_get, is_in}
use particles.Credentials.Host.{placeholder_for}
use particles.Policy.Hosts.{IsListed, allows_host_iff}
use particles.Policy.Client
use particles.Policy.Client.{Response, RoundTrip, client_do, client_do-IsAllowed}
use particles.Policy.Substitution.{
  Library, Policy, InnerReply, reply, recoded, do_request, in_scope, Event, bind_hosts,
}
use particles.Policy.Substitution.{bind_hosts}
use particles.Policy.Substitution.Scope.{IsForHost, in_scope_iff}
use particles.Policy.Substitution.Trace.{IsJustified, do_request-IsJustified}
use particles.Policy.Substitution.Literal.{SendsOnly, literal_request}

abbrev same : String → String
same s = s

abbrev lib : Library
lib = record {
  lower = same;
  canonical = same;
  parse_query = λ q. [];
  encode_query = λ q. "";
  bytes = λ s. [];
  text = λ b. "the key";
  base64 = λ b. "";
  unmarshal = λ b. none;
}

abbrev backend : Backend
backend =
    step
      (new_backend (λ a. record { id = ""; name = ""; method = ""; meta = raw_meta; secrets = [] }))
      "cat"
      (put_call "u1" "api" "key"
        (some (apikey_meta (record { kind = ApplyKind.header; name = "X-Key"; scheme = "" })))
        (record { role = "key"; value = 9 ∷ [] } ∷ []))

abbrev policy : Policy Backend
policy = record {
  descriptor = some (new_http_policy same ("api.example" ∷ []));
  store = memory_store "cat";
  declared_credentials = "api" ∷ [];
  credential_hosts = ("api", ("api.example", tt) ∷ []) ∷ [];
  refresh_access_token = none;
}

abbrev request : String → Request
request key = record {
  method = "GET";
  host = "api.example";
  path = "/";
  raw_query = "";
  headers = ("X-Key", key ∷ []) ∷ [];
  body = [];
}

abbrev ok_response : Response
ok_response = record { status = 200; location = ""; body = "" }

abbrev inner : Request → InnerReply
inner r = reply ok_response

-- The placeholder in its place gives way to the key, which is read once.
substituted_run :
    (do_request lib policy 0 inner
      (record { store = backend; trace = [] })
      (request "__particle_cred_u1")).1.trace
    ≡ Event.sent (request "the key") ∷ Event.secret_read "u1" "key" ∷ Event.looked_up "api" ∷ []
unfolding do_request allows_host is_in Dict.get new_http_policy host_set Dict.set Memory.get_by_name
    name_pointer step put empty_role_at Memory.read_secret id_pointer Memory.write_all
substituted_run = refl

allows_host_iff_example :
    (allows_host same (some (new_http_policy same ("" ∷ "api.example" ∷ []))) "api.example" ≡ true)
    ↔ IsListed same "api.example" ("" ∷ "api.example" ∷ [])
allows_host_iff_example = allows_host_iff same ("" ∷ "api.example" ∷ []) "api.example"

abbrev found_elsewhere : Request → RoundTrip
found_elsewhere r =
    Client.answered (record { status = 302; location = "http://b.example"; body = "" })

abbrev elsewhere : Request → Response → Option Request
elsewhere r a = some (record r { host = "b.example" })

client_do-IsAllowed_example :
    ((client_do same policy.descriptor found_elsewhere elsewhere (request "")).0
      ≢ Client.out_of_fuel)
    × (length (client_do same policy.descriptor found_elsewhere elsewhere (request "")).1 ≤ 10)
    × All
        (Client.IsAllowed same policy.descriptor found_elsewhere elsewhere)
        (client_do same policy.descriptor found_elsewhere elsewhere (request "")).1
unfolding allows_host is_in Dict.get new_http_policy host_set Dict.set
client_do-IsAllowed_example =
    client_do-IsAllowed same policy.descriptor found_elsewhere elsewhere (request "") refl

do_request-IsJustified_example :
    All
      (IsJustified lib policy 0 "api.example")
      (do_request lib policy 0 inner
        (record { store = backend; trace = [] })
        (request "__particle_cred_u1")).1.trace
do_request-IsJustified_example =
    do_request-IsJustified lib policy 0 inner backend (request "__particle_cred_u1")

literal_request_example :
    let (answer, st) =
      do_request lib policy 0 inner (record { store = backend; trace = [] }) (request "u1") in
    (answer ≡ recoded lib policy 0 inner (inner (request "u1")))
    × (st.store ≡ backend)
    × SendsOnly lib policy 0 (request "u1") st.trace
unfolding allows_host is_in Dict.get new_http_policy host_set Dict.set Memory.get_by_name
    name_pointer step put empty_role_at header_get placeholder_for
literal_request_example =
    literal_request lib policy 0 inner backend (request "u1") refl ((λ e. refl), tt)

-- A list with one empty name
abbrev blank_hosts : Policy Backend
blank_hosts = record policy { credential_hosts = bind_hosts same (("api", "" ∷ []) ∷ []) }

nowhere : in_scope lib blank_hosts 0 "api" "api.example" ≡ false
unfolding bind_hosts host_set Dict.set Dict.get is_in in_scope
nowhere = refl

in_scope_iff_example :
    (in_scope lib policy 0 "api" "api.example" ≡ true)
    ↔ IsForHost same "api.example" (Dict.get "api" (("api", "api.example" ∷ []) ∷ []))
unfolding bind_hosts host_set Dict.set Dict.get
in_scope_iff_example =
    in_scope_iff lib policy 0 (("api", "api.example" ∷ []) ∷ []) "api" "api.example" (tt, tt) refl
