-- ===== src/Credentials/HostTests.antt =====
-- The adapters of the credential store at concrete inputs.
use particles.Base.{ℕ, String, refl, some, List, [], ◌∷◌, ◌≡◌, ◌↔◌, true}
use particles.Base.Dict
use particles.Credentials.{raw_meta, oauth2_meta, OAuth2Meta, Bytes, Result, ok, err, other}
use particles.Credentials.Memory
use particles.Credentials.Memory.{
  Entry, Backend, new_backend, put, id_pointer, name_pointer, empty_role_at,
}
use particles.Credentials.Memory.Consistency.{IsConsistent, new_backend-IsConsistent}
use particles.Credentials.Memory.Isolation.{Call, put_call, step, run, run-IsConsistent}
use particles.Credentials.Store.{memory_store, memory_store-IsLawful}
use particles.Credentials.Signing.{Signed, sign, verify, verify_iff-sign}
use particles.Credentials.Oauth.{
  AccessToken, RefreshRequest, RefreshResponse, Outcome, bundle_of, obtain, rotate_access_token,
  refresh, OauthError,
}
use particles.Credentials.Oauth.Rotation.{IsRotated, rotate_done, refresh_failed_keeps}

abbrev blank : ℕ → Entry
blank a = record { id = ""; name = ""; method = ""; meta = raw_meta; secrets = [] }

abbrev provider : OAuth2Meta
provider = record {
  authorization_url = "";
  token_url = "https://a.example/token";
  client_id = "c";
  scopes = [];
  flow = "device-code";
}

abbrev calls : List (String × Call)
calls =
    (
      "cat",
      put_call "u1" "git" "oauth2" (some (oauth2_meta provider))
          (record { role = "refresh_token"; value = 5 ∷ [] } ∷ []),
    )
    ∷ (
      "cat",
      put_call "u2" "pin" "raw" (some raw_meta) (record { role = "value"; value = 9 ∷ [] } ∷ []),
    )
    ∷ []

abbrev filled : Backend
filled = run (new_backend blank) calls

abbrev filled-IsConsistent : IsConsistent filled
unfolding id_pointer Dict.get step put empty_role_at name_pointer Dict.set
filled-IsConsistent =
    run-IsConsistent (new_backend blank) calls (new_backend-IsConsistent blank) (refl, (refl, tt))

abbrev answer : RefreshResponse
answer = record {
  access_token = 8 ∷ [];
  refresh_token = [];
  expires_at = 60;
  token_type = "Bearer";
}

abbrev exchange : RefreshRequest → Result RefreshResponse
exchange request = ok answer

abbrev refusal : RefreshRequest → Result RefreshResponse
refusal request = err (other "400")

abbrev plain : AccessToken → Bytes
plain token = token.expires_at ∷ []

abbrev show : Bytes → String
show bytes = "t"

verify_iff-sign_example :
    (verify (memory_store "cat") (λ a key message. key) filled "pin" [] [] ≡ Signed.done true)
    ↔ (sign (memory_store "cat") (λ a key message. key) filled "pin" [] ≡ Signed.done [])
verify_iff-sign_example =
    verify_iff-sign (memory_store "cat") (λ a key message. key) filled "pin" [] []

abbrev rotated_token : AccessToken
rotated_token = record { token = "t"; type = "Bearer"; expires_at = 60 }

rotate_done_example :
    (r : RefreshResponse) × (obtain plain show (memory_store "cat") exchange filled "u1"
      ≡ Outcome.done r)
    × (rotated_token ≡ bundle_of plain show r)
    × IsRotated plain show
        (memory_store "cat")
        exchange
        (memory_store-IsLawful "cat")
        filled
        "u1"
        r
        (rotate_access_token plain show (memory_store "cat") exchange filled "u1").1
unfolding rotate_access_token obtain bundle_of Memory.write_secrets Memory.get_by_id run
    Memory.get_by_name name_pointer Dict.get step put empty_role_at Dict.set Memory.read_secret
    id_pointer Memory.write_all
rotate_done_example =
    rotate_done plain show (memory_store "cat") exchange (memory_store-IsLawful "cat") filled "u1"
      rotated_token filled-IsConsistent refl

refresh_failed_keeps_example :
    (refresh plain show (memory_store "cat") exchange filled "pin").1 ≡ filled
unfolding refresh run Memory.get_by_name name_pointer Dict.get step put empty_role_at Dict.set
    Memory.read_secret id_pointer Memory.write_all
refresh_failed_keeps_example =
    refresh_failed_keeps plain show (memory_store "cat") exchange (memory_store-IsLawful "cat")
      filled "pin" OauthError.not_oauth refl
