-- ===== src/Permissions/Tests.antt =====
-- Installing a version again.
use particles.Base.{
  String, ◌≡◌, ◌↔◌, ◌⊎◌, refl, Option, none, some, [], ◌∷◌, str_append, sort_strings,
}
use particles.Base.Dict
use particles.Permissions.{
  auto, skip, Permissions, not_asked, no_prompter, canonical, confirm_permissions,
}
use particles.Permissions.Confirmation.{IsSettled, to_approve, not_asked_iff}

abbrev as_it_is : String → Option String
as_it_is text = some text

abbrev in_quotes : String → String
in_quotes text = str_append "'" (str_append text "'")

abbrev declared : Permissions
declared = record { capabilities = some (("kv", "{}") ∷ ("http", "{}") ∷ []); credentials = none }

sorted_form : canonical as_it_is in_quotes declared.capabilities ≡ some "{'http':{},'kv':{}}"
unfolding canonical sort_strings Dict.get
sorted_form = refl

again : confirm_permissions as_it_is in_quotes auto "1.0.0" declared declared none ≡ not_asked
unfolding confirm_permissions Dict.get Dict.delete sort_strings
again = refl

-- The same credentials, and the key-value store that is new
abbrev without_kv : Permissions
without_kv = record { capabilities = none; credentials = some (("key", "{}") ∷ []) }

abbrev with_kv : Permissions
with_kv = record {
  capabilities = some (("kv", "{}") ∷ []);
  credentials = some (("key", "{}") ∷ []);
}

kv_asks : confirm_permissions as_it_is in_quotes auto "1.0.0" without_kv with_kv none ≡ no_prompter
unfolding confirm_permissions Dict.get Dict.delete sort_strings
kv_asks = refl

not_asked_iff_example :
    (confirm_permissions as_it_is in_quotes auto "1.0.0" declared declared none ≡ not_asked) ↔ (
      (auto ≡ skip)
      ⊎ ((auto ≡ auto)
          × IsSettled as_it_is in_quotes "1.0.0" (to_approve declared) (to_approve declared)))
not_asked_iff_example = not_asked_iff as_it_is in_quotes auto "1.0.0" declared declared none
