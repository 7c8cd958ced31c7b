-- ===== src/Permissions.antt =====
-- importer/permissions.go: whether an installation asks the user to confirm what a particle declares.
-- What encoding/json does with one value and one key is a parameter: `value` is the round trip of a
-- raw message, none where it is no JSON, and `quote` the text of a key. What the registry has of the
-- prior version is an argument.
pub mod Confirmation
mod Tests
use particles.Base.{
  String, Bool, true, false, not, ◌&&◌, ◌||◌, Option, none, some, List, [], ◌∷◌, str_eq, str_append,
  sort_strings, if◌then◌else◌,
}
use particles.Base.Dict
use particles.Base.Dict.{Dict}

-- map[string]json.RawMessage: none is the nil map, which is not the empty one.
abbrev pub Raw : Type 0
Raw = Option (Dict String)

pub data PermissionMode : Type 0 where
  auto skip force : PermissionMode

-- The declarations of one version.
pub record Permissions : Type 0 where
  pub capabilities : Raw
  pub credentials : Raw

-- What the user is asked to approve, all capabilities but the key-value store: the map itself where
-- it has none, else a new map, which is not nil.
unfoldable pub approval_caps : Raw → Raw
approval_caps none = none
approval_caps (some caps) = elim (Dict.get "kv" caps) [
  | none ↦ some caps
  | some v ↦ some (Dict.delete "kv" caps)
]

-- len(m) == 0
abbrev pub is_empty : Raw → Bool
is_empty none = true
is_empty (some []) = true
is_empty (some (e ∷ m)) = false

abbrev pub keys : Dict String → List String
keys [] = []
keys ((k, v) ∷ m) = k ∷ keys m

unfoldable pub with_comma : String → List String → String → String
with_comma text [] rest = text
with_comma text (k ∷ ks) rest = str_append text (str_append "," rest)

abbrev pub in_braces : Option String → Option String
in_braces none = none
in_braces (some text) = some (str_append "{" (str_append text "}"))

-- How the confirmation ends: without a question, with the answer of the user, or with an error.
pub data Verdict : Type 0 where
  not_asked accepted declined : Verdict
  compare_failed no_prompter prompt_failed : Verdict

module _ (value : String → Option String) (quote : String → String) where
  abbrev pub joined : String → List String → Option String → Option String → Option String
  joined k ks (some v) (some rest) =
      some (with_comma (str_append (quote k) (str_append ":" v)) ks rest)
  joined k ks _ _ = none

  abbrev pub value_at : Option String → Option String
  value_at none = none
  value_at (some raw) = value raw

  -- The members of an object, in the order of the keys
  unfoldable pub members : Dict String → List String → Option String
  unfolding with_comma
  members m [] = some ""
  members m (k ∷ ks) = joined k ks (value_at (Dict.get k m)) (members m ks)

  -- canonical
  unfoldable pub canonical : Raw → Option String
  unfolding members
  canonical none = some "null"
  canonical (some m) = in_braces (members m (sort_strings (keys m)))

  abbrev both_equal : Option String → Option String → Option Bool
  both_equal (some a) (some b) = some (str_eq a b)
  both_equal _ _ = none

  unfoldable pub json_equal : Raw → Raw → Option Bool
  unfolding canonical
  json_equal a b = both_equal (canonical a) (canonical b)

  -- Whether the permissions are those of a prior version; none where a comparison fails.
  unfoldable pub is_unchanged : String → Permissions → Permissions → Option Bool
  unfolding json_equal
  is_unchanged version prior next =
      if str_eq version ""
      then some false
      else elim (json_equal prior.capabilities next.capabilities) [
        | none ↦ none
        | some caps ↦ elim (json_equal prior.credentials next.credentials) [
          | none ↦ none
          | some creds ↦ some (caps && creds)
        ]
      ]

  -- The question, with the prompter's answer if there is a prompter: none where it fails.
  unfoldable pub ask : Option (Option Bool) → Verdict
  ask none = no_prompter
  ask (some none) = prompt_failed
  ask (some (some true)) = accepted
  ask (some (some false)) = declined

  ask_if_changed : Option Bool → Option (Option Bool) → Verdict
  unfolding ask
  ask_if_changed none prompter = compare_failed
  ask_if_changed (some true) prompter = not_asked
  ask_if_changed (some false) prompter = ask prompter

  confirm_approval :
      PermissionMode → String → Permissions → Permissions → Option (Option Bool) → Verdict
  unfolding is_unchanged ask_if_changed
  confirm_approval skip version prior next prompter = not_asked
  confirm_approval force version prior next prompter = ask prompter
  confirm_approval auto version prior next prompter =
      if is_empty next.capabilities && is_empty next.credentials
      then not_asked
      else ask_if_changed (is_unchanged version prior next) prompter

  abbrev pub approval : Permissions → Permissions
  approval p = record p { capabilities = approval_caps p.capabilities }

  -- confirmPermissions
  unfoldable pub confirm_permissions :
      PermissionMode → String → Permissions → Permissions → Option (Option Bool) → Verdict
  unfolding confirm_approval approval_caps
  confirm_permissions mode version prior next prompter =
      confirm_approval mode version (approval prior) (approval next) prompter
