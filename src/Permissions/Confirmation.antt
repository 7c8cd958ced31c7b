-- ===== src/Permissions/Confirmation.antt =====
-- Theorems on confirmPermissions of importer/permissions.go: when the user is not asked.
use text.Mathlib.Text.{starts_with}
use text.Mathlib.TextLemmas.{append_cancel_left, append_cancel_right}
use text.Mathlib.TextPositions.{starts_with-append}
use particles.Base.{
  ap, ◌∙◌, str_append, sym, subst, str_eq, Option-cases, if◌then◌else◌, String, ◌≡◌, ◌≢◌, ◌↔◌, ◌⊎◌,
  inl, inr, refl, sort_strings, Bool, true, false, Option, none, some, [], ◌∷◌, eq_iff, arith,
}
use particles.Base.Dict
use particles.Base.Dict.{Dict}
use particles.Permissions.{
  approval_caps, members, in_braces, keys, Raw, canonical, PermissionMode, auto, skip, force,
  Permissions, approval, is_empty, not_asked, ask, ask_if_changed, is_unchanged, json_equal,
  both_equal, confirm_approval, confirm_permissions,
}

-- A map, nil or not, without an entry
abbrev pub HasNone : Raw → Type 0
HasNone none = Unit
HasNone (some []) = Unit
HasNone (some (e ∷ m)) = ⊥

is_empty_iff : (m : Raw) → (is_empty m ≡ true) ↔ HasNone m
is_empty_iff none = (λ h. tt, λ h. refl)
is_empty_iff (some []) = (λ h. tt, λ h. refl)
is_empty_iff (some (e ∷ m)) = (λ h. cc, λ h. elim h [ ])

-- The entries but that of the key-value store
abbrev pub others : Dict String → Dict String
others [] = []
others ((k, v) ∷ m) = let rest = others m in if str_eq k "kv" then rest else (k, v) ∷ rest

-- A map without the key-value store; a nil map stays nil.
abbrev pub without_kv : Raw → Raw
without_kv none = none
without_kv (some m) = some (others m)

absent_others : (m : Dict String) → Dict.get "kv" m ≡ none → others m ≡ m
unfolding Dict.get
absent_others [] h = refl
absent_others ((k, v) ∷ m) h = ground (arith, h, absent_others m)

delete_others : (m : Dict String) → Dict.delete "kv" m ≡ others m
unfolding Dict.delete
delete_others [] = refl
delete_others ((k, v) ∷ m) = ground (arith, delete_others m)

approval_caps_lem : (m : Raw) → approval_caps m ≡ without_kv m
unfolding approval_caps
approval_caps_lem none = refl
approval_caps_lem (some m) = elim (Option-cases (Dict.get "kv" m)) [
  | inl e ↦ rw (e, approval_caps) (ap (λ (d : Dict String). some d) (sym (absent_others m e)))
  | inr (v, e) ↦ rw (e, approval_caps) (ap (λ (d : Dict String). some d) (delete_others m))
]

-- What there is to approve
abbrev pub to_approve : Permissions → Permissions
to_approve p = record p { capabilities = without_kv p.capabilities }

abbrev opens_object : Option String → Bool
opens_object none = false
opens_object (some text) = starts_with text "{"

module _ (value : String → Option String) (quote : String → String) where
  abbrev pub sorted_members : Dict String → Option String
  sorted_members m = members value quote m (sort_strings (keys m))

  -- Both have the same JSON: both are nil, or neither is and their members, sorted by key, are valid
  -- and the same.
  abbrev pub HasSameForm : Raw → Raw → Type 0
  HasSameForm none none = Unit
  HasSameForm (some a) (some b) = (sorted_members a ≡ sorted_members b) × (sorted_members a ≢ none)
  HasSameForm _ _ = ⊥

  -- Nothing to approve, or the same as a prior version that is known.
  abbrev pub IsSettled : String → Permissions → Permissions → Type 0
  IsSettled version prior next =
      (HasNone next.capabilities × HasNone next.credentials)
      ⊎ ((version ≢ "")
          × HasSameForm prior.capabilities next.capabilities
          × HasSameForm prior.credentials next.credentials)

  both_equal_iff :
      (o p : Option String) → (both_equal value quote o p ≡ some true) ↔ ((o ≡ p) × (o ≢ none))
  both_equal_iff none p = (λ h. cc, λ h. ground arith)
  both_equal_iff (some a) none = (λ h. cc, λ h. ground arith)
  both_equal_iff (some a) (some b) =
      (λ h. ground (arith, eq_iff a b), λ h. ground (arith, eq_iff a b))

  -- The form of a nil map is that of no other map.
  nil_form : (m : Dict String) → canonical value quote none ≢ canonical value quote (some m)
  unfolding canonical
  nil_form m = by_members (members value quote m (sort_strings (keys m)))
    where
      by_members : (o : Option String) → ◌≢◌ {A = Option String} (some "null") (in_braces o)
      by_members none = λ h. cc
      by_members (some text) = λ h.
          let braced = starts_with-append "{" (str_append text "}") in
          let null_braced : starts_with "null" "{" ≡ true = ap opens_object h ∙ braced in
          cc null_braced

  in_braces_iff :
      (o p : Option String)
      → ((in_braces o ≡ in_braces p) × (in_braces o ≢ none)) ↔ ((o ≡ p) × (o ≢ none))
  in_braces_iff none p = (λ h. absurd (h.1 refl), λ h. absurd (h.1 refl))
  in_braces_iff (some x) none = (λ h. cc, λ h. cc)
  in_braces_iff (some x) (some y) = (
    λ (e, h). (
      ap (λ (t : String). some t)
          (append_cancel_right x y "}"
            (append_cancel_left "{" (str_append x "}") (str_append y "}") (ground (arith, e)))),
      λ k. cc,
    ),
    λ (e, h). (ap in_braces e, λ k. cc),
  )

  form_iff :
      (a b : Raw)
      → ((canonical value quote a ≡ canonical value quote b) × (canonical value quote a ≢ none))
        ↔ HasSameForm a b
  unfolding canonical
  form_iff none none = (λ h. tt, λ h. (refl, λ k. cc))
  form_iff none (some b) = (λ h. nil_form b h.0, λ h. elim h [ ])
  form_iff (some a) none = (λ h. nil_form a (sym h.0), λ h. elim h [ ])
  form_iff (some a) (some b) = in_braces_iff (sorted_members a) (sorted_members b)

  json_equal_iff : (a b : Raw) → (json_equal value quote a b ≡ some true) ↔ HasSameForm a b
  unfolding json_equal
  json_equal_iff a b =
      let forms = both_equal_iff (canonical value quote a) (canonical value quote b) in
      (λ h. (form_iff a b).0 (forms.0 h), λ h. forms.1 ((form_iff a b).1 h))

  is_unchanged_iff :
      (version : String) (prior next : Permissions)
      → (is_unchanged value quote version prior next ≡ some true) ↔ (
          (version ≢ "")
          × HasSameForm prior.capabilities next.capabilities
          × HasSameForm prior.credentials next.credentials)
  unfolding is_unchanged
  is_unchanged_iff version prior next = (
    λ h. ground (
      arith,
      eq_iff version "",
      json_equal_iff prior.capabilities next.capabilities,
      json_equal_iff prior.credentials next.credentials,
    ),
    λ h. ground (
      arith,
      eq_iff version "",
      json_equal_iff prior.capabilities next.capabilities,
      json_equal_iff prior.credentials next.credentials,
    ),
  )

  ask_asks : (prompter : Option (Option Bool)) → ask value quote prompter ≢ not_asked
  unfolding ask
  ask_asks none = λ h. cc
  ask_asks (some none) = λ h. cc
  ask_asks (some (some true)) = λ h. cc
  ask_asks (some (some false)) = λ h. cc

  ask_if_changed_iff :
      (o : Option Bool) (prompter : Option (Option Bool))
      → (ask_if_changed value quote o prompter ≡ not_asked) ↔ (o ≡ some true)
  unfolding ask_if_changed
  ask_if_changed_iff none prompter = (λ h. cc, λ h. cc)
  ask_if_changed_iff (some true) prompter = (λ h. refl, λ h. refl)
  ask_if_changed_iff (some false) prompter = (λ h. ground (arith, h, ask_asks prompter), λ h. cc)

  approval_iff :
      (mode : PermissionMode) (version : String) (prior next : Permissions)
      (prompter : Option (Option Bool))
      → (confirm_approval value quote mode version prior next prompter ≡ not_asked)
        ↔ ((mode ≡ skip) ⊎ ((mode ≡ auto) × IsSettled version prior next))
  unfolding confirm_approval
  approval_iff skip version prior next prompter = (λ h. inl refl, λ h. refl)
  approval_iff force version prior next prompter =
      (λ h. ground (arith, h, ask_asks prompter), λ h. ground (arith, h))
  approval_iff auto version prior next prompter =
      let caps = is_empty_iff next.capabilities in
      let creds = is_empty_iff next.credentials in
      let same = is_unchanged_iff version prior next in
      let asks = ask_if_changed_iff (is_unchanged value quote version prior next) prompter in
      (
        λ h. ground (arith, h, caps, creds, same, asks),
        λ h. ground (arith, h, caps, creds, same, asks),
      )

  -- The user is not asked exactly where the mode is to skip, or where it is automatic and there is
  -- nothing to approve, or a prior version is known whose capabilities, but for the key-value store,
  -- and credentials have the same JSON: of two maps both are nil, or neither is and their members,
  -- sorted by key, are valid and the same.
  pub not_asked_iff :
      (mode : PermissionMode) (version : String) (prior next : Permissions)
      (prompter : Option (Option Bool))
      → (confirm_permissions value quote mode version prior next prompter ≡ not_asked)
        ↔ ((mode ≡ skip) ⊎ ((mode ≡ auto) × IsSettled version (to_approve prior) (to_approve next)))
  unfolding confirm_permissions
  not_asked_iff mode version prior next prompter =
      subst
        (λ (m : Raw).
          (confirm_permissions value quote mode version prior next prompter ≡ not_asked) ↔ (
            (mode ≡ skip)
            ⊎ ((mode ≡ auto)
                × IsSettled version (record prior { capabilities = m }) (to_approve next))))
        (approval_caps_lem prior.capabilities)
        (subst
          (λ (m : Raw).
            (confirm_permissions value quote mode version prior next prompter ≡ not_asked) ↔ (
              (mode ≡ skip)
              ⊎ ((mode ≡ auto)
                  × IsSettled version (approval value quote prior)
                      (record next { capabilities = m }))))
          (approval_caps_lem next.capabilities)
          (approval_iff mode version (approval value quote prior) (approval value quote next)
            prompter))

  -- A known version without capabilities, followed by one that adds only the key-value store, asks
  -- where there are credentials: the capabilities to approve are a nil map and then an empty one.
  kv_alone_asks :
      (version v : String) (creds : Raw) (prompter : Option (Option Bool))
      → ¬ HasNone creds
      → confirm_permissions value quote auto version
          (record { capabilities = none; credentials = creds })
          (record { capabilities = some (("kv", v) ∷ []); credentials = creds })
          prompter
        ≢ not_asked
  kv_alone_asks version v creds prompter some_creds h =
      elim ((not_asked_iff auto version (record { capabilities = none; credentials = creds })
          (record { capabilities = some (("kv", v) ∷ []); credentials = creds }) prompter).0
        h) [
          | inl e ↦ cc
          | inr (e, inl (nothing, no_creds)) ↦ some_creds no_creds
          | inr (e, inr (known, same, creds_same)) ↦ same
        ]
