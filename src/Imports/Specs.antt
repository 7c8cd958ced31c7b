-- ===== src/Imports/Specs.antt =====
-- The texts that parseNpmSpec (internal/importscan/importscan.go) accepts.
use particles.Base.{
  ℕ, ◌≡◌, ◌↔◌, ◌⊎◌, refl, sym, ap, subst, ◌∙◌, Bool, true, false, some, [], ◌∷◌, ◌++◌, append_assoc,
  ◌==◌, if◌then◌else◌, arith, Bool-cases, inl, inr,
}
use particles.Base.Bytes.{
  name_eq, has_prefix, trim_prefix, trimmed, has_prefix-append, has_prefix_sound,
}
use particles.Imports.{
  Bytes, is_slash, is_at_or_slash, cut_at, NpmParts, with_rest, plain_spec, scoped_rest,
  parse_after, npm, parse_npm_spec,
}

-- How a specifier is written
abbrev pub written : NpmParts → Bytes
written parts = npm ++ (parts.name ++ (64 ∷ (parts.version ++ parts.subpath)))

cut_at-append : (stop : ℕ → Bool) (s : Bytes) → (cut_at stop s).0 ++ (cut_at stop s).1 ≡ s
unfolding cut_at
cut_at-append stop [] = refl
cut_at-append stop (b ∷ s) = ground (arith, cut_at-append stop s)

trim_prefix-append : (p x : Bytes) → trim_prefix (p ++ x) p ≡ x
unfolding trim_prefix
trim_prefix-append [] x = refl
trim_prefix-append (a ∷ p) x = ground (arith, trim_prefix-append p x)

-- A version is there, and no byte of it is a slash.
with_rest_sound :
    (name rest : Bytes) (parts : NpmParts)
    → with_rest name rest ≡ some parts
    → name_eq parts.version [] ≡ false
    → name ++ rest ≡ parts.name ++ (64 ∷ (parts.version ++ parts.subpath))
unfolding with_rest name_eq
with_rest_sound name [] parts h v = ground (arith, h, v)
with_rest_sound name (b ∷ rest) parts h v = ground (arith, h, v, cut_at-append is_slash rest)

plain_spec_sound :
    (s : Bytes) (parts : NpmParts)
    → plain_spec s ≡ some parts
    → name_eq parts.version [] ≡ false
    → s ≡ parts.name ++ (64 ∷ (parts.version ++ parts.subpath))
unfolding plain_spec
plain_spec_sound s parts h v =
    sym (cut_at-append is_at_or_slash s)
    ∙ with_rest_sound (cut_at is_at_or_slash s).0 (cut_at is_at_or_slash s).1 parts h v

scoped_rest_sound :
    (scope rest : Bytes) (parts : NpmParts)
    → scoped_rest scope rest ≡ some parts
    → name_eq parts.version [] ≡ false
    → 64 ∷ (scope ++ rest) ≡ parts.name ++ (64 ∷ (parts.version ++ parts.subpath))
unfolding scoped_rest
scoped_rest_sound scope [] parts h v = cc
scoped_rest_sound scope (b ∷ after) parts h v =
    let pkg = (cut_at is_at_or_slash after).0 in
    let rest = (cut_at is_at_or_slash after).1 in
    ap (λ s. 64 ∷ (scope ++ (b ∷ s))) (sym (cut_at-append is_at_or_slash after))
    ∙ (sym (ap (λ s. 64 ∷ s) (append_assoc scope (b ∷ pkg) rest))
        ∙ with_rest_sound (64 ∷ (scope ++ (b ∷ pkg))) rest parts h v)

parse_after_sound :
    (s : Bytes) (parts : NpmParts)
    → parse_after s ≡ some parts
    → name_eq parts.version [] ≡ false
    → s ≡ parts.name ++ (64 ∷ (parts.version ++ parts.subpath))
unfolding parse_after
parse_after_sound [] parts h v = cc
parse_after_sound (b ∷ s) parts h v = elim (Bool-cases (b == 64)) [
  | inr e ↦ plain_spec_sound (b ∷ s) parts (ground (arith, h, e)) v
  | inl e ↦
      let at : b ≡ 64 = ground (arith, e) in
      ap (λ c. c ∷ s) at
      ∙ (ap (λ r. 64 ∷ r) (sym (cut_at-append is_slash s))
          ∙ scoped_rest_sound (cut_at is_slash s).0 (cut_at is_slash s).1 parts
              (ground (arith, h, e)) v)
]

pub parse_npm_spec_sound :
    (spec : Bytes) (parts : NpmParts)
    → parse_npm_spec spec ≡ some parts
    → name_eq parts.version [] ≡ false
    → spec ≡ written parts
unfolding parse_npm_spec trimmed
parse_npm_spec_sound spec parts h v = elim (Bool-cases (has_prefix spec npm)) [
  | inr e ↦ ground (arith, h, e)
  | inl e ↦
      let (rest, is_rest) = has_prefix_sound spec npm e in
      let cut : trim_prefix spec npm ≡ rest =
        ap (λ s. trim_prefix s npm) is_rest ∙ trim_prefix-append npm rest in
      let parsed : parse_after rest ≡ some parts =
        ap (λ s. parse_after s) (sym cut) ∙ ground (arith, h, e) in
      is_rest ∙ ap (λ s. npm ++ s) (parse_after_sound rest parts parsed v)
]

-- No byte is of the kind.
abbrev pub is_free : (ℕ → Bool) → Bytes → Bool
is_free stop [] = true
is_free stop (b ∷ s) = if stop b then false else is_free stop s

-- The text is empty or begins with a byte of the kind.
abbrev pub begins : (ℕ → Bool) → Bytes → Bool
begins stop [] = true
begins stop (b ∷ s) = stop b

cut_at-is_free :
    (stop : ℕ → Bool) (x y : Bytes)
    → is_free stop x ≡ true
    → begins stop y ≡ true
    → cut_at stop (x ++ y) ≡ (x, y)
unfolding cut_at
cut_at-is_free stop [] [] h k = refl
cut_at-is_free stop [] (b ∷ y) h k = ground (arith, k)
cut_at-is_free stop (b ∷ x) y h k =
    let other : stop b ≡ false = ground (arith, h) in
    let rest = cut_at-is_free stop x y (ground (arith, h)) k in rw (other, rest) refl

-- The name of a package: without "@" and "/", or with a scope, "@scope/package"
abbrev pub IsPlain : Bytes → Type 0
IsPlain name = (name_eq name [] ≡ false) × (is_free is_at_or_slash name ≡ true)

abbrev pub IsScoped : Bytes → Type 0
IsScoped name =
    (scope pkg : Bytes) × (name ≡ 64 ∷ (scope ++ (47 ∷ pkg)))
    × (is_free is_slash scope ≡ true)
    × (is_free is_at_or_slash pkg ≡ true)

with_rest_done :
    (name version subpath : Bytes)
    → is_free is_slash version ≡ true
    → begins is_slash subpath ≡ true
    → with_rest name (64 ∷ (version ++ subpath))
      ≡ some (record { name = name; version = version; subpath = subpath })
unfolding with_rest
with_rest_done name version subpath h k =
    ground (arith, cut_at-is_free is_slash version subpath h k)

plain_done :
    (name version subpath : Bytes)
    → IsPlain name
    → is_free is_slash version ≡ true
    → begins is_slash subpath ≡ true
    → parse_after (name ++ (64 ∷ (version ++ subpath)))
      ≡ some (record { name = name; version = version; subpath = subpath })
unfolding parse_after plain_spec name_eq
plain_done [] version subpath (e, f) h k = cc
plain_done (b ∷ name) version subpath (e, f) h k = ground (
  arith,
  f,
  with_rest_done (b ∷ name) version subpath h k,
  cut_at-is_free is_at_or_slash (b ∷ name) (64 ∷ (version ++ subpath)) f refl,
)

scoped_done :
    (scope pkg version subpath : Bytes)
    → is_free is_slash scope ≡ true
    → is_free is_at_or_slash pkg ≡ true
    → is_free is_slash version ≡ true
    → begins is_slash subpath ≡ true
    → parse_after (64 ∷ (scope ++ (47 ∷ (pkg ++ (64 ∷ (version ++ subpath))))))
      ≡ some (record { name = 64 ∷ (scope ++ (47 ∷ pkg)); version = version; subpath = subpath })
unfolding parse_after scoped_rest
scoped_done scope pkg version subpath f g h k =
    let rest = pkg ++ (64 ∷ (version ++ subpath)) in
    ground (
      arith,
      with_rest_done (64 ∷ (scope ++ (47 ∷ pkg))) version subpath h k,
      cut_at-is_free is_slash scope (47 ∷ rest) f refl,
      cut_at-is_free is_at_or_slash pkg (64 ∷ (version ++ subpath)) g refl,
    )

named_done :
    (parts : NpmParts)
    → IsPlain parts.name ⊎ IsScoped parts.name
    → is_free is_slash parts.version ≡ true
    → begins is_slash parts.subpath ≡ true
    → parse_after (parts.name ++ (64 ∷ (parts.version ++ parts.subpath))) ≡ some parts
named_done parts (inl plain) f k = plain_done parts.name parts.version parts.subpath plain f k
named_done parts (inr (scope, pkg, e, g, g')) f k =
    let rest = 64 ∷ (parts.version ++ parts.subpath) in
    ap (λ s. parse_after s)
      (ap (λ n. n ++ rest) e ∙ ap (λ s. 64 ∷ s) (append_assoc scope (47 ∷ pkg) rest))
    ∙ (scoped_done scope pkg parts.version parts.subpath g g' f k
        ∙ ap (λ (n : Bytes). some (record parts { name = n })) (sym e))

-- Where the name is that of a package, with or without a scope, the version is there and has no slash,
-- and the subpath is empty or begins with a slash, a specifier is read as these parts exactly when it
-- is "npm:", the name, "@", the version and the subpath.
pub parse_npm_spec_iff :
    (parts : NpmParts) (spec : Bytes)
    → IsPlain parts.name ⊎ IsScoped parts.name
    → name_eq parts.version [] ≡ false
    → is_free is_slash parts.version ≡ true
    → begins is_slash parts.subpath ≡ true
    → (parse_npm_spec spec ≡ some parts) ↔ (spec ≡ written parts)
unfolding parse_npm_spec trimmed
parse_npm_spec_iff parts spec named v f k = (
  (λ h. parse_npm_spec_sound spec parts h v),
  (λ e.
      let rest = parts.name ++ (64 ∷ (parts.version ++ parts.subpath)) in
      let has : has_prefix (npm ++ rest) npm ≡ true = has_prefix-append npm rest in
      let cut : trim_prefix (npm ++ rest) npm ≡ rest = trim_prefix-append npm rest in
      subst (λ s. parse_npm_spec s ≡ some parts) (sym e)
        (ground (arith, has, cut, named_done parts named f k))),
)
