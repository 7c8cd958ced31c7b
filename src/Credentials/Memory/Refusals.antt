-- ===== src/Credentials/Memory/Refusals.antt =====
-- What Put of credentials/memory/memory.go refuses.
use particles.Base.{
  ℕ, ◌+◌, String, ◌≡◌, ◌≢◌, ◌⊎◌, inl, inr, refl, Bool, true, false, Option, none, some, List, [],
  ◌∷◌, All, arith, str_eq, eq_iff, if◌then◌else◌,
}
use particles.Credentials.{Metadata, Secret, Descriptor, Result, ok, err, no_name, no_method}
use particles.Credentials.Memory.{Backend, empty_role_at, put_checked, put}

-- Metadata, a name and a method are given, and every secret has a role.
abbrev pub IsAcceptable : String → String → Option Metadata → List Secret → Type 0
IsAcceptable name method meta secrets =
    (meta ≢ none) × (name ≢ "") × (method ≢ "") × All (λ (s : Secret). s.role ≢ "") secrets

-- Put answers an entry, or it answers an error and leaves the store alone.
abbrev pub IsStored : Result Descriptor × Backend → Type 0
IsStored (ok d, b) = Unit
IsStored (err e, b) = ⊥

abbrev pub IsRefused : Backend → Result Descriptor × Backend → Type 0
IsRefused b (ok d, b') = ⊥
IsRefused b (err e, b') = b' ≡ b

roles_given :
    (secrets : List Secret) (i : ℕ)
    → empty_role_at i secrets ≡ none
    → All (λ (s : Secret). s.role ≢ "") secrets
unfolding empty_role_at
roles_given [] i h = tt
roles_given (s ∷ secrets) i h =
    (ground (arith, h, eq_iff s.role ""), roles_given secrets (i + 1) (ground (arith, h)))

role_missing :
    (secrets : List Secret) (i n : ℕ)
    → empty_role_at i secrets ≡ some n
    → All (λ (s : Secret). s.role ≢ "") secrets
    → ⊥
unfolding empty_role_at
role_missing [] i n h k = cc
role_missing (s ∷ secrets) i n h (k, ks) =
    role_missing secrets (i + 1) n (ground (arith, h, k, eq_iff s.role "")) ks

abbrev Settled :
    Backend → String → String → Option Metadata → List Secret → Result Descriptor × Backend → Type 0
Settled b name method meta secrets r =
    (IsAcceptable name method meta secrets × IsStored r)
    ⊎ ((IsAcceptable name method meta secrets → ⊥) × IsRefused b r)

put_checked-Settled :
    (b : Backend) (fresh particle name method : String) (meta : Metadata) (secrets : List Secret)
    (o : Option ℕ)
    → empty_role_at 0 secrets ≡ o
    → name ≢ ""
    → method ≢ ""
    → Settled b name method
        (some meta)
        secrets
        (put_checked b fresh particle name method meta secrets o)
unfolding put_checked
put_checked-Settled b fresh particle name method meta secrets none e n m =
    inl ((λ h. cc, n, m, roles_given secrets 0 e), tt)
put_checked-Settled b fresh particle name method meta secrets (some i) e n m =
    inr (λ (given, named, by, roles). role_missing secrets 0 i e roles, refl)

-- Put stores an entry exactly where metadata, a name and a method are given and every secret has a
-- role; otherwise it answers an error and leaves the store as it is.
pub put_settles :
    (b : Backend) (fresh particle name method : String) (meta : Option Metadata)
    (secrets : List Secret)
    → let r = put b fresh particle name method meta secrets in
      (IsAcceptable name method meta secrets × IsStored r)
      ⊎ ((IsAcceptable name method meta secrets → ⊥) × IsRefused b r)
unfolding put
put_settles b fresh particle name method none secrets = inr (λ h. h.0 refl, refl)
put_settles b fresh particle name method (some meta) secrets =
    named (str_eq name "") (str_eq method "") refl refl
  where
    named :
        (c d : Bool)
        → str_eq name "" ≡ c
        → str_eq method "" ≡ d
        → Settled b name method (some meta) secrets (
            if c
            then (err no_name, b)
            else if d
            then (err no_method, b)
            else put_checked b fresh particle name method meta secrets (empty_role_at 0 secrets))
    named true d e f = inr (λ h. h.1 ((eq_iff name "").0 e), refl)
    named false true e f = inr (λ h. h.2 ((eq_iff method "").0 f), refl)
    named false false e f =
        put_checked-Settled b fresh particle name method meta secrets (empty_role_at 0 secrets) refl
          (λ k. ground (arith, e, k, eq_iff name "")) (λ k. ground (arith, f, k, eq_iff method ""))
