-- ===== src/Credentials/Memory/View.antt =====
-- What Put of credentials/memory/memory.go shows: secrets by role and the configured entry.
use particles.Base.{
  ℕ, String, ◌≡◌, refl, Option, none, some, List, [], ◌∷◌, arith, str_eq, eq_refl, sym, subst,
  if◌then◌else◌,
}
use particles.Base.Dict
use particles.Base.Dict.{Dict, get-set, get-delete}
use particles.Credentials.{
  Metadata, Secret, Bytes, Descriptor, Result, ok, err, not_found, secret_not_set,
}
use particles.Credentials.Memory.{
  Backend, id_pointer, name_pointer, write_all, put_at, put_checked, put, read_secret, get_by_name,
  describe, descriptor_of,
}
use particles.Credentials.Memory.Consistency.{IsConsistent, id_pointer-put_at}

-- The value that the last of the secrets with this role has.
abbrev pub last_value : String → List Secret → Option Bytes
last_value role [] = none
last_value role (s ∷ rest) = elim (last_value role rest) [
  | some v ↦ some v
  | none ↦ if str_eq s.role role then some s.value else none
]

pub get-write_all :
    (secrets : List Secret) (d : Dict Bytes) (role : String)
    → Dict.get role (write_all secrets d)
      ≡ (elim (last_value role secrets) [ some v ↦ some v | none ↦ Dict.get role d ])
unfolding write_all
get-write_all [] d role = refl
get-write_all (s ∷ rest) d role =
    ground
      (arith, get-write_all rest (Dict.set s.role s.value d) role, get-set s.role role s.value d)

-- What a role reads after secrets were written over what it read before.
abbrev pub overlaid : List Secret → String → Result Bytes → Result Bytes
overlaid secrets role before = elim (last_value role secrets) [ some v ↦ ok v | none ↦ before ]

-- The secrets of an entry after Put: what is given is written; of the rest, an entry that keeps its
-- method keeps all, and one that changes it keeps none.
put_at_secret :
    (b : Backend) (fresh p name method : String) (meta : Metadata) (secrets : List Secret) (a : ℕ)
    (role : String)
    → id_pointer b p (b.heap a).id ≡ some a
    → let (d, b') = put_at b fresh p name method meta secrets (some a) in
      read_secret b' p d.id role
      ≡ overlaid secrets role (
          if str_eq (b.heap a).method method then read_secret b p d.id role else err secret_not_set)
unfolding put_at read_secret id_pointer Dict.get
put_at_secret b fresh p name method meta secrets a role e =
    ground (arith, get-write_all secrets (b.heap a).secrets role, get-write_all secrets [] role)

put_ok :
    (b : Backend) (fresh p name method : String) (meta : Metadata) (secrets : List Secret)
    (d : Descriptor) (b' : Backend)
    → put b fresh p name method (some meta) secrets ≡ (ok d, b')
    → put_at b fresh p name method meta secrets (name_pointer b p name) ≡ (d, b')
unfolding put put_checked
put_ok b fresh p name method meta secrets d b' h = ground arith

describe_ok :
    (b : Backend) (o : Option ℕ) (d : Descriptor)
    → describe b o ≡ ok d
    → (a : ℕ) × (o ≡ some a) × (descriptor_of (b.heap a) ≡ d)
unfolding describe
describe_ok b none d h = cc
describe_ok b (some a) d h = (a, refl, ground arith)

describe_missing : (b : Backend) (o : Option ℕ) → describe b o ≡ err not_found → o ≡ none
unfolding describe
describe_missing b none h = refl
describe_missing b (some a) h = cc

put_at_descriptor :
    (b : Backend) (fresh p name method : String) (meta : Metadata) (secrets : List Secret) (a : ℕ)
    → (put_at b fresh p name method meta secrets (some a)).0
      ≡ record { id = (b.heap a).id; name = (b.heap a).name; method = method; meta = meta }
unfolding put_at
put_at_descriptor b fresh p name method meta secrets a = refl

-- A Put that finds the entry `old` under the name.
abbrev IsReconfigured :
    Backend
    → String
    → String
    → String
    → Metadata
    → List Secret
    → Descriptor
    → Descriptor × Backend
    → Type 0
IsReconfigured b p name method meta secrets old (d, b') =
    (d ≡ record { id = old.id; name = name; method = method; meta = meta })
    × ((role : String)
        → read_secret b' p old.id role
          ≡ overlaid secrets role (
              if str_eq old.method method then read_secret b p old.id role else err secret_not_set))

put_at-IsReconfigured :
    (b : Backend) (fresh p name method : String) (meta : Metadata) (secrets : List Secret) (a : ℕ)
    → (b.heap a).name ≡ name
    → id_pointer b p (b.heap a).id ≡ some a
    → IsReconfigured b p name method meta secrets
        (descriptor_of (b.heap a))
        (put_at b fresh p name method meta secrets (some a))
unfolding descriptor_of
put_at-IsReconfigured b fresh p name method meta secrets a n e = (
  ground (put_at_descriptor b fresh p name method meta secrets a, arith),
  λ role. ground (
    arith,
    put_at_descriptor b fresh p name method meta secrets a,
    put_at_secret b fresh p name method meta secrets a role e,
  ),
)

-- Put over a configured name keeps the id. It writes the given secrets; the others are kept where
-- the method stays the same, and all gone where it changes.
pub put_reconfigures :
    (b : Backend) (fresh p name method : String) (meta : Metadata) (secrets : List Secret)
    (d : Descriptor) (b' : Backend) (old : Descriptor)
    → IsConsistent b
    → put b fresh p name method (some meta) secrets ≡ (ok d, b')
    → get_by_name b p name ≡ ok old
    → (d ≡ record { id = old.id; name = name; method = method; meta = meta })
      × ((role : String)
          → read_secret b' p old.id role
            ≡ overlaid secrets role (
                if str_eq old.method method
                then read_secret b p old.id role
                else err secret_not_set))
unfolding get_by_name
put_reconfigures b fresh p name method meta secrets d b' old consistent done e =
    let (a, held, shown) = describe_ok b (name_pointer b p name) old e in
    let (same_name, same_id) = consistent.named p name a held in
    subst (IsReconfigured b p name method meta secrets old)
      (put_ok b fresh p name method meta secrets d b' done)
      (subst
        (λ (o : Option ℕ).
          IsReconfigured b p name method meta secrets old
            (put_at b fresh p name method meta secrets o))
        (sym held)
        (subst
          (λ (x : Descriptor).
            IsReconfigured b p name method meta secrets x
              (put_at b fresh p name method meta secrets (some a)))
          shown (put_at-IsReconfigured b fresh p name method meta secrets a same_name same_id)))

abbrev IsAdded :
    String → String → String → String → Metadata → List Secret → Descriptor × Backend → Type 0
IsAdded fresh p name method meta secrets (d, b') =
    (d ≡ record { id = fresh; name = name; method = method; meta = meta })
    × ((role : String) → read_secret b' p fresh role ≡ overlaid secrets role (err secret_not_set))

put_at-IsAdded :
    (b : Backend) (fresh p name method : String) (meta : Metadata) (secrets : List Secret)
    → IsAdded fresh p name method meta secrets (put_at b fresh p name method meta secrets none)
unfolding put_at read_secret id_pointer Dict.get
put_at-IsAdded b fresh p name method meta secrets = (
  refl,
  λ role. ground (
    arith,
    eq_refl p,
    eq_refl fresh,
    id_pointer-put_at b fresh p name method meta secrets p fresh,
    get-write_all secrets [] role,
  ),
)

-- Put under a new name gives the entry the fresh id; it reads the given secrets and no other.
pub put_adds :
    (b : Backend) (fresh p name method : String) (meta : Metadata) (secrets : List Secret)
    (d : Descriptor) (b' : Backend)
    → put b fresh p name method (some meta) secrets ≡ (ok d, b')
    → get_by_name b p name ≡ err not_found
    → (d ≡ record { id = fresh; name = name; method = method; meta = meta })
      × ((role : String) → read_secret b' p fresh role ≡ overlaid secrets role (err secret_not_set))
unfolding get_by_name
put_adds b fresh p name method meta secrets d b' done e =
    subst (IsAdded fresh p name method meta secrets)
      (put_ok b fresh p name method meta secrets d b' done)
      (subst
        (λ (o : Option ℕ).
          IsAdded fresh p name method meta secrets (put_at b fresh p name method meta secrets o))
        (sym (describe_missing b (name_pointer b p name) e))
        (put_at-IsAdded b fresh p name method meta secrets))
