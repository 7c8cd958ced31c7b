-- ===== src/Credentials/Memory.antt =====
-- credentials/memory/memory.go: the in-memory credential store. Each particle has two indexes that
-- hold the same record pointers, so the records stand on a heap and an update is seen through both.
pub mod View
pub mod Refusals
pub mod Consistency
pub mod Updates
pub mod Isolation
use particles.Base.{
  ℕ, ◌+◌, String, Bool, true, false, Option, none, some, List, [], ◌∷◌, str_eq, ◌==◌, if◌then◌else◌,
}
use particles.Base.Dict
use particles.Base.Dict.{Dict}
use particles.Credentials.{
  Metadata, Descriptor, Bytes, Secret, Error, Result, ok, err, not_found, secret_not_set,
  no_metadata, no_name, no_method, empty_role,
}

-- `record` of the source
pub record Entry : Type 0 where
  pub id : String
  pub name : String
  pub method : String
  pub meta : Metadata
  pub secrets : Dict Bytes

-- particleSlot
pub record Slot : Type 0 where
  pub by_id : Dict ℕ
  pub by_name : Dict ℕ

-- A pointer is a number below `next`.
pub record Backend : Type 0 where
  pub heap : ℕ → Entry
  pub next : ℕ
  pub by_particle : Dict Slot

-- New: no particle; what the unused cells hold does not matter.
abbrev pub new_backend : (ℕ → Entry) → Backend
new_backend heap = record { heap = heap; next = 0; by_particle = [] }

abbrev pub store : (ℕ → Entry) → ℕ → Entry → ℕ → Entry
store heap a e b = if a == b then e else heap b

abbrev pub slot_or_new : Option Slot → Slot
slot_or_new none = record { by_id = []; by_name = [] }
slot_or_new (some slot) = slot

unfoldable pub slot_of : Backend → String → Slot
slot_of b particle = slot_or_new (Dict.get particle b.by_particle)

-- The pointers that the two indexes of a particle hold.
unfoldable pub id_pointer : Backend → String → String → Option ℕ
unfolding slot_of
id_pointer b particle id = Dict.get id (slot_of b particle).by_id

unfoldable pub name_pointer : Backend → String → String → Option ℕ
unfolding slot_of
name_pointer b particle name = Dict.get name (slot_of b particle).by_name

unfoldable pub descriptor_of : Entry → Descriptor
descriptor_of e = record { id = e.id; name = e.name; method = e.method; meta = e.meta }

-- GetByID, GetByName and ConfiguredMethod; a missing particle is an empty slot
describe : Backend → Option ℕ → Result Descriptor
unfolding descriptor_of
describe b none = err not_found
describe b (some a) = ok (descriptor_of (b.heap a))

unfoldable pub get_by_id : Backend → String → String → Result Descriptor
unfolding describe
get_by_id b particle id = describe b (id_pointer b particle id)

unfoldable pub get_by_name : Backend → String → String → Result Descriptor
unfolding describe
get_by_name b particle name = describe b (name_pointer b particle name)

method_at : Backend → Option ℕ → String
method_at b none = ""
method_at b (some a) = (b.heap a).method

unfoldable pub configured_method : Backend → String → String → String
unfolding method_at
configured_method b particle name = method_at b (name_pointer b particle name)

-- The first secret with an empty role, counted from `i`.
unfoldable pub empty_role_at : ℕ → List Secret → Option ℕ
empty_role_at i [] = none
empty_role_at i (s ∷ rest) = if str_eq s.role "" then some i else empty_role_at (i + 1) rest

-- `for _, sec := range secrets { rec.secrets[sec.Role] = … }`
unfoldable pub write_all : List Secret → Dict Bytes → Dict Bytes
write_all [] d = d
write_all (s ∷ rest) d = write_all rest (Dict.set s.role s.value d)

-- The entry that Put leaves in place of an existing one: a change of method wipes the secrets.
unfoldable pub reconfigured : Entry → String → Metadata → List Secret → Entry
reconfigured e method meta secrets = record e {
  method = method;
  meta = meta;
  secrets = write_all secrets (if str_eq e.method method then e.secrets else []);
}

-- `slot.byID[rec.id] = rec; slot.byName[rec.name] = rec`
abbrev pub indexed : Slot → String → String → ℕ → Slot
indexed slot id name a = record {
  by_id = Dict.set id a slot.by_id;
  by_name = Dict.set name a slot.by_name;
}

-- The part of Put under the lock, for the pointer that byName gives; `fresh` is what the id
-- generator answers, and is used for a new entry only.
pub put_at :
    Backend
    → String
    → String
    → String
    → String
    → Metadata
    → List Secret
    → Option ℕ
    → Descriptor × Backend
unfolding reconfigured descriptor_of
put_at b fresh particle name method meta secrets none =
    let slot = slot_of b particle in
    let entry : Entry = record {
      id = fresh;
      name = name;
      method = method;
      meta = meta;
      secrets = write_all secrets [];
    } in
    (
      descriptor_of entry,
      record {
        heap = store b.heap b.next entry;
        next = b.next + 1;
        by_particle = Dict.set particle (indexed slot fresh name b.next) b.by_particle;
      },
    )
put_at b fresh particle name method meta secrets (some a) =
    let entry = reconfigured (b.heap a) method meta secrets in
    (descriptor_of entry, record b { heap = store b.heap a entry })

put_checked :
    Backend
    → String
    → String
    → String
    → String
    → Metadata
    → List Secret
    → Option ℕ
    → Result Descriptor × Backend
unfolding put_at
put_checked b fresh particle name method meta secrets (some i) = (err (empty_role i), b)
put_checked b fresh particle name method meta secrets none =
    let (d, b') = put_at b fresh particle name method meta secrets (name_pointer b particle name) in
    (ok d, b')

unfoldable pub put :
    Backend
    → String
    → String
    → String
    → String
    → Option Metadata
    → List Secret
    → Result Descriptor × Backend
unfolding put_checked
put b fresh particle name method none secrets = (err no_metadata, b)
put b fresh particle name method (some meta) secrets =
    if str_eq name ""
    then (err no_name, b)
    else if str_eq method ""
    then (err no_method, b)
    else put_checked b fresh particle name method meta secrets (empty_role_at 0 secrets)

-- An emptied slot is removed.
drop_slot : String → Slot → Dict ℕ → Dict Slot → Dict Slot
drop_slot particle slot [] d = Dict.delete particle d
drop_slot particle slot (e ∷ rest) d = Dict.set particle slot d

pub delete_at : Backend → String → String → Option ℕ → Backend
unfolding drop_slot
delete_at b particle id none = b
delete_at b particle id (some a) =
    let slot = slot_of b particle in
    let rest : Slot = record {
      by_id = Dict.delete id slot.by_id;
      by_name = Dict.delete (b.heap a).name slot.by_name;
    } in
    record b { by_particle = drop_slot particle rest rest.by_id b.by_particle }

unfoldable pub delete : Backend → String → String → Backend
unfolding delete_at
delete b particle id = delete_at b particle id (id_pointer b particle id)

secret_at : Option Bytes → Result Bytes
secret_at none = err secret_not_set
secret_at (some v) = ok v

read_at : Backend → String → Option ℕ → Result Bytes
unfolding secret_at
read_at b role none = err not_found
read_at b role (some a) = secret_at (Dict.get role (b.heap a).secrets)

unfoldable pub read_secret : Backend → String → String → String → Result Bytes
unfolding read_at
read_secret b particle id role = read_at b role (id_pointer b particle id)

write_at : Backend → List Secret → Option ℕ → Result (Unit {0}) × Backend
write_at b secrets none = (err not_found, b)
write_at b secrets (some a) =
    let e = b.heap a in
    (ok tt, record b { heap = store b.heap a (record e { secrets = write_all secrets e.secrets }) })

write_checked : Backend → String → String → List Secret → Option ℕ → Result (Unit {0}) × Backend
unfolding write_at
write_checked b particle id secrets (some i) = (err (empty_role i), b)
write_checked b particle id secrets none = write_at b secrets (id_pointer b particle id)

unfoldable pub write_secrets : Backend → String → String → List Secret → Result (Unit {0}) × Backend
unfolding write_checked
write_secrets b particle id secrets = write_checked b particle id secrets (empty_role_at 0 secrets)

unset_at : Backend → String → Option ℕ → Backend
unset_at b role none = b
unset_at b role (some a) =
    let e = b.heap a in
    record b { heap = store b.heap a (record e { secrets = Dict.delete role e.secrets }) }

unfoldable pub delete_secret : Backend → String → String → String → Backend
unfolding unset_at
delete_secret b particle id role = unset_at b role (id_pointer b particle id)
