-- ===== src/Credentials/Store.antt =====
-- credentials/credentials.go, Store: the calls on a store that is bound to one particle, as an
-- interface with the laws that the rotation of tokens relies on, and its in-memory instance.
use particles.Base.{String, ◌≡◌, ◌≢◌, List, str_eq, if◌then◌else◌}
use particles.Credentials.{Descriptor, Secret, Bytes, Result, ok}
use particles.Credentials.Memory
use particles.Credentials.Memory.{Backend}
use particles.Credentials.Memory.Consistency.{IsConsistent, write_secrets-IsConsistent}
use particles.Credentials.Memory.View.{overlaid}
use particles.Credentials.Memory.Updates.{write_secrets_view, write_secrets_refused}

pub record Store (S : Type 0) : Type 0 where
  pub get_by_id : S → String → Result Descriptor
  pub get_by_name : S → String → Result Descriptor
  pub configured_method : S → String → Result String
  pub read_secret : S → String → String → Result Bytes
  pub write_secrets : S → String → List Secret → Result (Unit {0}) × S

-- WriteSecrets is all or nothing: the id reads the new secrets over its old ones and the other ids
-- read what they did, or nothing changes. `IsGood` is what the store keeps about its own state.
pub record IsLawful {S : Type 0} (store : Store S) (IsGood : S → Type 0) : Type 0 where
  pub good :
      (s : S) (id : String) (secrets : List Secret)
      → IsGood s
      → IsGood (store.write_secrets s id secrets).1
  pub written :
      (s : S) (id : String) (secrets : List Secret)
      → IsGood s
      → (store.write_secrets s id secrets).0 ≡ ok tt
      → (i role : String)
      → store.read_secret (store.write_secrets s id secrets).1 i role ≡ (
          if str_eq id i
          then overlaid secrets role (store.read_secret s i role)
          else store.read_secret s i role)
  pub refused :
      (s : S) (id : String) (secrets : List Secret)
      → (store.write_secrets s id secrets).0 ≢ ok tt
      → (store.write_secrets s id secrets).1 ≡ s

-- NewParticleStore: the backend seen by one particle
abbrev pub memory_store : String → Store Backend
memory_store p = record {
  get_by_id = λ b id. Memory.get_by_id b p id;
  get_by_name = λ b name. Memory.get_by_name b p name;
  configured_method = λ b name. ok (Memory.configured_method b p name);
  read_secret = λ b id role. Memory.read_secret b p id role;
  write_secrets = λ b id secrets. Memory.write_secrets b p id secrets;
}

pub memory_store-IsLawful : (p : String) → IsLawful (memory_store p) IsConsistent
memory_store-IsLawful p = record {
  good = λ b id secrets h. write_secrets-IsConsistent b p id secrets h;
  written = λ b id secrets h done. write_secrets_view b p id secrets h done;
  refused = λ b id secrets h. write_secrets_refused b p id secrets h;
}
