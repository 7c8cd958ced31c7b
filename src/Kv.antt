-- ===== src/Kv.antt =====
-- kv/kv.go: the contract of the per-particle key/value store; kv/trap.go: the stores that answer
-- every call with one error. The children are the in-memory backend and the host adapter.
pub mod Memory
pub mod Host
mod Tests
use particles.Base.{String, Option, List}

-- ErrNotDeclared, ErrQuotaExceeded, and any other error with its text
pub data StoreError : Type 0 where
  not_declared : StoreError
  quota_exceeded : StoreError
  failure : String → StoreError

pub data Result {ℓ} (A : Type ℓ) : Type ℓ where
  ok : A → Result A
  err : StoreError → Result A

-- kv.Store: the interface, over the state `S` that an implementation keeps.
pub record Store (S : Type 0) : Type 0 where
  pub get : S → String → Result (Option String)
  pub set : S → String → String → Result (Unit {0}) × S
  pub delete : S → String → Result (Unit {0}) × S
  pub list : S → String → Result (List String)

-- introspectTrap and deniedTrap: every method returns the one error
unfoldable pub trap_store : StoreError → (S : Type 0) → Store S
trap_store e S = record {
  get = λ s key. err e;
  set = λ s key value. (err e, s);
  delete = λ s key. (err e, s);
  list = λ s prefix. err e;
}

-- NewDeniedTrapStore
unfoldable pub denied_store : (S : Type 0) → Store S
unfolding trap_store
denied_store S = trap_store not_declared S
