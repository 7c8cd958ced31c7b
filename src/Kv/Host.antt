-- ===== src/Kv/Host.antt =====
-- kv/host.go: the adapter that a particle calls, over any store. `KvError` is the variant of the
-- interface particle:host/kv; a call never fails outright.
use particles.Base.{String, ◌≡◌, refl, Option, some, List, arith, str_eq, ◌&&◌, if◌then◌else◌}
use particles.Kv.{StoreError, failure, Result, Store, denied_store}
use particles.Kv.Memory.{Backend, scoped}
use particles.Kv.Memory.Contract.{get-set_view}

pub data KvError : Type 0 where
  not_declared : KvError
  quota_exceeded : KvError
  storage_error : String → KvError

pub data Reply {ℓ} (A : Type ℓ) : Type ℓ where
  ok : A → Reply A
  err : KvError → Reply A

-- liftError
unfoldable pub lift_error : StoreError → KvError
lift_error StoreError.not_declared = KvError.not_declared
lift_error StoreError.quota_exceeded = KvError.quota_exceeded
lift_error (failure text) = storage_error text

unfoldable pub lift {ℓ} : {A : Type ℓ} → Result A → Reply A
unfolding lift_error
lift (Result.ok a) = Reply.ok a
lift (Result.err e) = Reply.err (lift_error e)

module _ {S : Type 0} (store : Store S) where
  -- adapter.Get, Set, Delete, List
  unfoldable pub adapter_get : S → String → Reply (Option String)
  unfolding lift
  adapter_get s key = lift (store.get s key)

  unfoldable pub adapter_set : S → String → String → Reply (Unit {0}) × S
  unfolding lift
  adapter_set s key value = let (r, t) = store.set s key value in (lift r, t)

  unfoldable pub adapter_delete : S → String → Reply (Unit {0}) × S
  unfolding lift
  adapter_delete s key = let (r, t) = store.delete s key in (lift r, t)

  unfoldable pub adapter_list : S → String → Reply (List String)
  unfolding lift
  adapter_list s prefix = lift (store.list s prefix)

-- A particle whose manifest does not grant kv gets the typed refusal from every call, and no call
-- changes anything.
pub denied_calls :
    (S : Type 0) (s : S) (key value : String)
    → (adapter_get (denied_store S) s key ≡ Reply.err KvError.not_declared)
      × (adapter_set (denied_store S) s key value ≡ (Reply.err KvError.not_declared, s))
      × (adapter_delete (denied_store S) s key ≡ (Reply.err KvError.not_declared, s))
      × (adapter_list (denied_store S) s key ≡ Reply.err KvError.not_declared)
unfolding adapter_get adapter_set adapter_delete adapter_list denied_store
denied_calls S s key value = (refl, refl, refl, refl)

-- Through its adapter a particle `q` reads what a write of particle `p` left: the new value if the
-- write succeeded, the particle is the same and the key is the same, and else what was there.
pub adapter_get-adapter_set :
    (b : Backend) (p q key value j : String)
    → let (reply, after) = adapter_set (scoped p) b key value in
      adapter_get (scoped q) after j ≡ (elim reply [
        | Reply.ok _ ↦
            if str_eq p q && str_eq key j then Reply.ok (some value) else adapter_get (scoped q) b j
        | Reply.err _ ↦ adapter_get (scoped q) b j
      ])
unfolding adapter_get adapter_set scoped lift
adapter_get-adapter_set b p q key value j = ground (arith, get-set_view b p key value q j)
