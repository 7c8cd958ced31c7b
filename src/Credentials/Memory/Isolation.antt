-- ===== src/Credentials/Memory/Isolation.antt =====
-- The calls of credentials/memory/memory.go as steps: what a call of one particle means for another,
-- and the indexes after any calls.
use particles.Base.{
  ℕ, String, ◌≡◌, ◌≢◌, refl, Option, none, some, List, [], ◌∷◌, arith, eq_iff, ap, sym, ◌∙◌,
}
use particles.Base.Dict
use particles.Base.Dict.{Dict, get-set, get-delete}
use particles.Credentials.{Metadata, Secret, Descriptor, ok}
use particles.Credentials.Memory.{
  Entry, Backend, new_backend, store, id_pointer, name_pointer, put_at, put_checked, put, delete_at,
  delete, write_at, write_checked, write_secrets, unset_at, delete_secret, read_at, read_secret,
  secret_at, get_by_id, get_by_name, describe, descriptor_of,
}
use particles.Credentials.Memory.Consistency.{
  IsConsistent, id_pointer-put_at, name_pointer-put_at, id_pointer-delete_at,
  name_pointer-delete_at, put-IsConsistent, delete-IsConsistent, write_secrets-IsConsistent,
  delete_secret-IsConsistent, new_backend-IsConsistent,
}

pub data Call : Type 0 where
  -- with the id that the generator answers
  put_call : (fresh name method : String) (meta : Option Metadata) (secrets : List Secret) → Call
  delete_call : (id : String) → Call
  write_call : (id : String) (secrets : List Secret) → Call
  unset_call : (id role : String) → Call

unfoldable pub step : Backend → String → Call → Backend
step b p (put_call fresh name method meta secrets) = (put b fresh p name method meta secrets).1
step b p (delete_call id) = delete b p id
step b p (write_call id secrets) = (write_secrets b p id secrets).1
step b p (unset_call id role) = delete_secret b p id role

-- What a particle holds: its pointers, and the records behind them.
record IsSameFor (q : String) (b b' : Backend) : Type 0 where
  ids : (i : String) → id_pointer b' q i ≡ id_pointer b q i
  names : (n : String) → name_pointer b' q n ≡ name_pointer b q n
  records : (i : String) (a : ℕ) → id_pointer b q i ≡ some a → b'.heap a ≡ b.heap a

IsSameFor-refl : (q : String) (b : Backend) → IsSameFor q b b
IsSameFor-refl q b = record { ids = λ i. refl; names = λ n. refl; records = λ i a h. refl }

store-IsSameFor :
    (q p j : String) (b : Backend) (a : ℕ) (e : Entry)
    → IsConsistent b
    → p ≢ q
    → id_pointer b p j ≡ some a
    → IsSameFor q b (record b { heap = store b.heap a e })
unfolding id_pointer name_pointer
store-IsSameFor q p j b a e h other held = record {
  ids = λ i. refl;
  names = λ n. refl;
  records = λ i c k. ground (arith, h.owned p q j i a);
}

put_at-IsSameFor :
    (q p : String) (b : Backend) (fresh name method : String) (meta : Metadata)
    (secrets : List Secret) (o : Option ℕ)
    → name_pointer b p name ≡ o
    → IsConsistent b
    → p ≢ q
    → IsSameFor q b (put_at b fresh p name method meta secrets o).1
put_at-IsSameFor q p b fresh name method meta secrets none e h other = record {
  ids = λ i. ground (arith, eq_iff p q, id_pointer-put_at b fresh p name method meta secrets q i);
  names =
      λ n. ground (arith, eq_iff p q, name_pointer-put_at b fresh p name method meta secrets q n);
  records = λ i c k. (unfold put_at in ground (arith, h.identified q i c));
}
put_at-IsSameFor q p b fresh name method meta secrets (some a) e h other =
    let (same_name, same_id) = h.named p name a e in
    unfold put_at in store-IsSameFor q p (b.heap a).id b a _ h other same_id

delete_at-IsSameFor :
    (q p id : String) (b : Backend) (o : Option ℕ)
    → id_pointer b p id ≡ o
    → IsConsistent b
    → p ≢ q
    → IsSameFor q b (delete_at b p id o)
delete_at-IsSameFor q p id b none e h other = unfold delete_at in IsSameFor-refl q b
delete_at-IsSameFor q p id b (some a) e h other = record {
  ids = λ i. ground (arith, eq_iff p q, id_pointer-delete_at b p id a q i);
  names = λ n. ground (arith, eq_iff p q, name_pointer-delete_at b p id a h e q n);
  records = λ i c k. (unfold delete_at in refl);
}

write_at-IsSameFor :
    (q p id : String) (b : Backend) (secrets : List Secret) (o : Option ℕ)
    → id_pointer b p id ≡ o
    → IsConsistent b
    → p ≢ q
    → IsSameFor q b (write_at b secrets o).1
write_at-IsSameFor q p id b secrets none e h other = unfold write_at in IsSameFor-refl q b
write_at-IsSameFor q p id b secrets (some a) e h other =
    unfold write_at in store-IsSameFor q p id b a _ h other e

unset_at-IsSameFor :
    (q p id role : String) (b : Backend) (o : Option ℕ)
    → id_pointer b p id ≡ o
    → IsConsistent b
    → p ≢ q
    → IsSameFor q b (unset_at b role o)
unset_at-IsSameFor q p id role b none e h other = unfold unset_at in IsSameFor-refl q b
unset_at-IsSameFor q p id role b (some a) e h other =
    unfold unset_at in store-IsSameFor q p id b a _ h other e

put-IsSameFor :
    (q p : String) (b : Backend) (fresh name method : String) (meta : Option Metadata)
    (secrets : List Secret)
    → IsConsistent b
    → p ≢ q
    → IsSameFor q b (put b fresh p name method meta secrets).1
unfolding put put_checked
put-IsSameFor q p b fresh name method none secrets h other = IsSameFor-refl q b
put-IsSameFor q p b fresh name method (some meta) secrets h other = ground (
  arith,
  IsSameFor-refl q b,
  put_at-IsSameFor q p b fresh name method meta secrets (name_pointer b p name) refl h other,
)

step-IsSameFor :
    (q p : String) (b : Backend) (call : Call)
    → IsConsistent b
    → p ≢ q
    → IsSameFor q b (step b p call)
unfolding step delete delete_secret write_secrets write_checked
step-IsSameFor q p b (put_call fresh name method meta secrets) h other =
    put-IsSameFor q p b fresh name method meta secrets h other
step-IsSameFor q p b (delete_call id) h other =
    delete_at-IsSameFor q p id b (id_pointer b p id) refl h other
step-IsSameFor q p b (write_call id secrets) h other = ground (
  arith,
  IsSameFor-refl q b,
  write_at-IsSameFor q p id b secrets (id_pointer b p id) refl h other,
)
step-IsSameFor q p b (unset_call id role) h other =
    unset_at-IsSameFor q p id role b (id_pointer b p id) refl h other

-- Everything a particle can ask for.
abbrev pub ReadsSame : String → Backend → Backend → Type 0
ReadsSame q b b' =
    ((i role : String) → read_secret b' q i role ≡ read_secret b q i role)
    × ((i : String) → get_by_id b' q i ≡ get_by_id b q i)
    × ((n : String) → get_by_name b' q n ≡ get_by_name b q n)

read_at-same :
    (q i role : String) (b b' : Backend) (o : Option ℕ)
    → id_pointer b q i ≡ o
    → IsSameFor q b b'
    → read_at b' role o ≡ read_at b role o
unfolding read_at
read_at-same q i role b b' none e s = refl
read_at-same q i role b b' (some a) e s =
    ap (λ (x : Entry). secret_at (Dict.get role x.secrets)) (s.records i a e)

describe-same :
    (b b' : Backend) (o : Option ℕ)
    → ((a : ℕ) → o ≡ some a → b'.heap a ≡ b.heap a)
    → describe b' o ≡ describe b o
unfolding describe
describe-same b b' none s = refl
describe-same b b' (some a) s = ap (λ (x : Entry). ok (descriptor_of x)) (s a refl)

-- No call of one particle changes what another reads.
pub step-ReadsSame :
    (q p : String) (b : Backend) (call : Call)
    → IsConsistent b
    → p ≢ q
    → ReadsSame q b (step b p call)
unfolding read_secret get_by_id get_by_name
step-ReadsSame q p b call h other =
    let s = step-IsSameFor q p b call h other in
    let b' = step b p call in
    (
      λ i role.
          ap (read_at b' role) (s.ids i) ∙ read_at-same q i role b b' (id_pointer b q i) refl s,
      λ i. ap (describe b') (s.ids i) ∙ describe-same b b' (id_pointer b q i) (s.records i),
      λ n.
          ap (describe b') (s.names n)
          ∙ describe-same b b' (name_pointer b q n)
              (λ a e. s.records (b.heap a).id a (h.named q n a e).1),
    )

unfoldable pub run : Backend → List (String × Call) → Backend
run b [] = b
run b ((p, call) ∷ calls) = run (step b p call) calls

-- The id that a put brings along is not yet used by its particle.
abbrev pub IsFreshCall : Backend → String → Call → Type 0
IsFreshCall b p (put_call fresh name method meta secrets) = id_pointer b p fresh ≡ none
IsFreshCall b p _ = Unit

abbrev pub AreFresh : Backend → List (String × Call) → Type 0
AreFresh b [] = Unit
AreFresh b ((p, call) ∷ calls) = IsFreshCall b p call × AreFresh (step b p call) calls

step-IsConsistent :
    (b : Backend) (p : String) (call : Call)
    → IsConsistent b
    → IsFreshCall b p call
    → IsConsistent (step b p call)
unfolding step
step-IsConsistent b p (put_call fresh name method meta secrets) h new =
    put-IsConsistent b fresh p name method meta secrets h new
step-IsConsistent b p (delete_call id) h new = delete-IsConsistent b p id h
step-IsConsistent b p (write_call id secrets) h new = write_secrets-IsConsistent b p id secrets h
step-IsConsistent b p (unset_call id role) h new = delete_secret-IsConsistent b p id role h

pub run-IsConsistent :
    (b : Backend) (calls : List (String × Call))
    → IsConsistent b
    → AreFresh b calls
    → IsConsistent (run b calls)
unfolding run
run-IsConsistent b [] h new = h
run-IsConsistent b ((p, call) ∷ calls) h (new, rest) =
    run-IsConsistent (step b p call) calls (step-IsConsistent b p call h new) rest

describe_held :
    (b : Backend) (o : Option ℕ) (d : Descriptor)
    → describe b o ≡ ok d
    → (a : ℕ) × (o ≡ some a)
      × ((b.heap a).id ≡ d.id)
      × ((b.heap a).name ≡ d.name)
      × (describe b (some a) ≡ ok d)
unfolding describe descriptor_of
describe_held b none d h = cc
describe_held b (some a) d h = (a, refl, ground arith, ground arith, h)

-- After any calls by any particles on a new store, the entry found under a name bears that name
-- and is found under its id, and the entry found under an id bears that id and is found under its
-- name.
pub run_lookups_agree :
    (heap : ℕ → Entry) (calls : List (String × Call)) (p : String) (d : Descriptor)
    → AreFresh (new_backend heap) calls
    → let b = run (new_backend heap) calls in
      ((n : String) → get_by_name b p n ≡ ok d → (d.name ≡ n) × (get_by_id b p d.id ≡ ok d))
      × ((i : String) → get_by_id b p i ≡ ok d → (d.id ≡ i) × (get_by_name b p d.name ≡ ok d))
unfolding get_by_name get_by_id
run_lookups_agree heap calls p d new =
    let b = run (new_backend heap) calls in
    let h = run-IsConsistent (new_backend heap) calls (new_backend-IsConsistent heap) new in
    (
      λ n e.
          let (a, held, same_id, same_name, shown) = describe_held b (name_pointer b p n) d e in
          let (named, found) = h.named p n a held in
          (
            sym same_name ∙ named,
            ap (λ (i : String). describe b (id_pointer b p i)) (sym same_id)
                ∙ (ap (describe b) found ∙ shown),
          ),
      λ i e.
          let (a, held, same_id, same_name, shown) = describe_held b (id_pointer b p i) d e in
          let (has_id, found, below) = h.identified p i a held in
          (
            sym same_id ∙ has_id,
            ap (λ (n : String). describe b (name_pointer b p n)) (sym same_name)
                ∙ (ap (describe b) found ∙ shown),
          ),
    )
