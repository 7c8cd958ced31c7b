-- ===== src/Credentials/Memory/Updates.antt =====
-- What WriteSecrets and Delete of credentials/memory/memory.go change and what they leave.
use particles.Base.{
  ℕ, String, ◌≡◌, ◌≢◌, refl, false, Option, none, some, List, arith, str_eq, eq_iff, eq_refl, ◌==◌,
  ◌&&◌, if◌then◌else◌, ap, ◌∙◌,
}
use particles.Credentials.{Secret, ok, err, not_found}
use particles.Credentials.Memory.{
  Entry, Backend, id_pointer, name_pointer, delete_at, delete, write_at, write_checked,
  write_secrets, read_at, read_secret, secret_at, get_by_id, get_by_name, describe, descriptor_of,
  empty_role_at,
}
use particles.Credentials.Memory.Consistency.{
  IsConsistent, id_pointer-delete_at, name_pointer-delete_at,
}
use particles.Credentials.Memory.View.{overlaid, get-write_all}

-- The pointers of two ids of a particle are different.
other_id :
    (b : Backend) (p id i : String) (a : ℕ)
    → IsConsistent b
    → id_pointer b p id ≡ some a
    → str_eq id i ≡ false
    → id_pointer b p i ≢ some a
other_id b p id i a h e other f =
    ground (arith, eq_iff id i, h.identified p id a, h.identified p i a)

read_at_stored :
    (b : Backend) (secrets : List Secret) (role : String) (a : ℕ) (o : Option ℕ)
    → read_at (write_at b secrets (some a)).1 role o ≡ (elim o [
      | none ↦ err not_found
      | some c ↦
          if a == c
          then overlaid secrets role (read_at b role (some c))
          else read_at b role (some c)
    ])
unfolding read_at write_at secret_at
read_at_stored b secrets role a none = refl
read_at_stored b secrets role a (some c) =
    ground (arith, get-write_all secrets (b.heap a).secrets role)

write_at_view :
    (b : Backend) (p id : String) (secrets : List Secret) (o : Option ℕ)
    → id_pointer b p id ≡ o
    → IsConsistent b
    → (write_at b secrets o).0 ≡ ok tt
    → (i role : String)
    → read_at (write_at b secrets o).1 role (id_pointer b p i) ≡ (
        if str_eq id i
        then overlaid secrets role (read_at b role (id_pointer b p i))
        else read_at b role (id_pointer b p i))
write_at_view b p id secrets none e h done i role = unfold write_at in cc
write_at_view b p id secrets (some a) e h done i role =
    unfold read_at in
    ground (
      arith,
      eq_iff id i,
      other_id b p id i a h e,
      read_at_stored b secrets role a (id_pointer b p i),
    )

id_pointer-write_at :
    (b : Backend) (p i : String) (secrets : List Secret) (o : Option ℕ)
    → id_pointer (write_at b secrets o).1 p i ≡ id_pointer b p i
unfolding write_at id_pointer
id_pointer-write_at b p i secrets none = refl
id_pointer-write_at b p i secrets (some a) = refl

write_checked_view :
    (b : Backend) (p id : String) (secrets : List Secret) (o : Option ℕ)
    → IsConsistent b
    → (write_checked b p id secrets o).0 ≡ ok tt
    → (i role : String)
    → read_secret (write_checked b p id secrets o).1 p i role ≡ (
        if str_eq id i
        then overlaid secrets role (read_secret b p i role)
        else read_secret b p i role)
unfolding write_checked read_secret
write_checked_view b p id secrets (some n) h done i role = cc
write_checked_view b p id secrets none h done i role =
    ap (read_at (write_at b secrets (id_pointer b p id)).1 role)
      (id_pointer-write_at b p i secrets (id_pointer b p id))
    ∙ write_at_view b p id secrets (id_pointer b p id) refl h done i role

-- A successful WriteSecrets: the id reads the given secrets over its old ones, every other id of the
-- particle reads what it did.
pub write_secrets_view :
    (b : Backend) (p id : String) (secrets : List Secret)
    → IsConsistent b
    → (write_secrets b p id secrets).0 ≡ ok tt
    → (i role : String)
    → read_secret (write_secrets b p id secrets).1 p i role ≡ (
        if str_eq id i
        then overlaid secrets role (read_secret b p i role)
        else read_secret b p i role)
unfolding write_secrets
write_secrets_view b p id secrets h done =
    write_checked_view b p id secrets (empty_role_at 0 secrets) h done

-- What Delete leaves to be found.
abbrev IsWithout : Backend → Backend → String → String → Type 0
IsWithout b b' p id =
    ((i : String) → get_by_id b' p i ≡ (if str_eq id i then err not_found else get_by_id b p i))
    × ((n : String)
        → get_by_name b' p n ≡ (elim (get_by_name b p n) [
          | ok d ↦ if str_eq d.id id then err not_found else ok d
          | err x ↦ err x
        ]))

heap-delete_at : (b : Backend) (p id : String) (o : Option ℕ) → (delete_at b p id o).heap ≡ b.heap
unfolding delete_at
heap-delete_at b p id none = refl
heap-delete_at b p id (some a) = refl

describe-heap : (b b' : Backend) (o : Option ℕ) → b'.heap ≡ b.heap → describe b' o ≡ describe b o
unfolding describe
describe-heap b b' none e = refl
describe-heap b b' (some a) e = ap (λ (m : ℕ → Entry). ok (descriptor_of (m a))) e

deleted_name :
    (b : Backend) (p id n : String) (o : Option ℕ)
    → name_pointer b p n ≡ o
    → id_pointer b p id ≡ none
    → IsConsistent b
    → describe b o ≡ (elim (describe b o) [
      | ok d ↦ if str_eq d.id id then err not_found else ok d
      | err x ↦ err x
    ])
unfolding describe descriptor_of
deleted_name b p id n none e absent h = refl
deleted_name b p id n (some a) e absent h = ground (arith, eq_iff (b.heap a).id id, h.named p n a e)

removed_name :
    (b : Backend) (p id n : String) (a : ℕ) (o : Option ℕ)
    → name_pointer b p n ≡ o
    → id_pointer b p id ≡ some a
    → IsConsistent b
    → describe b (if str_eq p p && str_eq (b.heap a).name n then none else o)
      ≡ (elim (describe b o) [
        | ok d ↦ if str_eq d.id id then err not_found else ok d
        | err x ↦ err x
      ])
unfolding describe descriptor_of
removed_name b p id n a none e held h = ground arith
removed_name b p id n a (some c) e held h = ground (
  arith,
  eq_refl p,
  eq_iff (b.heap c).id id,
  eq_iff (b.heap a).name n,
  h.named p n c e,
  h.identified p id a held,
)

delete_at-IsWithout :
    (b : Backend) (p id : String) (o : Option ℕ)
    → id_pointer b p id ≡ o
    → IsConsistent b
    → IsWithout b (delete_at b p id o) p id
unfolding get_by_id get_by_name
delete_at-IsWithout b p id none e h = (
  λ i. (unfold describe delete_at in ground (arith, eq_iff id i)),
  λ n. (unfold delete_at in deleted_name b p id n (name_pointer b p n) refl e h),
)
delete_at-IsWithout b p id (some a) e h = (
  λ i.
      (unfold describe in
        ground (
          arith,
          eq_refl p,
          heap-delete_at b p id (some a),
          id_pointer-delete_at b p id a p i,
          describe-heap b (delete_at b p id (some a)) (id_pointer b p i)
              (heap-delete_at b p id (some a)),
        )),
  λ n.
      ap (describe (delete_at b p id (some a))) (name_pointer-delete_at b p id a h e p n)
      ∙ (describe-heap b (delete_at b p id (some a)) _ (heap-delete_at b p id (some a))
          ∙ removed_name b p id n a (name_pointer b p n) refl e h),
)

-- After Delete the id is not found, nor is the name of its entry; every other id and name of the
-- particle is described as before. A missing id changes nothing.
pub delete_view :
    (b : Backend) (p id : String)
    → IsConsistent b
    → ((i : String)
        → get_by_id (delete b p id) p i ≡ (if str_eq id i then err not_found else get_by_id b p i))
      × ((n : String)
          → get_by_name (delete b p id) p n ≡ (elim (get_by_name b p n) [
            | ok d ↦ if str_eq d.id id then err not_found else ok d
            | err x ↦ err x
          ]))
unfolding delete
delete_view b p id h = delete_at-IsWithout b p id (id_pointer b p id) refl h

write_at_refused :
    (b : Backend) (secrets : List Secret) (o : Option ℕ)
    → (write_at b secrets o).0 ≢ ok tt
    → (write_at b secrets o).1 ≡ b
unfolding write_at
write_at_refused b secrets none h = refl
write_at_refused b secrets (some a) h = elim (h refl) [ ]

write_checked_refused :
    (b : Backend) (p id : String) (secrets : List Secret) (o : Option ℕ)
    → (write_checked b p id secrets o).0 ≢ ok tt
    → (write_checked b p id secrets o).1 ≡ b
unfolding write_checked
write_checked_refused b p id secrets none h = write_at_refused b secrets (id_pointer b p id) h
write_checked_refused b p id secrets (some n) h = refl

-- A WriteSecrets that is refused changes nothing.
pub write_secrets_refused :
    (b : Backend) (p id : String) (secrets : List Secret)
    → (write_secrets b p id secrets).0 ≢ ok tt
    → (write_secrets b p id secrets).1 ≡ b
unfolding write_secrets
write_secrets_refused b p id secrets h =
    write_checked_refused b p id secrets (empty_role_at 0 secrets) h
