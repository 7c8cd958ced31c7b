-- ===== src/Credentials/Memory/Consistency.antt =====
-- The invariant of the two indexes of credentials/memory/memory.go, and each operation under it.
use particles.Base.{
  ℕ, ◌<◌, String, ◌≡◌, refl, true, false, Option, none, some, List, [], ◌∷◌, arith, str_eq, eq_iff,
  eq_refl, ap, ◌&&◌, if◌then◌else◌, Option-cases, inl, inr,
}
use particles.Base.Dict
use particles.Base.Dict.{Dict, get-set, get-delete}
use particles.Credentials.{Metadata, Secret}
use particles.Credentials.Memory.{
  Entry, Slot, Backend, new_backend, store, indexed, slot_of, id_pointer, name_pointer, put_at,
  put_checked, put, delete_at, delete, drop_slot, write_at, write_checked, write_secrets, unset_at,
  delete_secret,
}

pub record IsConsistent (b : Backend) : Type 0 where
  pub named :
      (p n : String) (a : ℕ)
      → name_pointer b p n ≡ some a
      → ((b.heap a).name ≡ n) × (id_pointer b p (b.heap a).id ≡ some a)
  pub identified :
      (p i : String) (a : ℕ)
      → id_pointer b p i ≡ some a
      → ((b.heap a).id ≡ i) × (name_pointer b p (b.heap a).name ≡ some a) × (a < b.next)
  pub owned :
      (p q i j : String) (a : ℕ) → id_pointer b p i ≡ some a → id_pointer b q j ≡ some a → p ≡ q

module _ (b : Backend) (fresh particle name method : String) (meta : Metadata)
    (secrets : List Secret) where
  abbrev added : Backend
  added = (put_at b fresh particle name method meta secrets none).1

  -- The pointers after a new entry.
  pub id_pointer-put_at :
      (q i : String)
      → id_pointer added q i
        ≡ (if str_eq particle q && str_eq fresh i then some b.next else id_pointer b q i)
  unfolding put_at id_pointer
  id_pointer-put_at q i = ground (
    arith,
    eq_iff particle q,
    get-set particle q (indexed (slot_of b particle) fresh name b.next) b.by_particle,
    get-set fresh i b.next (slot_of b particle).by_id,
  )

  pub name_pointer-put_at :
      (q n : String)
      → name_pointer added q n
        ≡ (if str_eq particle q && str_eq name n then some b.next else name_pointer b q n)
  unfolding put_at name_pointer
  name_pointer-put_at q n = ground (
    arith,
    eq_iff particle q,
    get-set particle q (indexed (slot_of b particle) fresh name b.next) b.by_particle,
    get-set name n b.next (slot_of b particle).by_name,
  )

  put_at-IsConsistent :
      IsConsistent b
      → name_pointer b particle name ≡ none
      → id_pointer b particle fresh ≡ none
      → IsConsistent added
  unfolding put_at
  put_at-IsConsistent h new_name new_id = record {
    named = λ p n a e. ground (
      arith,
      eq_iff particle p,
      eq_iff name n,
      eq_iff fresh (b.heap a).id,
      eq_refl fresh,
      name_pointer-put_at p n,
      id_pointer-put_at p fresh,
      id_pointer-put_at p (b.heap a).id,
      h.named p n a,
      h.identified p (b.heap a).id a,
    );
    identified = λ p i a e. ground (
      arith,
      eq_iff particle p,
      eq_iff fresh i,
      eq_iff name (b.heap a).name,
      eq_refl name,
      id_pointer-put_at p i,
      name_pointer-put_at p name,
      name_pointer-put_at p (b.heap a).name,
      h.identified p i a,
    );
    owned = λ p q i j a e f. ground (
      arith,
      eq_iff particle p,
      eq_iff particle q,
      id_pointer-put_at p i,
      id_pointer-put_at q j,
      h.owned p q i j a,
      h.identified p i a,
      h.identified q j a,
    );
  }

-- An update of a record that keeps its id and its name.
pub store-IsConsistent :
    (b : Backend) (a : ℕ) (e : Entry)
    → IsConsistent b
    → e.id ≡ (b.heap a).id
    → e.name ≡ (b.heap a).name
    → IsConsistent (record b { heap = store b.heap a e })
unfolding id_pointer name_pointer
store-IsConsistent b a e h same_id same_name = record {
  named = λ p n c x. ground (arith, h.named p n c);
  identified = λ p i c x. ground (arith, h.identified p i c);
  owned = h.owned;
}

id_pointer-drop_slot :
    (b : Backend) (particle id q i : String) (rest : Slot) (ids : Dict ℕ)
    → rest.by_id ≡ ids
    → Dict.delete id (slot_of b particle).by_id ≡ ids
    → id_pointer (record b { by_particle = drop_slot particle rest ids b.by_particle }) q i
      ≡ (if str_eq particle q && str_eq id i then none else id_pointer b q i)
unfolding drop_slot id_pointer Dict.get
id_pointer-drop_slot b particle id q i rest [] r e = ground (
  arith,
  eq_iff particle q,
  get-delete particle q b.by_particle,
  get-delete id i (slot_of b particle).by_id,
  ap (λ (m : Dict ℕ). Dict.get i m) e,
)
id_pointer-drop_slot b particle id q i rest (x ∷ ids) r e = ground (
  arith,
  eq_iff particle q,
  get-set particle q rest b.by_particle,
  get-delete id i (slot_of b particle).by_id,
  ap (λ (m : Dict ℕ). Dict.get i m) e,
  ap (λ (m : Dict ℕ). Dict.get i m) r,
)

name_pointer-drop_slot :
    (b : Backend) (particle id name q n : String) (rest : Slot) (ids : Dict ℕ)
    → rest.by_name ≡ Dict.delete name (slot_of b particle).by_name
    → Dict.delete id (slot_of b particle).by_id ≡ ids
    → ((c : ℕ)
        → name_pointer b particle n ≡ some c
        → ((i : String) → str_eq id i ≡ false → id_pointer b particle i ≡ none)
        → str_eq name n ≡ true)
    → name_pointer (record b { by_particle = drop_slot particle rest ids b.by_particle }) q n
      ≡ (if str_eq particle q && str_eq name n then none else name_pointer b q n)
unfolding drop_slot name_pointer id_pointer Dict.get
name_pointer-drop_slot b particle id name q n rest [] r e only =
    elim (Option-cases (name_pointer b particle n)) [
      | inl missing ↦
          ground (arith, missing, eq_iff particle q, get-delete particle q b.by_particle)
      | inr (c, held) ↦ ground (
        arith,
        eq_iff particle q,
        get-delete particle q b.by_particle,
        only c held (λ i other. ground (
          arith,
          get-delete id i (slot_of b particle).by_id,
          ap (λ (m : Dict ℕ). Dict.get i m) e,
        )),
      )
    ]
name_pointer-drop_slot b particle id name q n rest (x ∷ ids) r e only = ground (
  arith,
  eq_iff particle q,
  get-set particle q rest b.by_particle,
  get-delete name n (slot_of b particle).by_name,
  ap (λ (m : Dict ℕ). Dict.get n m) r,
)

module _ (b : Backend) (particle id : String) (a : ℕ) where
  abbrev removed : Backend
  removed = delete_at b particle id (some a)

  pub id_pointer-delete_at :
      (q i : String)
      → id_pointer removed q i
        ≡ (if str_eq particle q && str_eq id i then none else id_pointer b q i)
  unfolding delete_at id_pointer
  id_pointer-delete_at q i =
      id_pointer-drop_slot b particle id q i
        (record {
          by_id = Dict.delete id (slot_of b particle).by_id;
          by_name = Dict.delete (b.heap a).name (slot_of b particle).by_name;
        })
        (Dict.delete id (slot_of b particle).by_id) refl refl

  -- In a consistent store the removal of an id takes exactly its own name away.
  pub name_pointer-delete_at :
      IsConsistent b
      → id_pointer b particle id ≡ some a
      → (q n : String)
      → name_pointer removed q n
        ≡ (if str_eq particle q && str_eq (b.heap a).name n then none else name_pointer b q n)
  unfolding delete_at name_pointer
  name_pointer-delete_at h found q n =
      name_pointer-drop_slot b particle id (b.heap a).name q n
        (record {
          by_id = Dict.delete id (slot_of b particle).by_id;
          by_name = Dict.delete (b.heap a).name (slot_of b particle).by_name;
        })
        (Dict.delete id (slot_of b particle).by_id) refl refl
        (λ c e other. ground (
          arith,
          h.named particle n c,
          eq_iff id (b.heap c).id,
          eq_iff (b.heap a).name n,
          other (b.heap c).id,
        ))

  delete_at-IsConsistent : IsConsistent b → id_pointer b particle id ≡ some a → IsConsistent removed
  unfolding delete_at
  delete_at-IsConsistent h found = record {
    named = λ p n c e. ground (
      arith,
      eq_iff particle p,
      eq_iff (b.heap a).name n,
      eq_iff id (b.heap c).id,
      name_pointer-delete_at h found p n,
      id_pointer-delete_at p (b.heap c).id,
      h.named p n c,
      h.identified particle id a,
    );
    identified = λ p i c e. ground (
      arith,
      eq_iff particle p,
      eq_iff id i,
      eq_iff (b.heap a).name (b.heap c).name,
      id_pointer-delete_at p i,
      name_pointer-delete_at h found p (b.heap c).name,
      h.identified p i c,
      h.identified particle id a,
    );
    owned = λ p q i j c e f.
        ground (arith, id_pointer-delete_at p i, id_pointer-delete_at q j, h.owned p q i j c);
  }

write_at-IsConsistent :
    (b : Backend) (secrets : List Secret) (o : Option ℕ)
    → IsConsistent b
    → IsConsistent (write_at b secrets o).1
unfolding write_at
write_at-IsConsistent b secrets none h = h
write_at-IsConsistent b secrets (some a) h = store-IsConsistent b a _ h refl refl

unset_at-IsConsistent :
    (b : Backend) (role : String) (o : Option ℕ) → IsConsistent b → IsConsistent (unset_at b role o)
unfolding unset_at
unset_at-IsConsistent b role none h = h
unset_at-IsConsistent b role (some a) h = store-IsConsistent b a _ h refl refl

put_cases-IsConsistent :
    (b : Backend) (fresh particle name method : String) (meta : Metadata) (secrets : List Secret)
    (o : Option ℕ)
    → name_pointer b particle name ≡ o
    → IsConsistent b
    → id_pointer b particle fresh ≡ none
    → IsConsistent (put_at b fresh particle name method meta secrets o).1
put_cases-IsConsistent b fresh particle name method meta secrets none e h new =
    put_at-IsConsistent b fresh particle name method meta secrets h e new
put_cases-IsConsistent b fresh particle name method meta secrets (some a) e h new =
    unfold put_at in store-IsConsistent b a _ h refl refl

delete_cases-IsConsistent :
    (b : Backend) (particle id : String) (o : Option ℕ)
    → id_pointer b particle id ≡ o
    → IsConsistent b
    → IsConsistent (delete_at b particle id o)
delete_cases-IsConsistent b particle id none e h = unfold delete_at in h
delete_cases-IsConsistent b particle id (some a) e h = delete_at-IsConsistent b particle id a h e

-- Put keeps the indexes consistent, whether it adds, reconfigures or refuses, where the id
-- generator answers an id that the particle does not use.
pub put-IsConsistent :
    (b : Backend) (fresh particle name method : String) (meta : Option Metadata)
    (secrets : List Secret)
    → IsConsistent b
    → id_pointer b particle fresh ≡ none
    → IsConsistent (put b fresh particle name method meta secrets).1
unfolding put put_checked
put-IsConsistent b fresh particle name method none secrets h new = h
put-IsConsistent b fresh particle name method (some meta) secrets h new = ground (
  arith,
  put_cases-IsConsistent b fresh particle name method meta secrets (name_pointer b particle name)
      refl h new,
)

pub delete-IsConsistent :
    (b : Backend) (particle id : String) → IsConsistent b → IsConsistent (delete b particle id)
unfolding delete
delete-IsConsistent b particle id h =
    delete_cases-IsConsistent b particle id (id_pointer b particle id) refl h

pub write_secrets-IsConsistent :
    (b : Backend) (particle id : String) (secrets : List Secret)
    → IsConsistent b
    → IsConsistent (write_secrets b particle id secrets).1
unfolding write_secrets write_checked
write_secrets-IsConsistent b particle id secrets h =
    ground (arith, write_at-IsConsistent b secrets (id_pointer b particle id) h)

pub delete_secret-IsConsistent :
    (b : Backend) (particle id role : String)
    → IsConsistent b
    → IsConsistent (delete_secret b particle id role)
unfolding delete_secret
delete_secret-IsConsistent b particle id role h =
    unset_at-IsConsistent b role (id_pointer b particle id) h

pub new_backend-IsConsistent : (heap : ℕ → Entry) → IsConsistent (new_backend heap)
unfolding id_pointer name_pointer Dict.get
new_backend-IsConsistent heap = record {
  named = λ p n a e. cc;
  identified = λ p i a e. cc;
  owned = λ p q i j a e f. cc;
}
