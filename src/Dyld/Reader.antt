-- ===== src/Dyld/Reader.antt =====
-- internal/runtime/dyld/loader.go: the readers below the sections, readString, readValTypes,
-- skipLimits and io.ReadFull. A length that Go refuses to allocate counts as a missing input.
use particles.Base.{ℕ, zero, suc, ◌%◌, List, [], ◌∷◌, ◌==◌, if◌then◌else◌}
use particles.Dyld.{Read, ok, err, end_of_input, read_uleb128}
use particles.Dyld.Names.{Name}

abbrev pub Reader {ℓ} : Type ℓ → Type ℓ
Reader A = List ℕ → Read (A × List ℕ)

abbrev pub pure {ℓ} : {A : Type ℓ} → A → Reader A
pure a r = ok (a, r)

abbrev pub bind {ℓ κ} : {A : Type ℓ} {B : Type κ} → Read A → (A → Read B) → Read B
bind (ok a) f = f a
bind (err e) f = err e

infixl 1 ◌>>=◌ ◌>>◌
abbrev pub ◌>>=◌ {ℓ κ} : {A : Type ℓ} {B : Type κ} → Reader A → (A → Reader B) → Reader B
p >>= f = λ r. bind (p r) λ (a, rest). f a rest

abbrev pub ◌>>◌ {ℓ κ} : {A : Type ℓ} {B : Type κ} → Reader A → Reader B → Reader B
p >> q = p >>= λ _. q

abbrev pub run {ℓ} : {A : Type ℓ} → List ℕ → Reader A → Read (A × List ℕ)
run r p = p r

-- r.ReadByte
unfoldable pub read_byte : Reader ℕ
read_byte [] = err end_of_input
read_byte (b ∷ r) = ok (b, r)

-- io.ReadFull of `n` bytes
unfoldable pub read_full : ℕ → Reader (List ℕ)
read_full zero r = ok ([], r)
read_full (suc n) [] = err end_of_input
read_full (suc n) (b ∷ r) = run r do pure (b ∷ (← read_full n))

-- readString; readValTypes is the same code
unfoldable pub read_string : Reader Name
unfolding read_full
read_string r = run r do read_full (← read_uleb128)

unfoldable pub read_val_types : Reader (List ℕ)
unfolding read_full
read_val_types r = run r do read_full (← read_uleb128)

-- uleb32
unfoldable pub uleb32 : Reader ℕ
uleb32 r = run r do pure ((← read_uleb128) % 4294967296)

-- skipLimits: the lowest bit of the flag says that a maximum stands behind the minimum.
unfoldable pub skip_limits : Reader (Unit {0})
unfolding read_byte
skip_limits r =
    run r
      do flag ← read_byte; read_uleb128; if flag % 2 == 1 then read_uleb128 >> pure tt else pure tt
