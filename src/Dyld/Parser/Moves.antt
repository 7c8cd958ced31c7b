-- ===== src/Dyld/Parser/Moves.antt =====
-- The readers of internal/runtime/dyld/loader.go: the bytes that they take.
use particles.Base.{
  ℕ, zero, suc, ◌%◌, ◌≤◌, ◌≢◌, Bool, true, false, List, [], ◌∷◌, length, arith, if◌then◌else◌, ◌==◌,
}
use particles.Dyld.{
  Read, ReadError, ok, err, too_long, out_of_fuel, read_bytes, read_uleb128, read_signed,
  read_sleb128,
}
use particles.Dyld.Reader.{
  Reader, bind, ◌>>=◌, pure, read_byte, read_full, read_string, read_val_types, uleb32, skip_limits,
}

-- The reader kept within its rounds, and what it leaves is no longer than what it got.
pub data Moves {ℓ} {A : Type ℓ} (r : List ℕ) : Read (A × List ℕ) → Type ℓ where
  moved : {a : A} {rest : List ℕ} → length rest ≤ length r → Moves r (ok (a, rest))
  refused : {e : ReadError} → e ≢ out_of_fuel → Moves r (err e)

abbrev pub IsSane {ℓ} : {A : Type ℓ} → Reader A → Type ℓ
IsSane p = (r : List ℕ) → Moves r (p r)

pub Moves-le {ℓ} :
    {A : Type ℓ} {r r' : List ℕ} {m : Read (A × List ℕ)}
    → Moves r m
    → length r ≤ length r'
    → Moves r' m
Moves-le (moved h) k = moved (omega (arith, h, k))
Moves-le (refused h) k = refused h

module _ {ℓ κ} {A : Type ℓ} {B : Type κ} where
  pub Moves-bind :
      (r : List ℕ) (m : Read (A × List ℕ)) (f : A → Reader B)
      → Moves r m
      → ((a : A) → (rest : List ℕ) → length rest ≤ length r → Moves r (f a rest))
      → Moves r (bind m λ (a, rest). f a rest)
  Moves-bind r _ f (moved {a} {rest} h) k = k a rest h
  Moves-bind r _ f (refused h) k = refused h

module _ {ℓ} {A : Type ℓ} where
  pub Moves-if :
      (b : Bool) (r : List ℕ) (x y : Read (A × List ℕ))
      → Moves r x
      → Moves r y
      → Moves r (if b then x else y)
  Moves-if true r x y h k = h
  Moves-if false r x y h k = k

  pub IsSane-if : (b : Bool) (p q : Reader A) → IsSane p → IsSane q → IsSane (if b then p else q)
  IsSane-if true p q h k = h
  IsSane-if false p q h k = k

module _ {ℓ κ} {A : Type ℓ} {B : Type κ} where
  pub >>=-IsSane :
      (p : Reader A) (f : A → Reader B) → IsSane p → ((a : A) → IsSane (f a)) → IsSane (p >>= f)
  >>=-IsSane p f h k r = Moves-bind r (p r) f (h r) λ a rest le. Moves-le (k a rest) le

pub pure-IsSane {ℓ} : {A : Type ℓ} (a : A) → IsSane (pure a)
pure-IsSane a r = moved (omega arith)

too_long-stays : too_long ≢ out_of_fuel
too_long-stays e = cc

pub read_byte-IsSane : IsSane read_byte
unfolding read_byte
read_byte-IsSane [] = refused cc
read_byte-IsSane (b ∷ r) = moved (omega arith)

pub read_full-IsSane : (n : ℕ) → IsSane (read_full n)
unfolding read_full
read_full-IsSane zero r = moved (omega arith)
read_full-IsSane (suc n) [] = refused cc
read_full-IsSane (suc n) (b ∷ r) =
    Moves-bind (b ∷ r) (read_full n r) (λ xs rest. ok (b ∷ xs, rest))
      (Moves-le (read_full-IsSane n r) (omega arith)) λ xs rest le. moved le

read_bytes-IsSane : (n weight result : ℕ) → IsSane (read_bytes n weight result)
unfolding read_bytes
read_bytes-IsSane n weight result [] = refused cc
read_bytes-IsSane n weight result (b ∷ r) = Moves-if _ _ _ _ (moved (omega arith)) (
    Moves-if _ _ _ _ (refused too_long-stays)
      (Moves-le (read_bytes-IsSane (suc n) _ _ r) (omega arith)))

pub read_uleb128-IsSane : IsSane read_uleb128
unfolding read_uleb128
read_uleb128-IsSane = read_bytes-IsSane 0 1 0

read_signed-IsSane : (n weight result : ℕ) → IsSane (read_signed n weight result)
unfolding read_signed
read_signed-IsSane n weight result [] = refused cc
read_signed-IsSane n weight result (b ∷ r) = Moves-if _ _ _ _ (moved (omega arith)) (
    Moves-if _ _ _ _ (refused too_long-stays)
      (Moves-le (read_signed-IsSane (suc n) _ _ r) (omega arith)))

pub read_sleb128-IsSane : IsSane read_sleb128
unfolding read_sleb128
read_sleb128-IsSane = read_signed-IsSane 0 1 0

pub read_string-IsSane : IsSane read_string
unfolding read_string
read_string-IsSane = >>=-IsSane read_uleb128 read_full read_uleb128-IsSane read_full-IsSane

pub read_val_types-IsSane : IsSane read_val_types
unfolding read_val_types
read_val_types-IsSane = >>=-IsSane read_uleb128 read_full read_uleb128-IsSane read_full-IsSane

pub uleb32-IsSane : IsSane uleb32
unfolding uleb32
uleb32-IsSane = >>=-IsSane read_uleb128 _ read_uleb128-IsSane λ v. pure-IsSane (v % 4294967296)

-- A reader whose answer is dropped
pub skips {ℓ} : {A : Type ℓ} (p : Reader A) → IsSane p → IsSane {A = Unit {0}} (p >>= λ _. pure tt)
skips p h = >>=-IsSane p _ h λ _. pure-IsSane tt

pub skip_limits-IsSane : IsSane skip_limits
unfolding skip_limits
skip_limits-IsSane = >>=-IsSane read_byte _ read_byte-IsSane λ flag.
    >>=-IsSane read_uleb128 _ read_uleb128-IsSane
      λ _. IsSane-if (flag % 2 == 1) _ _ (skips read_uleb128 read_uleb128-IsSane) (pure-IsSane tt)
