-- ===== src/Dyld/RoundTrip.antt =====
-- Theorems on writeULEB128 and readULEB128 of internal/runtime/dyld.
use particles.Base.{
  ℕ, zero, suc, ◌+◌, ◌*◌, ◌/◌, ◌%◌, ◌<◌, ◌≤◌, ◌≡◌, sym, ap, subst, ◌∙◌, List, [], ◌∷◌, ◌++◌, leb,
  ltb, arith, Bool-cases, inl, inr, leb→le, ltb→lt,
}
use native.Mathlib.Nat.{add-mul, mul_assoc, mul_comm, mul-le-mul_right}
use particles.Dyld.{ok, write_bytes, write_uleb128, read_bytes, read_uleb128}

whole : (v : ℕ) → v % 128 + (v / 128) * 128 ≡ v
whole v = omega arith

-- The low seven bits and the others make up the number.
pub split_weight : (v weight : ℕ) → (v % 128) * weight + (v / 128) * (weight * 128) ≡ v * weight
split_weight v weight =
    ap (λ (x : ℕ). (v % 128) * weight + x)
      (ap (λ (x : ℕ). (v / 128) * x) (mul_comm weight 128) ∙ sym (mul_assoc (v / 128) 128 weight))
    ∙ (sym (add-mul (v % 128) ((v / 128) * 128) weight) ∙ ap (λ (x : ℕ). x * weight) (whole v))

unfoldable pub power : ℕ → ℕ
power zero = 1
power (suc n) = power n * 128

abbrev limit : ℕ
limit = 18446744073709551616

big : (n : ℕ) → 10 ≤ n → limit ≤ power n
unfolding power
big zero h = ground (arith, h)
big (suc n) h = elim (Bool-cases (leb 10 n)) [
  | inl e ↦ omega (arith, big n (leb→le 10 n e))
  | inr e ↦
      let nine : n ≡ 9 = ground (arith, h, e) in
      subst (λ (m : ℕ). limit ≤ power (suc m)) (sym nine) (ground arith)
]

value_of :
    (x b weight result : ℕ)
    → x % 128 ≡ b
    → result + b * weight < limit
    → (result + (x % 128) * weight) % limit ≡ result + b * weight
value_of x b weight result e fits =
    ap (λ (y : ℕ). (result + y * weight) % limit) e ∙ omega (arith, fits)

-- The last byte of a number.
read_last :
    (n weight result b : ℕ) (bytes : List ℕ)
    → b < 128
    → result + b * weight < limit
    → read_bytes n weight result (b ∷ bytes) ≡ ok (result + b * weight, bytes)
unfolding read_bytes
read_last n weight result b bytes small fits =
    ground (arith, small, value_of b b weight result (omega (arith, small)) fits)

-- A byte with more to come.
read_more :
    (n weight result b : ℕ) (bytes : List ℕ)
    → b < 128
    → result + b * weight < limit
    → 7 * suc n < 64
    → read_bytes n weight result ((b + 128) ∷ bytes)
      ≡ read_bytes (suc n) (weight * 128) (result + b * weight) bytes
unfolding read_bytes
read_more n weight result b bytes small fits early = ground (
  arith,
  small,
  early,
  value_of (b + 128) b weight result (omega (arith, small)) fits,
  ap (λ (x : ℕ). read_bytes (suc n) (weight * 128) x bytes)
      (value_of (b + 128) b weight result (omega (arith, small)) fits),
)

written_last : (fuel v : ℕ) → v < 128 → write_bytes (suc fuel) v ≡ v ∷ []
unfolding write_bytes
written_last fuel v h =
    let low : v % 128 ≡ v = omega (arith, h) in
    let none_left : v / 128 ≡ 0 = omega (arith, h) in ground (arith, low, none_left)

written_more :
    (fuel v : ℕ) → 128 ≤ v → write_bytes (suc fuel) v ≡ (v % 128 + 128) ∷ write_bytes fuel (v / 128)
unfolding write_bytes
written_more fuel v h = let some_left : 1 ≤ v / 128 = omega (arith, h) in ground (arith, some_left)

pub has_fuel : (fuel v : ℕ) → 128 ≤ v → v < power (suc fuel) → 1 ≤ fuel
unfolding power
has_fuel zero v h small = omega (arith, h, small)
has_fuel (suc fuel) v h small = omega arith

-- A number that goes on has not used up the shift.
shift_left : (n result v : ℕ) → 128 ≤ v → result + v * power n < limit → 7 * suc n < 64
unfolding power
shift_left n result v h fits = elim (Bool-cases (leb 64 (7 * suc n))) [
  | inl e ↦
      let many : 10 ≤ suc n = ground (arith, e) in
      let full = big (suc n) many in
      let some_left : 1 ≤ v / 128 = omega (arith, h) in
      let grown = mul-le-mul_right (power n * 128) some_left in
      omega (arith, split_weight v (power n), full, grown, fits)
  | inr e ↦ ground (arith, e)
]

read_bytes-write_bytes :
    (fuel n result v : ℕ) (rest : List ℕ)
    → v < power fuel
    → result + v * power n < limit
    → 1 ≤ fuel
    → read_bytes n (power n) result (write_bytes fuel v ++ rest) ≡ ok (result + v * power n, rest)
unfolding write_bytes power
read_bytes-write_bytes zero n result v rest small fits some_fuel = ground (arith, some_fuel)
read_bytes-write_bytes (suc fuel) n result v rest small fits some_fuel =
    elim (Bool-cases (ltb v 128)) [
      | inl e ↦
          let low = ltb→lt v 128 e in
          ap (λ (l : List ℕ). read_bytes n (power n) result (l ++ rest)) (written_last fuel v low)
          ∙ read_last n (power n) result v rest low fits
      | inr e ↦
          let high : 128 ≤ v = ground (arith, e) in
          let split = split_weight v (power n) in
          ap (λ (l : List ℕ). read_bytes n (power n) result (l ++ rest)) (written_more fuel v high)
          ∙ (read_more n (power n) result (v % 128) (write_bytes fuel (v / 128) ++ rest)
                (omega arith) (omega (arith, split, fits)) (shift_left n result v high fits)
              ∙ (read_bytes-write_bytes fuel (suc n) (result + (v % 128) * power n) (v / 128) rest
                    (omega (arith, small)) (omega (arith, split, fits)) (has_fuel fuel v high small)
                  ∙ ap (λ (x : ℕ). ok (x, rest)) (omega (arith, split))))
    ]

-- A 64-bit number that is written is read back whole, and what follows it is left; so ten bytes are
-- enough for the writer, and the reader does not refuse what it wrote.
pub read_uleb128-write_uleb128 :
    (v : ℕ) (rest : List ℕ)
    → v < 18446744073709551616
    → read_uleb128 (write_uleb128 v ++ rest) ≡ ok (v, rest)
unfolding read_uleb128 write_uleb128 power
read_uleb128-write_uleb128 v rest h =
    read_bytes-write_bytes 10 0 0 v rest (omega (arith, h)) (omega (arith, h)) (omega arith)
    ∙ ap (λ (x : ℕ). ok (x, rest)) (omega arith)
