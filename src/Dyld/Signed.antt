-- ===== src/Dyld/Signed.antt =====
-- Theorems on writeSLEB128 and readSLEB128 of internal/runtime/dyld.
use particles.Base.{
  ℕ, zero, suc, ◌≢◌, ◌+◌, ◌-◌, ◌*◌, ◌/◌, ◌%◌, ◌<◌, ◌≤◌, ◌≡◌, sym, ap, ◌∙◌, List, [], ◌∷◌, ◌++◌, ltb,
  arith, Bool-cases, inl, inr, ltb→lt,
}
use native.Mathlib.Nat.{add-mul, mul-le-mul_right}
use particles.Dyld.{ok, shift_right, write_signed, write_sleb128, read_signed, read_sleb128}
use particles.Dyld.Encoder.{int64_of}
use particles.Dyld.RoundTrip.{has_fuel, split_weight, power}

abbrev limit : ℕ
limit = 18446744073709551616

abbrev low_complement :
    (m weight : ℕ) → (m % 128) * weight + (127 - m % 128) * weight ≡ 127 * weight
low_complement m weight =
    sym (add-mul (m % 128) (127 - m % 128) weight) ∙ ap (λ (x : ℕ). x * weight) (omega arith)

-- The last byte of a number that is not negative.
last_pos :
    (fuel n weight result v : ℕ) (rest : List ℕ)
    → v < 64
    → result + v * weight < limit
    → read_signed n weight result (write_signed (suc fuel) v ++ rest)
      ≡ ok (result + v * weight, rest)
unfolding write_signed read_signed
last_pos fuel n weight result v rest small fits =
    let low : v % 128 ≡ v = omega (arith, small) in
    let none_left : v / 128 ≡ 0 = omega (arith, small) in
    let value : (result + v * weight) % limit ≡ result + v * weight = omega (arith, fits) in
    ground (arith, low, none_left, value)

-- A byte with more to come.
next_byte :
    (n weight result b x : ℕ) (bytes : List ℕ)
    → x % 128 ≡ b
    → 128 ≤ x
    → result + b * weight < limit
    → 7 * suc n < 64
    → read_signed n weight result (x ∷ bytes)
      ≡ read_signed (suc n) (weight * 128) (result + b * weight) bytes
unfolding read_signed
next_byte n weight result b x bytes e high fits early =
    let value : (result + (x % 128) * weight) % limit ≡ result + b * weight =
      ap (λ (y : ℕ). (result + y * weight) % limit) e ∙ omega (arith, fits) in
    ground
      (arith, high, early, value, ap (λ (y : ℕ). read_signed (suc n) (weight * 128) y bytes) value)

more_pos :
    (fuel v : ℕ)
    → 64 ≤ v
    → v < 9223372036854775808
    → write_signed (suc fuel) v ≡ (v % 128 + 128) ∷ write_signed fuel (v / 128)
unfolding write_signed
more_pos fuel v big small =
    let signed : (v / 128 ≡ 0 → 64 ≤ v % 128) = λ e. omega (arith, big, e) in
    let below : v / 128 < 18446744073709551615 = omega (arith, small) in
    ground (arith, signed, below, small)

-- A number that is not negative, below half of 128 ^ k.
signed_pos :
    (k fuel n result v : ℕ) (rest : List ℕ)
    → v + v < power k
    → 1 ≤ k
    → k ≤ fuel
    → n + k ≤ 5
    → v < 9223372036854775808
    → result + v * power n < limit
    → read_signed n (power n) result (write_signed fuel v ++ rest) ≡ ok (result + v * power n, rest)
unfolding power
signed_pos zero fuel n result v rest small some_rounds enough early range fits =
    absurd (omega (arith, some_rounds))
signed_pos (suc k) zero n result v rest small some_rounds enough early range fits =
    absurd (omega (arith, enough))
signed_pos (suc k) (suc fuel) n result v rest small some_rounds enough early range fits =
    elim (Bool-cases (ltb v 64)) [
      | inl e ↦ last_pos fuel n (power n) result v rest (ltb→lt v 64 e) fits
      | inr e ↦
          let high : 64 ≤ v = ground (arith, e) in
          let split = split_weight v (power n) in
          ap (λ (l : List ℕ). read_signed n (power n) result (l ++ rest))
            (more_pos fuel v high range)
          ∙ (next_byte n (power n) result (v % 128) (v % 128 + 128)
                (write_signed fuel (v / 128) ++ rest) (omega arith) (omega arith)
                (omega (arith, split, fits)) (omega (arith, early))
              ∙ (signed_pos k fuel (suc n) (result + (v % 128) * power n) (v / 128) rest
                    (omega (arith, small)) (has_fuel k (v + v) (omega (arith, high)) small)
                    (omega (arith, enough)) (omega (arith, early)) (omega (arith, range))
                    (omega (arith, split, fits))
                  ∙ ap (λ (x : ℕ). ok (x, rest)) (omega (arith, split))))
    ]

-- Five bytes hold 35 bits.
power_room : (n : ℕ) → n ≤ 4 → power n * 256 ≤ limit
unfolding power
power_room zero h = ground arith
power_room (suc zero) h = ground arith
power_room (suc (suc zero)) h = ground arith
power_room (suc (suc (suc zero))) h = ground arith
power_room (suc (suc (suc (suc zero)))) h = ground arith
power_room (suc (suc (suc (suc (suc n))))) h = absurd (omega (arith, h))

abbrev minus : ℕ → ℕ
minus m = 18446744073709551615 - m

written_neg : (fuel m : ℕ) → m < 64 → write_signed (suc fuel) (minus m) ≡ (127 - m) ∷ []
unfolding write_signed
written_neg fuel m small =
    let low : minus m % 128 ≡ 127 - m = omega (arith, small) in
    let all_ones : shift_right (minus m) ≡ 18446744073709551615 = ground (arith, small) in
    ground (arith, low, all_ones, small)

more_neg :
    (fuel m : ℕ)
    → 64 ≤ m
    → m < 9223372036854775808
    → write_signed (suc fuel) (minus m)
      ≡ ((127 - m % 128) + 128) ∷ write_signed fuel (minus (m / 128))
unfolding write_signed
more_neg fuel m big small =
    let low : minus m % 128 ≡ 127 - m % 128 = omega (arith, small) in
    let next : shift_right (minus m) ≡ minus (m / 128) = ground (arith, small) in
    let positive : minus (m / 128) ≢ 0 = ground (arith, small) in
    let not_last : (minus (m / 128) ≡ 18446744073709551615 → 127 - m % 128 < 64) =
      λ e. omega (arith, big, small, e) in
    ground (arith, low, next, positive, not_last)

last_neg :
    (fuel n weight result m : ℕ) (rest : List ℕ)
    → m < 64
    → 7 * suc n < 64
    → result + 128 * weight ≤ limit
    → 1 ≤ weight
    → read_signed n weight result ((127 - m) ∷ rest) ≡ ok (result + (limit - suc m * weight), rest)
unfolding read_signed
last_neg fuel n weight result m rest small early fits some_weight =
    let comp : suc m * weight + (127 - m) * weight ≡ 128 * weight =
      sym (add-mul (suc m) (127 - m) weight) ∙ ap (λ (x : ℕ). x * weight) (omega (arith, small)) in
    let low : (127 - m) % 128 ≡ 127 - m = omega (arith, small) in
    let some : 1 ≤ suc m = omega arith in
    let at_least = mul-le-mul_right weight some in
    let fact : (result + (127 - m) * weight) % limit + (limit - weight * 128)
        ≡ result + (limit - suc m * weight) =
      omega (arith, comp, at_least, fits, some_weight) in
    let high_sign : 64 ≤ 127 - m = omega (arith, small) in
    let byte : (result + (127 - m) % 128 * weight) % limit ≡ (result + (127 - m) * weight) % limit =
      ap (λ (x : ℕ). (result + x * weight) % limit) low in
    ground (arith, low, fact, high_sign, early, byte)

-- A negative number, -1 - m.
signed_neg :
    (k fuel n result m : ℕ) (rest : List ℕ)
    → m + m < power k
    → 1 ≤ k
    → k ≤ fuel
    → n + k ≤ 5
    → m < 9223372036854775808
    → result < power n
    → suc m * power n ≤ 4294967296 + power n
    → read_signed n (power n) result (write_signed fuel (minus m) ++ rest)
      ≡ ok (result + (limit - suc m * power n), rest)
unfolding power
signed_neg zero fuel n result m rest small some_rounds enough early range fits bound =
    absurd (omega (arith, some_rounds))
signed_neg (suc k) zero n result m rest small some_rounds enough early range fits bound =
    absurd (omega (arith, enough))
signed_neg (suc k) (suc fuel) n result m rest small some_rounds enough early range fits bound =
    let room = power_room n (omega (arith, early)) in
    elim (Bool-cases (ltb m 64)) [
      | inl e ↦
          let low = ltb→lt m 64 e in
          ap (λ (l : List ℕ). read_signed n (power n) result (l ++ rest)) (written_neg fuel m low)
          ∙ last_neg fuel n (power n) result m rest low (omega (arith, early))
              (omega (arith, room, fits)) (omega (arith, fits))
      | inr e ↦
          let high : 64 ≤ m = ground (arith, e) in
          let split = split_weight m (power n) in
          let comp = low_complement m (power n) in
          ap (λ (l : List ℕ). read_signed n (power n) result (l ++ rest))
            (more_neg fuel m high range)
          ∙ (next_byte n (power n) result (127 - m % 128) ((127 - m % 128) + 128)
                (write_signed fuel (minus (m / 128)) ++ rest) (omega arith) (omega arith)
                (omega (arith, comp, room, fits)) (omega (arith, early))
              ∙ (signed_neg k fuel (suc n) (result + (127 - m % 128) * power n) (m / 128) rest
                    (omega (arith, small)) (has_fuel k (m + m) (omega (arith, high)) small)
                    (omega (arith, enough)) (omega (arith, early)) (omega (arith, range))
                    (omega (arith, comp, fits)) (omega (arith, split, bound))
                  ∙ ap (λ (x : ℕ). ok (x, rest)) (omega (arith, split, comp, bound, room))))
    ]

-- An int32 is written and read back as the int64 it stands for, with what follows it left over.
pub read_sleb128-write_sleb128 :
    (v : ℕ) (rest : List ℕ)
    → v < 4294967296
    → read_sleb128 (write_sleb128 (int64_of v) ++ rest) ≡ ok (int64_of v, rest)
unfolding read_sleb128 write_sleb128 power
read_sleb128-write_sleb128 v rest h = elim (Bool-cases (ltb v 2147483648)) [
  | inl e ↦
      let small = ltb→lt v 2147483648 e in
      let is : int64_of v ≡ v = ground (arith, e) in
      rw is (
        signed_pos 5 10 0 0 v rest (omega (arith, small)) (omega arith) (omega arith) (omega arith)
          (omega (arith, small)) (omega (arith, small))
        ∙ ap (λ (x : ℕ). ok (x, rest)) (omega arith))
  | inr e ↦
      let m : ℕ = 4294967295 - v in
      let big : 2147483648 ≤ v = ground (arith, e) in
      let is : int64_of v ≡ minus m = ground (arith, e, h) in
      rw is (
        signed_neg 5 10 0 0 m rest (omega (arith, h, big)) (omega arith) (omega arith) (omega arith)
          (omega arith) (omega arith) (omega (arith, h, big))
        ∙ ap (λ (x : ℕ). ok (x, rest)) (omega (arith, h)))
]
