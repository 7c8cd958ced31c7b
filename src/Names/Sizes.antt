-- ===== src/Names/Sizes.antt =====
-- Theorems on ParseByteSize of runtime/manifest.go: the range of its answers.
use particles.Base.{
  ℕ, ◌*◌, ◌<◌, ◌≤◌, String, ◌≡◌, refl, sym, ap, ◌∙◌, subst, ◌⊎◌, inl, inr, Option, none, some,
  arith,
}
use particles.Names.{
  Parsed, not_a_number, negative, natural, scaled, multiplier, parse_int, parse_byte_size,
  split_number, int64_max,
}

abbrev IsExact : ℕ → ℕ → ℕ → Type 0
IsExact n mult v = (v ≡ n * mult) × (0 < v) × (v ≤ int64_max)

abbrev IsUnit : ℕ → Type 0
IsUnit mult = (mult ≡ 1) ⊎ ((mult ≡ 1024) ⊎ ((mult ≡ 1048576) ⊎ (mult ≡ 1073741824)))

multiplier-IsUnit : (unit : String) (mult : ℕ) → multiplier unit ≡ some mult → IsUnit mult
unfolding multiplier
multiplier-IsUnit unit mult h = ground arith

at_unit :
    (n v mult unit : ℕ)
    → mult ≡ unit
    → (scaled (natural n) (some unit) ≡ some v → IsExact n unit v)
    → scaled (natural n) (some mult) ≡ some v
    → IsExact n mult v
at_unit n v mult unit e =
    subst
      (λ (m : ℕ).
        (scaled (natural n) (some m) ≡ some v → IsExact n m v)
        → scaled (natural n) (some mult) ≡ some v
        → IsExact n mult v)
      e (λ k. k)

-- Under each unit the bound on the number keeps the product an int64.
scaled-IsExact :
    (n mult v : ℕ) → IsUnit mult → scaled (natural n) (some mult) ≡ some v → IsExact n mult v
unfolding scaled
scaled-IsExact n mult v (inl e) = at_unit n v mult 1 e (λ k. ground arith)
scaled-IsExact n mult v (inr (inl e)) = at_unit n v mult 1024 e (λ k. ground arith)
scaled-IsExact n mult v (inr (inr (inl e))) = at_unit n v mult 1048576 e (λ k. ground arith)
scaled-IsExact n mult v (inr (inr (inr e))) = at_unit n v mult 1073741824 e (λ k. ground arith)

scaled_parts :
    (p : Parsed) (o : Option ℕ) (v : ℕ)
    → scaled p o ≡ some v
    → (n : ℕ) × (mult : ℕ) × (p ≡ natural n) × (o ≡ some mult)
unfolding scaled
scaled_parts (natural n) (some mult) v h = (n, mult, refl, refl)
scaled_parts (natural n) none v h = cc
scaled_parts (negative n) o v h = cc
scaled_parts not_a_number o v h = cc

parse_byte_size-scaled :
    (trim upper : String → String) (s : String) (v : ℕ)
    → parse_byte_size trim upper s ≡ some v
    → scaled
        (parse_int (trim (split_number (trim s)).0))
        (multiplier (upper (trim (split_number (trim s)).1)))
      ≡ some v
unfolding parse_byte_size
parse_byte_size-scaled trim upper s v h = ground (arith, h)

-- A size that is read is the number times its unit, exactly: it is positive and an int64, whatever
-- the text.
pub parse_byte_size_exact :
    (trim upper : String → String) (s : String) (v : ℕ)
    → parse_byte_size trim upper s ≡ some v
    → (n : ℕ) × (mult : ℕ) × (parse_int (trim (split_number (trim s)).0) ≡ natural n)
      × (multiplier (upper (trim (split_number (trim s)).1)) ≡ some mult)
      × (v ≡ n * mult)
      × (0 < v)
      × (v ≤ 9223372036854775807)
unfolding parse_byte_size
parse_byte_size_exact trim upper s v h =
    let number = trim (split_number (trim s)).0 in
    let unit = upper (trim (split_number (trim s)).1) in
    let k = parse_byte_size-scaled trim upper s v h in
    let (n, mult, e, u) = scaled_parts (parse_int number) (multiplier unit) v k in
    let (exact, positive, small) = scaled-IsExact n mult v (multiplier-IsUnit unit mult u) (
      sym (ap (λ (p : Parsed). scaled p (some mult)) e)
      ∙ (sym (ap (scaled (parse_int number)) u) ∙ k)) in
    (n, mult, e, u, exact, positive, small)
