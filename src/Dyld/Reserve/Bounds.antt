-- ===== src/Dyld/Reserve/Bounds.antt =====
-- The reservations of internal/runtime/dyld/loader.go: where they lie.
use particles.Base.{
  ℕ, ◌+◌, ◌-◌, ◌%◌, ◌^◌, ◌*◌, ◌/◌, ◌<◌, ◌≤◌, ◌≡◌, refl, ap, subst, sym, ◌∙◌, Bool, true, false,
  Option, none, some, leb, ◌==◌, if◌then◌else◌, arith, leb→le,
}
use native.Mathlib.Nat.{div-add-mod, mul-mod_right, mod-lt, mod-le, one-le-pow}
use particles.Dyld.Info.{SoInfo}
use particles.Dyld.Reserve.{
  shift_one, alloc_bytes, round_up, Reserved, ok, err, malloc_null, out_of_bounds, zeroed,
  allocated, reserve_memory,
}

rounded : (x align : ℕ) → (x - x % align) % align ≡ 0
rounded x align =
    let parts = div-add-mod x align in
    let multiple : x - x % align ≡ align * (x / align) = omega (arith, parts) in
    ap (λ (y : ℕ). y % align) multiple ∙ mul-mod_right align (x / align)

round_up_lem :
    (raw align : ℕ)
    → 1 ≤ align
    → raw + align ≤ 4294967296
    → (raw ≤ round_up raw align)
      × (round_up raw align < raw + align)
      × (round_up raw align % align ≡ 0)
unfolding round_up
round_up_lem raw align pos fits =
    let x : ℕ = (raw + align + 4294967295) % 4294967296 in
    let is : x ≡ raw + align - 1 = omega (arith, pos, fits) in
    let rest = mod-lt x {m = align} pos in
    let low = mod-le x align in
    let zero_rest = rounded x align in ground (arith, is, rest, low, zero_rest, pos)

-- The end of a block, a valid pointer in C, is a 32-bit number.
abbrev pub GivesBlocks : (ℕ → Option ℕ) → Type 0
GivesBlocks malloc = (n raw : ℕ) → malloc n ≡ some raw → raw + n < 4294967296

abbrev pub LiesIn : ℕ → ℕ → ℕ → ℕ → ℕ → Type 0
LiesIn base size align raw bytes = (raw ≤ base) × (base + size ≤ raw + bytes) × (base % align ≡ 0)

value_or : ℕ → Reserved ℕ → ℕ
value_or d (ok x) = x
value_or d (err e) = d

two_tests :
    {P : Type 0} (b c : Bool) (x base : ℕ)
    → (if b then err malloc_null else if c then ok x else err out_of_bounds) ≡ ok base
    → (c ≡ true → x ≡ base → P)
    → P
unfolding value_or
two_tests true c x base h k = cc
two_tests false true x base h k = k refl (ap (value_or 0) h)
two_tests false false x base h k = cc

zeroed_lies :
    {P : Type 0} (memory_len size align raw base : ℕ)
    → zeroed memory_len size align raw ≡ ok base
    → (round_up raw align ≡ base → base + size ≤ memory_len → P)
    → P
unfolding zeroed
zeroed_lies memory_len size align raw base h k =
    two_tests (raw == 0) (leb (round_up raw align + size) memory_len) (round_up raw align) base h
      λ e same. k same (
        subst (λ (x : ℕ). x + size ≤ memory_len) same
          (leb→le (round_up raw align + size) memory_len e))

allocated_lies :
    (memory_len size align bytes base : ℕ) (o : Option ℕ)
    → 1 ≤ align
    → bytes + 1 ≡ size + align
    → ((raw : ℕ) → o ≡ some raw → raw + bytes < 4294967296)
    → allocated memory_len size align o ≡ ok base
    → (raw : ℕ) × (o ≡ some raw) × LiesIn base size align raw bytes × (base + size ≤ memory_len)
unfolding allocated
allocated_lies memory_len size align bytes base none pos count blocks h = cc
allocated_lies memory_len size align bytes base (some raw) pos count blocks h =
    let fits = blocks raw refl in
    let (low, high, zero_rest) = round_up_lem raw align pos (omega (arith, fits, count)) in
    zeroed_lies memory_len size align raw base h λ e inside. (
      raw,
      refl,
      (
        subst (λ (b : ℕ). raw ≤ b) e low,
        subst (λ (b : ℕ). b + size ≤ raw + bytes) e (omega (arith, high, count)),
        subst (λ (b : ℕ). b % align ≡ 0) e zero_rest,
      ),
      inside,
    )

shift_one_lem : (n : ℕ) → n < 32 → shift_one n ≡ 2 ^ n
unfolding shift_one
shift_one_lem n h = ground (arith, h)

nonzero :
    (memory_len size : ℕ) (malloc : ℕ → Option ℕ) (align align' bytes bytes' base : ℕ)
    → align' ≡ align
    → bytes' ≡ bytes
    → 1 ≤ bytes
    → (if bytes' == 0 then ok 0 else allocated memory_len size align' (malloc bytes')) ≡ ok base
    → allocated memory_len size align (malloc bytes) ≡ ok base
nonzero memory_len size malloc align align' bytes bytes' base a b some_bytes h =
    let test : (bytes' ≡ 0 → ⊥) = λ e. omega (arith, e, b, some_bytes) in
    ap (λ (x : ℕ). allocated memory_len size x (malloc bytes)) (sym a)
    ∙ (ap (λ (x : ℕ). allocated memory_len size align' (malloc x)) (sym b)
        ∙ ground (arith, h, test))

-- Where load reserves memory for a library, whose alignment is a power of two below 2 ^ 32 and which
-- needs less than 2 ^ 32 bytes with it, the memory lies in the block that malloc gave and in the main
-- memory, holds all the bytes that the library asks for, and starts at a multiple of its alignment.
pub reserve_memory_lies :
    (malloc : ℕ → Option ℕ) (memory_len : ℕ) (info : SoInfo) (base : ℕ)
    → GivesBlocks malloc
    → info.memory_align_log2 < 32
    → 1 < info.memory_size + 2 ^ info.memory_align_log2
    → info.memory_size + 2 ^ info.memory_align_log2 ≤ 4294967296
    → reserve_memory malloc memory_len info ≡ ok base
    → let align = 2 ^ info.memory_align_log2 in
      let bytes = info.memory_size + align - 1 in
      (raw : ℕ) × (malloc bytes ≡ some raw)
      × LiesIn base info.memory_size align raw bytes
      × (base + info.memory_size ≤ memory_len)
unfolding reserve_memory alloc_bytes
reserve_memory_lies malloc memory_len info base blocks small some_bytes fits h =
    let align : ℕ = 2 ^ info.memory_align_log2 in
    let pos : 1 ≤ align = one-le-pow info.memory_align_log2 2 (omega arith) in
    let bytes : ℕ = info.memory_size + align - 1 in
    let align_is = shift_one_lem info.memory_align_log2 small in
    let bytes_is : (info.memory_size + align + 4294967295) % 4294967296 ≡ bytes =
      omega (arith, pos, fits) in
    let not_zero : 1 ≤ bytes = omega (arith, some_bytes) in
    let start : allocated memory_len info.memory_size align (malloc bytes) ≡ ok base =
      nonzero memory_len info.memory_size malloc align _ bytes _ base align_is
        (ap (λ (a : ℕ). (info.memory_size + a + 4294967295) % 4294967296) align_is ∙ bytes_is)
        not_zero h in
    allocated_lies memory_len info.memory_size align bytes base (malloc bytes) pos
      (omega (arith, some_bytes)) (λ raw e. blocks bytes raw e) start
