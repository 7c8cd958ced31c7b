-- ===== src/Dyld.antt =====
-- internal/runtime/dyld: the numbers of WebAssembly binaries, written by wasm.go and read by
-- loader.go. The bits of a byte stand above all bits read before, so `|` is a sum. A reader is the list
-- of the bytes that are left, and an int64 its bit pattern.
pub mod RoundTrip
pub mod Signed
pub mod Names
pub mod Reader
pub mod Encoder
pub mod Info
pub mod Parser
pub mod Linking
pub mod Reserve
pub mod Registry
pub mod GotFunc
mod Tests
mod LoaderTests
mod RegistryTests
use particles.Base.{
  ◌-◌, ◌&&◌, ◌||◌, not, ℕ, zero, suc, ◌+◌, ◌*◌, ◌/◌, ◌%◌, List, [], ◌∷◌, leb, ltb, ◌==◌,
  if◌then◌else◌,
}

-- `out_of_fuel` is no error of the code: a loop of the model ran out of rounds.
pub data ReadError : Type 0 where
  end_of_input too_long not_wasm out_of_fuel : ReadError
  bad_type_tag bad_attribute unsupported_kind no_end : (index byte : ℕ) → ReadError

pub data Read {ℓ} (A : Type ℓ) : Type ℓ where
  ok : A → Read A
  err : ReadError → Read A

-- writeULEB128, with at most `fuel` bytes
unfoldable pub write_bytes : ℕ → ℕ → List ℕ
write_bytes zero v = []
write_bytes (suc fuel) v =
    let rest = write_bytes fuel (v / 128) in
    if v / 128 == 0 then (v % 128) ∷ [] else (v % 128 + 128) ∷ rest

-- Ten bytes hold 70 bits.
unfoldable pub write_uleb128 : ℕ → List ℕ
unfolding write_bytes
write_uleb128 v = write_bytes 10 v

-- readULEB128 after `n` bytes that gave `result`, where `weight` is 2 to the shift, 7 * n: the shift
-- passes 63 after the tenth byte.
unfoldable pub read_bytes : ℕ → ℕ → ℕ → List ℕ → Read (ℕ × List ℕ)
read_bytes n weight result [] = err end_of_input
read_bytes n weight result (b ∷ bytes) =
    let value = (result + (b % 128) * weight) % 18446744073709551616 in
    let rest = read_bytes (suc n) (weight * 128) value bytes in
    if ltb b 128 then ok (value, bytes) else if leb 64 (7 * suc n) then err too_long else rest

unfoldable pub read_uleb128 : List ℕ → Read (ℕ × List ℕ)
unfolding read_bytes
read_uleb128 bytes = read_bytes 0 1 0 bytes

-- v >> 7 on an int64
abbrev pub shift_right : ℕ → ℕ
shift_right v =
    if ltb v 9223372036854775808
    then v / 128
    else v / 128 + (18446744073709551616 - 144115188075855872)

-- writeSLEB128, with at most `fuel` bytes
unfoldable pub write_signed : ℕ → ℕ → List ℕ
write_signed zero v = []
write_signed (suc fuel) v =
    let sign = leb 64 (v % 128) in
    let next = shift_right v in
    let rest = write_signed fuel next in
    if next == 0 && not sign || next == 18446744073709551615 && sign
    then (v % 128) ∷ []
    else (v % 128 + 128) ∷ rest

unfoldable pub write_sleb128 : ℕ → List ℕ
unfolding write_signed
write_sleb128 v = write_signed 10 v

-- The sign of the last byte is copied into the bits above the shift.
abbrev pub sign_extended : ℕ → ℕ → ℕ → ℕ → ℕ
sign_extended n weight b value =
    if ltb (7 * suc n) 64 && leb 64 (b % 128)
    then value + (18446744073709551616 - weight * 128)
    else value

-- readSLEB128 after `n` bytes, as `read_bytes`
unfoldable pub read_signed : ℕ → ℕ → ℕ → List ℕ → Read (ℕ × List ℕ)
read_signed n weight result [] = err end_of_input
read_signed n weight result (b ∷ bytes) =
    let value = (result + (b % 128) * weight) % 18446744073709551616 in
    let rest = read_signed (suc n) (weight * 128) value bytes in
    if ltb b 128
    then ok (sign_extended n weight b value, bytes)
    else if leb 64 (7 * suc n)
    then err too_long
    else rest

unfoldable pub read_sleb128 : List ℕ → Read (ℕ × List ℕ)
unfolding read_signed
read_sleb128 bytes = read_signed 0 1 0 bytes
