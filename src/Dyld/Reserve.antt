-- ===== src/Dyld/Reserve.antt =====
-- internal/runtime/dyld/loader.go: the memory and the table slots that load reserves for a library
-- (load, first half). `malloc` is the allocator of the main module, which answers 0 where it has no room.
pub mod Bounds
use particles.Base.{
  ℕ, ◌+◌, ◌-◌, ◌%◌, ◌^◌, Bool, true, false, Option, none, some, leb, ltb, ◌==◌, if◌then◌else◌,
  length,
}
use particles.Dyld.Info.{SoInfo}

-- uint32(1) << n
unfoldable pub shift_one : ℕ → ℕ
shift_one n = if ltb n 32 then 2 ^ n else 0

-- allocBytes, an uint32
unfoldable pub alloc_bytes : ℕ → ℕ → ℕ
alloc_bytes memory_size align = (memory_size + align + 4294967295) % 4294967296

-- (raw + align - 1) &^ (align - 1), for a power of two or 0
unfoldable pub round_up : ℕ → ℕ → ℕ
round_up raw align =
    let x = (raw + align + 4294967295) % 4294967296 in if align == 0 then 0 else x - x % align

pub data ReserveError : Type 0 where
  malloc_failed malloc_null out_of_bounds table_align table_failed : ReserveError

pub data Reserved {ℓ} (A : Type ℓ) : Type ℓ where
  ok : A → Reserved A
  err : ReserveError → Reserved A

-- What is done with the pointer: the region is zeroed, which fails where it passes the end of memory.
unfoldable pub zeroed : ℕ → ℕ → ℕ → ℕ → Reserved ℕ
zeroed memory_len memory_size align raw =
    let base = round_up raw align in
    if raw == 0
    then err malloc_null
    else if leb (base + memory_size) memory_len
    then ok base
    else err out_of_bounds

unfoldable pub allocated : ℕ → ℕ → ℕ → Option ℕ → Reserved ℕ
unfolding zeroed
allocated memory_len memory_size align none = err malloc_failed
allocated memory_len memory_size align (some raw) = zeroed memory_len memory_size align raw

-- The base of the memory of the library, 0 where it needs none
unfoldable pub reserve_memory : (ℕ → Option ℕ) → ℕ → SoInfo → Reserved ℕ
unfolding allocated
reserve_memory malloc memory_len info =
    let align = shift_one info.memory_align_log2 in
    let bytes = alloc_bytes info.memory_size align in
    if bytes == 0 then ok 0 else allocated memory_len info.memory_size align (malloc bytes)

pub record Slots : Type 0 where
  pub got_func_base : ℕ
  pub table_base : ℕ
  pub shim_base : ℕ

unfoldable pub grown : ℕ → ℕ → Option ℕ → Reserved Slots
grown got_count table_size none = err table_failed
grown got_count table_size (some old) =
    if leb 2147483648 old
    then err table_failed
    else ok (record {
      got_func_base = old;
      table_base = (old + got_count) % 4294967296;
      shim_base = (old + got_count + table_size) % 4294967296;
    })

-- The slots of the table: for GOT.func, for the library's own elements and for its exports. `grow` is
-- the main module's __grow_table, which answers the old size.
unfoldable pub reserve_table : (ℕ → Option ℕ) → SoInfo → Reserved Slots
unfolding grown
reserve_table grow info =
    let total =
      (length info.got_func_imports + info.table_size + length info.exports) % 4294967296 in
    if ltb 0 info.table_align_log2
    then err table_align
    else grown (length info.got_func_imports) info.table_size (grow total)
