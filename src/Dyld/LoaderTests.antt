-- ===== src/Dyld/LoaderTests.antt =====
-- The dynamic loader at concrete inputs.
use particles.Base.{
  ℕ, ◌+◌, ◌-◌, ◌^◌, ◌≡◌, ◌≢◌, ◌≤◌, refl, false, Option, none, some, List, [], ◌∷◌, ◌++◌, arith,
  ◌==◌, if◌then◌else◌,
}
use particles.Dyld.{
  ok, err, out_of_fuel, no_end, read_uleb128, write_uleb128, read_sleb128, write_sleb128,
}
use particles.Dyld.Names.{Name, ascii}
use particles.Dyld.Info.{SoInfo, FuncType, new_info, nth}
use particles.Dyld.Encoder.{Spec, encode, int64_of, intern_type}
use particles.Dyld.Encoder.Modules.{IsWritable}
use particles.Dyld.Encoder.Learned.{env_funcs, parse_so-encode_learns}
use particles.Dyld.Encoder.RoundTrip.{init_values}
use particles.Dyld.Parser.{parse_so, parse_global_section}
use particles.Dyld.Parser.Answers.{parse_so_answers}
use particles.Dyld.Signed.{read_sleb128-write_sleb128}
use particles.Dyld.Linking
use particles.Dyld.Linking.{build_env_module, func_import, i32_global}
use particles.Dyld.Linking.Env.{Serves, build_env_module-Serves}
use particles.Dyld.Reserve
use particles.Dyld.Reserve.{reserve_memory}
use particles.Dyld.Reserve.Bounds.{LiesIn, reserve_memory_lies}

-- A module that imports a function of type i32 → i32 and a table
abbrev type_i32 : FuncType
type_i32 = record { params = 0x7F ∷ []; results = 0x7F ∷ [] }

abbrev plumbing : Spec
plumbing = record {
  types = type_i32 ∷ [];
  imports = func_import (ascii "env") (ascii "puts") 0 ∷ [];
  tags = 0 ∷ [];
  globals = i32_global false 0xFFFFFFFE ∷ [];
  exports = [];
  elems = [];
}

plumbing-IsWritable : IsWritable plumbing
unfolding encode write_uleb128 write_sleb128
plumbing-IsWritable = record {
  whole = ground arith;
  type_count = ground arith;
  import_count = ground arith;
  global_count = ground arith;
  export_count = ground arith;
  all_types = ((ground arith, ground arith), tt);
  all_imports =
      ((ground arith, ground arith, ground arith, ground arith, ground arith, ground arith), tt);
  all_globals = ((refl, ground arith), tt);
  all_exports = tt;
}

parse_so-encode_learns_example :
    (info : SoInfo) × (parse_so (encode plumbing) ≡ ok info)
    × (info.types ≡ plumbing.types)
    × (info.own_global_init_consts ≡ init_values plumbing.globals)
    × (info.func_imports ≡ env_funcs plumbing.imports)
parse_so-encode_learns_example = parse_so-encode_learns plumbing plumbing-IsWritable

read_sleb128-write_sleb128_example :
    read_sleb128 (write_sleb128 (int64_of 0xFFFFFF80) ++ (9 ∷ []))
    ≡ ok (int64_of 0xFFFFFF80, 9 ∷ [])
read_sleb128-write_sleb128_example = read_sleb128-write_sleb128 0xFFFFFF80 (9 ∷ []) (ground arith)

-- -128 in two bytes
written : write_sleb128 (int64_of 0xFFFFFF80) ≡ 0x80 ∷ 0x7F ∷ []
unfolding write_sleb128
written = refl

-- A global section whose initial value does not end
abbrev unended : List ℕ
unended = 0 ∷ 97 ∷ 115 ∷ 109 ∷ 1 ∷ 0 ∷ 0 ∷ 0 ∷ 6 ∷ 6 ∷ 1 ∷ 0x7F ∷ 0 ∷ 0x41 ∷ 5 ∷ 7 ∷ []

unended_refused : parse_so unended ≡ err (no_end 0 7)
unfolding parse_so read_uleb128 parse_global_section read_sleb128
unended_refused = refl

parse_so_answers_example : parse_so unended ≢ err out_of_fuel
parse_so_answers_example = parse_so_answers unended

-- A library that imports two functions of one type and a tag
abbrev two_funcs : SoInfo
two_funcs = record new_info {
  types = record { params = []; results = [] } ∷ type_i32 ∷ [];
  func_imports =
      record { name = ascii "f"; type_idx = 1 } ∷ record { name = ascii "g"; type_idx = 1 } ∷ [];
  tag_imports = record { name = ascii "__cpp_exception"; type_idx = 1 } ∷ [];
}

abbrev their_sources : List Name
their_sources = ascii "main" ∷ ascii "libx.so" ∷ []

abbrev empty_spec : Spec
empty_spec = record { types = []; imports = []; tags = []; globals = []; exports = []; elems = [] }

spec_of : Linking.Built Spec → Spec
spec_of (Linking.ok s) = s
spec_of (Linking.err e) = empty_spec

build_env_module-Serves_example :
    Serves two_funcs their_sources (spec_of (build_env_module two_funcs their_sources 64 8))
unfolding build_env_module spec_of nth
build_env_module-Serves_example =
    build_env_module-Serves two_funcs their_sources 64 8
      (spec_of (build_env_module two_funcs their_sources 64 8)) (ground arith) refl

one_type : (spec_of (build_env_module two_funcs their_sources 64 8)).types ≡ type_i32 ∷ []
unfolding build_env_module spec_of nth intern_type
one_type = refl

-- 100 bytes at a multiple of 16
abbrev aligned : SoInfo
aligned = record new_info { memory_size = 100; memory_align_log2 = 4 }

abbrev at_1000 : ℕ → Option ℕ
at_1000 n = if n == 115 then some 1000 else none

reserve_memory_lies_example :
    let bytes = 100 + 2 ^ 4 - 1 in
    (raw : ℕ) × (at_1000 bytes ≡ some raw)
    × LiesIn 1008 100 (2 ^ 4) raw bytes
    × (1008 + 100 ≤ 65536)
unfolding reserve_memory Reserve.alloc_bytes Reserve.shift_one Reserve.round_up
reserve_memory_lies_example =
    reserve_memory_lies at_1000 65536 aligned 1008 (λ n raw e. ground (arith, e)) (ground arith)
      (ground arith) (ground arith) refl
