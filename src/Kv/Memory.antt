-- ===== src/Kv/Memory.antt =====
-- kv/memory/memory.go: the in-memory backend that all particles share, and its per-particle views.
-- Byte counts are exact numbers: an `int` of 64 bits holds the size of any text in memory.
pub mod Quota
pub mod Contract
use text.Mathlib.Text.{starts_with}
use particles.Base.{
  ℕ, ◌+◌, ◌-◌, String, len, Bool, true, false, Option, none, some, List, [], ◌∷◌, ltb, sum_of,
  if◌then◌else◌, sort_strings,
}
use particles.Base.Dict
use particles.Base.Dict.{Dict}
use particles.Kv.{Result, Store, ok, err, quota_exceeded}

-- A quota of 0 is no quota.
pub record Backend : Type 0 where
  pub entries : Dict (Dict String)
  pub quota_bytes : ℕ

-- New
abbrev pub new_backend : Backend
new_backend = record { entries = []; quota_bytes = 0 }

abbrev pub entry_bytes : String × String → ℕ
entry_bytes (k, v) = len k + len v

-- usageLocked
abbrev pub usage : Dict String → ℕ
usage bucket = sum_of entry_bytes bucket

-- `bucket, ok := b.entries[particle]`, with an empty map for a missing bucket
abbrev pub bucket_or_new : Option (Dict String) → Dict String
bucket_or_new none = []
bucket_or_new (some bucket) = bucket

unfoldable pub bucket_of : Backend → String → Dict String
bucket_of b particle = bucket_or_new (Dict.get particle b.entries)

-- The bytes that the entry to be replaced takes.
abbrev pub prior_bytes : String → Option String → ℕ
prior_bytes key none = 0
prior_bytes key (some existing) = len key + len existing

unfoldable pub get : Backend → String → String → Option String
unfolding bucket_of
get b particle key = Dict.get key (bucket_of b particle)

pub over_quota : ℕ → Dict String → String → String → Bool
over_quota quota bucket key value =
    let prev = prior_bytes key (Dict.get key bucket) in
    let total = usage bucket - prev + len key + len value in
    if ltb 0 quota then ltb quota total else false

-- The bucket of a new particle is put in place before the quota is checked.
unfoldable pub set : Backend → String → String → String → Result (Unit {0}) × Backend
unfolding over_quota bucket_of
set b particle key value =
    let bucket = bucket_of b particle in
    let opened = Dict.set particle bucket b.entries in
    if over_quota b.quota_bytes bucket key value
    then (err quota_exceeded, record b { entries = opened })
    else (ok tt, record b { entries = Dict.set particle (Dict.set key value bucket) opened })

-- An emptied bucket is removed.
drop_empty : String → Dict String → Dict (Dict String) → Dict (Dict String)
drop_empty particle [] entries = Dict.delete particle entries
drop_empty particle (e ∷ bucket) entries = Dict.set particle (e ∷ bucket) entries

delete_from : Backend → String → String → Option (Dict String) → Backend
unfolding drop_empty
delete_from b particle key none = b
delete_from b particle key (some bucket) = record b {
  entries = drop_empty particle (Dict.delete key bucket) b.entries;
}

unfoldable pub delete : Backend → String → String → Backend
unfolding delete_from
delete b particle key = delete_from b particle key (Dict.get particle b.entries)

-- The keys of a bucket that begin with `prefix`.
pub matching : String → Dict String → List String
matching prefix [] = []
matching prefix ((k, v) ∷ bucket) =
    let rest = matching prefix bucket in if starts_with k prefix then k ∷ rest else rest

unfoldable pub list : Backend → String → String → List String
unfolding matching bucket_of
list b particle prefix = sort_strings (matching prefix (bucket_of b particle))

-- Scoped: the view of one particle.
unfoldable pub scoped : String → Store Backend
scoped particle = record {
  get = λ b key. ok (get b particle key);
  set = λ b key value. set b particle key value;
  delete = λ b key. (ok tt, delete b particle key);
  list = λ b prefix. ok (list b particle prefix);
}
