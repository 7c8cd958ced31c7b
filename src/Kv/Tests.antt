-- ===== src/Kv/Tests.antt =====
-- Runs of the key/value store, and its theorems on them.
use mathlib.Core.List.{Mem}
use particles.Base.{◌<◌, String, ◌≡◌, refl, ◌↔◌, none, List, [], ◌∷◌, arith}
use particles.Base.Dict
use particles.Kv.{ok, err, quota_exceeded}
use particles.Kv.Memory.{Backend, new_backend, usage, bucket_of, get, set, delete, list}
use particles.Kv.Memory.Quota.{IsWithinQuota, Call, sets, deletes, run, run-IsWithinQuota}
use particles.Kv.Memory.Quota.{set_refused_iff}
use particles.Kv.Memory.Contract.{get-set_view, get-delete_view, IsListed, list-IsListed}
use particles.Base.Sort.{IsSorted}

-- A backend with 10 bytes for each particle.
abbrev small : Backend
small = record new_backend { quota_bytes = 10 }

abbrev filled : Backend
filled = (set (set small "a" "k1" "123").1 "b" "k2" "1").1

set_fits : (set small "a" "k1" "123").0 ≡ ok tt
unfolding set Dict.get Dict.set
set_fits = refl

set_over : (set filled "a" "k2" "12345").0 ≡ err quota_exceeded
unfolding set Dict.get Dict.set
set_over = refl

small-IsWithinQuota : IsWithinQuota small
unfolding bucket_of Dict.get
small-IsWithinQuota = record { within = λ p q. omega arith }

abbrev calls : List Call
calls = sets "a" "k1" "123" ∷ sets "a" "k2" "12345" ∷ deletes "b" "k2" ∷ []

run-IsWithinQuota_example : IsWithinQuota (run small calls)
run-IsWithinQuota_example = run-IsWithinQuota small calls small-IsWithinQuota

set_refused_iff_example :
    ((set filled "a" "k2" "12345").0 ≡ err quota_exceeded)
    ↔ ((0 < 10) × (10 < usage (Dict.set "k2" "12345" (bucket_of filled "a"))))
unfolding set Dict.get Dict.set
set_refused_iff_example = set_refused_iff filled "a" "k2" "12345"

get-set_view_example :
    get (set filled "a" "k1" "9").1 "b" "k2" ≡ (elim (set filled "a" "k1" "9").0 [
      | ok _ ↦ get filled "b" "k2"
      | err _ ↦ get filled "b" "k2"
    ])
get-set_view_example = get-set_view filled "a" "k1" "9" "b" "k2"

get-delete_view_example : get (delete filled "a" "k1") "a" "k1" ≡ none
get-delete_view_example = get-delete_view filled "a" "k1" "a" "k1"

list-IsListed_example :
    IsSorted (list filled "a" "k")
    × ((k : String) → Mem k (list filled "a" "k") ↔ IsListed "k" k (bucket_of filled "a"))
list-IsListed_example = list-IsListed filled "a" "k"
