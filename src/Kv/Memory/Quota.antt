-- ===== src/Kv/Memory/Quota.antt =====
-- The quota of the backend of kv/memory/memory.go.
use particles.Base.{
  refl, none, ◌↔◌, some, Option, ◌+◌, ◌≤◌, ◌<◌, String, len, ◌≡◌, [], ◌∷◌, arith, eq_iff, List,
}
use particles.Base.Dict
use particles.Base.Dict.{Dict, get-set, get-delete}
use particles.Kv.Memory.{
  delete, Backend, usage, bucket_of, prior_bytes, set, drop_empty, delete_from, err, quota_exceeded,
}

-- Replacing an entry changes the usage by the difference of the two.
usage-set :
    (k v : String) (m : Dict String)
    → usage (Dict.set k v m) + prior_bytes k (Dict.get k m) ≡ usage m + (len k + len v)
unfolding Dict.set Dict.get
usage-set k v [] = omega arith
usage-set k v ((j, w) ∷ m) = ground (arith, usage-set k v m, eq_iff j k)

prior_bytes-le-usage : (k : String) (m : Dict String) → prior_bytes k (Dict.get k m) ≤ usage m
unfolding Dict.get
prior_bytes-le-usage k [] = omega arith
prior_bytes-le-usage k ((j, w) ∷ m) = ground (arith, prior_bytes-le-usage k m, eq_iff j k)

usage-delete : (k : String) (m : Dict String) → usage (Dict.delete k m) ≤ usage m
unfolding Dict.delete
usage-delete k [] = omega arith
usage-delete k ((j, w) ∷ m) = ground (arith, usage-delete k m)

-- Where there is a quota, every particle's usage is within it.
pub record IsWithinQuota (b : Backend) : Type 0 where
  pub within : (p : String) → 0 < b.quota_bytes → usage (bucket_of b p) ≤ b.quota_bytes

pub set-IsWithinQuota :
    (b : Backend) (particle key value : String)
    → IsWithinQuota b
    → IsWithinQuota (set b particle key value).1
unfolding set
set-IsWithinQuota b particle key value h = record {
  within = λ p q. ground (
    arith,
    h.within p,
    h.within particle,
    eq_iff particle p,
    usage-set key value (bucket_of b particle),
    prior_bytes-le-usage key (bucket_of b particle),
    get-set particle p (bucket_of b particle) b.entries,
    get-set particle p (Dict.set key value (bucket_of b particle))
        (Dict.set particle (bucket_of b particle) b.entries),
  );
}

drop_empty-usage :
    (b : Backend) (particle p : String) (bucket rest : Dict String)
    → Dict.get particle b.entries ≡ some bucket
    → usage rest ≤ usage bucket
    → IsWithinQuota b
    → 0 < b.quota_bytes
    → usage (bucket_of (record b { entries = drop_empty particle rest b.entries }) p)
      ≤ b.quota_bytes
unfolding drop_empty bucket_of
drop_empty-usage b particle p bucket [] e le h q =
    ground (arith, h.within p, get-delete particle p b.entries)
drop_empty-usage b particle p bucket (x ∷ rest) e le h q = ground (
  arith,
  h.within p,
  h.within particle,
  eq_iff particle p,
  get-set particle p (x ∷ rest) b.entries,
)

delete_from-IsWithinQuota :
    (b : Backend) (particle key : String) (o : Option (Dict String))
    → Dict.get particle b.entries ≡ o
    → IsWithinQuota b
    → IsWithinQuota (delete_from b particle key o)
unfolding delete_from
delete_from-IsWithinQuota b particle key none e h = h
delete_from-IsWithinQuota b particle key (some bucket) e h = record {
  within = λ p q. drop_empty-usage b particle p bucket _ e (usage-delete key bucket) h q;
}

pub delete-IsWithinQuota :
    (b : Backend) (particle key : String) → IsWithinQuota b → IsWithinQuota (delete b particle key)
unfolding delete
delete-IsWithinQuota b particle key h =
    delete_from-IsWithinQuota b particle key (Dict.get particle b.entries) refl h

-- A write or a removal by some particle.
pub data Call : Type 0 where
  sets : (particle key value : String) → Call
  deletes : (particle key : String) → Call

unfoldable pub run : Backend → List Call → Backend
run b [] = b
run b (sets particle key value ∷ cs) = run (set b particle key value).1 cs
run b (deletes particle key ∷ cs) = run (delete b particle key) cs

-- Whatever the particles write and remove, none of them passes the quota.
pub run-IsWithinQuota : (b : Backend) (cs : List Call) → IsWithinQuota b → IsWithinQuota (run b cs)
unfolding run
run-IsWithinQuota b [] h = h
run-IsWithinQuota b (sets particle key value ∷ cs) h =
    run-IsWithinQuota (set b particle key value).1 cs (set-IsWithinQuota b particle key value h)
run-IsWithinQuota b (deletes particle key ∷ cs) h =
    run-IsWithinQuota (delete b particle key) cs (delete-IsWithinQuota b particle key h)

-- A write is refused exactly when there is a quota and the bucket with the new entry passes it.
pub set_refused_iff :
    (b : Backend) (particle key value : String)
    → ((set b particle key value).0 ≡ err quota_exceeded)
      ↔ ((0 < b.quota_bytes) × (b.quota_bytes < usage (Dict.set key value (bucket_of b particle))))
unfolding set
set_refused_iff b particle key value = (
  λ h. ground (
    arith,
    usage-set key value (bucket_of b particle),
    prior_bytes-le-usage key (bucket_of b particle),
  ),
  λ h. ground (
    arith,
    usage-set key value (bucket_of b particle),
    prior_bytes-le-usage key (bucket_of b particle),
  ),
)
