-- ===== src/Overlay/Synthetic.antt =====
-- The directories above the mounts of runtime/mergedfs.go.
use particles.Base.{
  ◌≡◌, refl, Bool, true, false, not, Option, none, some, List, [], ◌∷◌, ◌++◌, All, ◌==◌,
  if◌then◌else◌, arith, Bool-cases, ◌⊎◌, inl, inr,
}
use particles.Base.Bytes.{name_eq, has_prefix, trim_prefix, trimmed}
use particles.Overlay.{
  FsPath, Mounts, Answer, invalid, not_exist, delegated, synthetic_dir, synthetic_info, dot,
  is_below, is_empty, has_mount_under, first_segment, is_seen, below, add_child, children_from,
  direct_children, route_to_mount, routed, listed, open_path, stat_path,
}

-- No segment of the path is empty: `start` says that a segment begins here.
abbrev pub has_segments : Bool → FsPath → Bool
has_segments start [] = not start
has_segments start (b ∷ x) =
    if b == 47 then (if start then false else has_segments true x) else has_segments false x

-- What stands behind a slash of such a path is such a path.
behind_slash :
    (start : Bool) (name x : FsPath)
    → has_segments start x ≡ true
    → has_prefix x (name ++ (47 ∷ [])) ≡ true
    → has_segments true (trim_prefix x (name ++ (47 ∷ []))) ≡ true
unfolding has_prefix trim_prefix
behind_slash start [] [] h k = cc
behind_slash start (a ∷ name) [] h k = cc
behind_slash start [] (b ∷ x) h k = ground (arith, h, k)
behind_slash start (a ∷ name) (b ∷ x) h k =
    ground (arith, h, k, behind_slash true name x, behind_slash false name x)

first_segment_lem : (x : FsPath) → has_segments true x ≡ true → is_empty (first_segment x) ≡ false
unfolding first_segment is_empty
first_segment_lem [] h = cc
first_segment_lem (b ∷ x) h = ground (arith, h)

abbrev pub is_nil {ℓ} : {A : Type ℓ} → List A → Bool
is_nil [] = true
is_nil (x ∷ xs) = false

is_nil-append : (xs : List FsPath) (x : FsPath) → is_nil (xs ++ (x ∷ [])) ≡ false
is_nil-append [] x = refl
is_nil-append (y ∷ xs) x = refl

not_seen_in_nil : (x : FsPath) (out : List FsPath) → is_seen x out ≡ true → is_nil out ≡ false
unfolding is_seen
not_seen_in_nil x [] h = cc
not_seen_in_nil x (y ∷ out) h = refl

-- A mount below gives a child, or its child is there already.
is_nil-add_child :
    (rest : FsPath) (out : List FsPath)
    → has_segments true rest ≡ true
    → is_nil (add_child (some rest) out) ≡ false
unfolding add_child
is_nil-add_child rest out h = ground (
  arith,
  first_segment_lem rest h,
  is_nil-append out (first_segment rest),
  not_seen_in_nil (first_segment rest) out,
)

kept_child :
    (o : Option FsPath) (out : List FsPath) → is_nil out ≡ false → is_nil (add_child o out) ≡ false
unfolding add_child
kept_child none out h = h
kept_child (some rest) out h = ground (arith, h, is_nil-append out (first_segment rest))

-- A mount is below where the path of Stat and that of ReadDir say so.
below-is_below :
    (name mount : FsPath)
    → has_segments true mount ≡ true
    → is_below name mount ≡ true
    → (rest : FsPath) × (below name mount ≡ some rest) × (has_segments true rest ≡ true)
unfolding below is_below trimmed
below-is_below name mount h k = elim (Bool-cases (name_eq name dot)) [
  | inl e ↦ (mount, ground (arith, e), h)
  | inr e ↦
      let under : has_prefix mount (name ++ (47 ∷ [])) ≡ true = ground (arith, e, k) in
      (
        trim_prefix mount (name ++ (47 ∷ [])),
        ground (arith, e, under),
        behind_slash true name mount h under,
      )
]

below-none : (name mount : FsPath) → is_below name mount ≡ false → below name mount ≡ none
unfolding below is_below
below-none name mount h = ground (arith, h)

module _ {A : Type 0} where
  abbrev pub IsSegmented : FsPath × A → Type 0
  IsSegmented m = (is_empty m.0 ≡ true) ⊎ (has_segments true m.0 ≡ true)

  kept_children :
      (name : FsPath) (mounts : Mounts A) (out : List FsPath)
      → is_nil out ≡ false
      → is_nil (children_from name mounts out) ≡ false
  unfolding children_from
  kept_children name [] out h = h
  kept_children name ((mount, sub) ∷ mounts) out h =
      kept_children name mounts (if is_empty mount then out else add_child (below name mount) out)
        (ground (arith, h, kept_child (below name mount) out h))

  -- One mount that is below gives a child that stays.
  child_of_mount :
      (name mount : FsPath) (mounts : Mounts A) (out : List FsPath)
      → is_empty mount ≡ false
      → has_segments true mount ≡ true
      → is_below name mount ≡ true
      → is_nil (
          children_from name mounts
            (if is_empty mount then out else add_child (below name mount) out))
        ≡ false
  child_of_mount name mount mounts out e h k =
      let (rest, b, s) = below-is_below name mount h k in
      kept_children name mounts _ (ground (arith, e, b, is_nil-add_child rest out s))

  children_from_lem :
      (name : FsPath) (mounts : Mounts A)
      → All IsSegmented mounts
      → has_mount_under name mounts ≡ not (is_nil (children_from name mounts []))
  unfolding has_mount_under children_from
  children_from_lem name [] h = refl
  children_from_lem name ((mount, sub) ∷ mounts) (inl e, hs) =
      ground (arith, e, children_from_lem name mounts hs)
  children_from_lem name ((mount, sub) ∷ mounts) (inr s, hs) = elim (Bool-cases (is_empty mount)) [
    | inl e ↦ ground (arith, e, children_from_lem name mounts hs)
    | inr e ↦ elim (Bool-cases (is_below name mount)) [
      | inl k ↦ ground (arith, e, k, child_of_mount name mount mounts [] e s k)
      | inr k ↦ ground (arith, e, k, below-none name mount k, children_from_lem name mounts hs)
    ]
  ]

  -- Where no path of a mount has an empty segment, a path that is above a mount for Stat and ReadFile
  -- is a directory with a child for Open and ReadDir, and no other path is.
  pub has_mount_under-direct_children :
      (name : FsPath) (mounts : Mounts A)
      → All IsSegmented mounts
      → has_mount_under name mounts ≡ not (is_nil (direct_children name mounts))
  unfolding direct_children
  has_mount_under-direct_children name mounts h = children_from_lem name mounts h

  abbrev pub is_not_exist : Answer A → Bool
  is_not_exist not_exist = true
  is_not_exist invalid = false
  is_not_exist (delegated sub path) = false
  is_not_exist (synthetic_dir name children) = false
  is_not_exist (synthetic_info name) = false

  -- Open and Stat after the route is known
  routed_agree :
      (valid : FsPath → Bool) (clean base : FsPath → FsPath) (name : FsPath)
      (children : List FsPath) (u : Bool) (o : Option (A × FsPath))
      → u ≡ not (is_nil children)
      → is_not_exist (routed valid clean base o (listed valid clean base name children))
        ≡ is_not_exist (routed valid clean base o (if u then synthetic_info name else not_exist))
  unfolding routed listed
  routed_agree valid clean base name [] u none e = ground (arith, e)
  routed_agree valid clean base name (c ∷ children) u none e = ground (arith, e)
  routed_agree valid clean base name children u (some (sub, path)) e = refl

  -- Under the same condition, Open answers that a path does not exist exactly where Stat does.
  pub open_path-stat_path :
      (valid : FsPath → Bool) (clean base : FsPath → FsPath) (name : FsPath) (mounts : Mounts A)
      → All IsSegmented mounts
      → is_not_exist (open_path valid clean base name mounts)
        ≡ is_not_exist (stat_path valid clean base name mounts)
  unfolding open_path stat_path
  open_path-stat_path valid clean base name mounts h = elim (Bool-cases (valid name)) [
    | inr e ↦ rw e refl
    | inl e ↦ rw e (
        routed_agree valid clean base (base (clean name)) (direct_children (clean name) mounts)
          (has_mount_under (clean name) mounts) (route_to_mount (clean name) mounts)
          (has_mount_under-direct_children (clean name) mounts h))
  ]
