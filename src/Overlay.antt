-- ===== src/Overlay.antt =====
-- runtime/mergedfs.go: file systems mounted under one root. Paths are lists of bytes that are clean;
-- the file systems are a parameter. The map of mounts is a list in the order that the loop meets.
pub mod Listing
pub mod Routing
pub mod Synthetic
mod Tests
use particles.Base.{
  ℕ, zero, suc, ◌+◌, ◌-◌, Bool, true, false, not, ◌&&◌, ◌||◌, Option, none, some, List, [], ◌∷◌,
  ◌++◌, length, leb, ltb, ◌==◌, if◌then◌else◌,
}
use particles.Base.Bytes.{name_eq, has_prefix, trimmed}

abbrev pub FsPath : Type 0
FsPath = List ℕ

-- name == prefix || strings.HasPrefix(name, prefix+"/")
unfoldable pub lies_in : FsPath → FsPath → Bool
unfolding name_eq has_prefix
lies_in name mount = name_eq name mount || has_prefix name (mount ++ (47 ∷ []))

abbrev pub dot : FsPath
dot = 46 ∷ []

unfoldable pub or_dot : FsPath → FsPath
or_dot [] = dot
or_dot (b ∷ x) = b ∷ x

-- The path in the mount
unfoldable pub sub_path : FsPath → FsPath → FsPath
unfolding trimmed or_dot
sub_path name mount = or_dot (trimmed (trimmed name mount) (47 ∷ []))

unfoldable pub is_below : FsPath → FsPath → Bool
unfolding name_eq has_prefix
is_below name mount = name_eq name dot || has_prefix mount (name ++ (47 ∷ []))

unfoldable pub is_empty : FsPath → Bool
is_empty [] = true
is_empty (b ∷ p) = false

-- strings.Cut(rest, "/")
unfoldable pub first_segment : FsPath → FsPath
first_segment [] = []
first_segment (b ∷ x) = let rest = b ∷ first_segment x in if b == 47 then [] else rest

unfoldable pub is_seen : FsPath → List FsPath → Bool
unfolding name_eq
is_seen x [] = false
is_seen x (y ∷ seen) = name_eq x y || is_seen x seen

-- What is left of a mount's path below `name`, where it is below it
unfoldable pub below : FsPath → FsPath → Option FsPath
unfolding trimmed name_eq
below name mount =
    if name_eq name dot
    then some mount
    else if has_prefix mount (name ++ (47 ∷ []))
    then some (trimmed mount (name ++ (47 ∷ [])))
    else none

unfoldable pub add_child : Option FsPath → List FsPath → List FsPath
unfolding first_segment is_seen is_empty
add_child none out = out
add_child (some rest) out =
    let first = first_segment rest in
    if not (is_empty first) && not (is_seen first out) then out ++ (first ∷ []) else out

abbrev pub Mounts {ℓ} : Type ℓ → Type ℓ
Mounts A = List (FsPath × A)

module _ {ℓ} {A : Type ℓ} where
  unfoldable pub longer : Option (FsPath × A) → FsPath × A → Option (FsPath × A)
  longer none m = some m
  longer (some best) m = if ltb (length best.0) (length m.0) then some m else some best

  -- One round of the loop of routeToMount
  unfoldable pub better : FsPath → FsPath × A → Option (FsPath × A) → Option (FsPath × A)
  unfolding longer lies_in
  better name ([], sub) none = some ([], sub)
  better name ([], sub) (some best) = some best
  better name (b ∷ p, sub) best = if lies_in name (b ∷ p) then longer best (b ∷ p, sub) else best

  unfoldable pub best_mount : FsPath → Mounts A → Option (FsPath × A) → Option (FsPath × A)
  unfolding better
  best_mount name [] best = best
  best_mount name (m ∷ mounts) best = best_mount name mounts (better name m best)

  -- routeToMount
  unfoldable pub route_to_mount : FsPath → Mounts A → Option (A × FsPath)
  unfolding best_mount sub_path
  route_to_mount name mounts = elim (best_mount name mounts none) [
    | none ↦ none
    | some m ↦ some (m.1, sub_path name m.0)
  ]

  -- hasMountUnder
  unfoldable pub has_mount_under : FsPath → Mounts A → Bool
  unfolding is_below is_empty
  has_mount_under name [] = false
  has_mount_under name ((mount, sub) ∷ mounts) =
      let others = has_mount_under name mounts in
      if is_empty mount then others else if is_below name mount then true else others

  -- The loop of directChildren
  unfoldable pub children_from : FsPath → Mounts A → List FsPath → List FsPath
  unfolding below add_child is_empty
  children_from name [] out = out
  children_from name ((mount, sub) ∷ mounts) out =
      children_from name mounts (if is_empty mount then out else add_child (below name mount) out)

  unfoldable pub direct_children : FsPath → Mounts A → List FsPath
  unfolding children_from
  direct_children name mounts = children_from name mounts []

pub data Answer {ℓ} (A : Type ℓ) : Type ℓ where
  invalid not_exist : Answer A
  delegated : A → FsPath → Answer A
  synthetic_dir : (name : FsPath) → (children : List FsPath) → Answer A
  synthetic_info : FsPath → Answer A

-- `valid`, `clean` and `base` are fs.ValidPath, path.Clean and path.Base.
module _ {ℓ} {A : Type ℓ} (valid : FsPath → Bool) (clean base : FsPath → FsPath) where
  unfoldable pub routed : Option (A × FsPath) → Answer A → Answer A
  routed (some (sub, path)) above = delegated sub path
  routed none above = above

  unfoldable pub listed : FsPath → List FsPath → Answer A
  listed name [] = not_exist
  listed name (c ∷ children) = synthetic_dir name (c ∷ children)

  -- Open, and ReadDir, which delegate to the same operation of the mount
  unfoldable pub open_path : FsPath → Mounts A → Answer A
  unfolding routed listed route_to_mount direct_children
  open_path name mounts =
      if valid name
      then routed (route_to_mount (clean name) mounts)
          (listed (base (clean name)) (direct_children (clean name) mounts))
      else invalid

  -- Stat
  unfoldable pub stat_path : FsPath → Mounts A → Answer A
  unfolding routed route_to_mount has_mount_under
  stat_path name mounts =
      if valid name
      then routed (route_to_mount (clean name) mounts) (
          if has_mount_under (clean name) mounts
          then synthetic_info (base (clean name))
          else not_exist)
      else invalid

  -- ReadFile
  unfoldable pub read_file : FsPath → Mounts A → Answer A
  unfolding routed route_to_mount has_mount_under
  read_file name mounts =
      if valid name
      then routed (route_to_mount (clean name) mounts)
          (if has_mount_under (clean name) mounts then invalid else not_exist)
      else invalid
