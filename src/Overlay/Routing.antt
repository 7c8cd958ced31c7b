-- ===== src/Overlay/Routing.antt =====
-- The mount that runtime/mergedfs.go routes a path to (routeToMount).
use particles.Base.{
  ◌≤◌, ◌≡◌, refl, sym, subst, ◌∙◌, ◌⊎◌, inl, inr, Bool, true, false, Option, none, some, List, [],
  ◌∷◌, length, All, All-map, Any, ltb, if◌then◌else◌, arith, Bool-cases, ltb→lt,
}
use particles.Overlay.{FsPath, Mounts, lies_in, longer, better, best_mount}

-- The empty mount has every path.
abbrev pub covers : FsPath → FsPath → Bool
covers name [] = true
covers name (b ∷ p) = lies_in name (b ∷ p)

refuted : {P : Type 0} {b : Bool} → b ≡ true → b ≡ false → P
refuted t f = absurd (ground (arith, t, f))

module _ {A : Type 0} where
  -- A mount that covers the path is no longer than the best one.
  abbrev pub IsNoBetter : FsPath → Option (FsPath × A) → FsPath × A → Type 0
  IsNoBetter name none m = covers name m.0 ≡ false
  IsNoBetter name (some best) m = covers name m.0 ≡ true → length m.0 ≤ length best.0

  -- The best mount covers the path.
  abbrev pub Covered : FsPath → Option (FsPath × A) → Type 0
  Covered name none = Unit
  Covered name (some best) = covers name best.0 ≡ true

  better_lem :
      (name : FsPath) (m : FsPath × A) (best : Option (FsPath × A))
      → better name m best ≡ (if covers name m.0 then longer best m else best)
  unfolding better longer
  better_lem name ([], sub) none = refl
  better_lem name ([], sub) (some best) = ground arith
  better_lem name (b ∷ p, sub) best = refl

  -- What is known once the loop has met some mounts
  abbrev pub IsBest : FsPath → List (FsPath × A) → Option (FsPath × A) → Type 0
  IsBest name met best = Covered name best × All (IsNoBetter name best) met

  longer-IsBest :
      (name : FsPath) (m : FsPath × A) (met : List (FsPath × A)) (best : Option (FsPath × A))
      → covers name m.0 ≡ true
      → IsBest name met best
      → IsBest name (m ∷ met) (longer best m)
  unfolding longer
  longer-IsBest name m met none e (c, h) =
      (e, ((λ _. omega arith), All-map _ _ met (λ m' f t. refuted t f) h))
  longer-IsBest name m met (some best) e (c, h) =
      elim (Bool-cases (ltb (length best.0) (length m.0))) [
        | inl t ↦
            let shorter = ltb→lt (length best.0) (length m.0) t in
            let next : longer (some best) m ≡ some m = rw t refl in
            subst (IsBest name (m ∷ met)) (sym next) (
              e,
              ((λ _. omega arith), All-map _ _ met (λ m' le e'. omega (arith, le e', shorter)) h),
            )
        | inr f ↦
            let enough : length m.0 ≤ length best.0 = ground (arith, f) in
            let next : longer (some best) m ≡ some best = rw f refl in
            subst (IsBest name (m ∷ met)) (sym next) (c, ((λ _. enough), h))
      ]

  next-IsBest :
      (name : FsPath) (m : FsPath × A) (met : List (FsPath × A)) (best : Option (FsPath × A))
      → IsBest name met best
      → IsBest name (m ∷ met) (better name m best)
  next-IsBest name m met best h =
      subst (IsBest name (m ∷ met)) (sym (better_lem name m best)) (by_cover (covers name m.0) refl)
    where
      uncovered : (o : Option (FsPath × A)) → covers name m.0 ≡ false → IsNoBetter name o m
      uncovered none e = e
      uncovered (some b) e = λ t. refuted t e

      by_cover :
          (b : Bool)
          → covers name m.0 ≡ b
          → IsBest name (m ∷ met) (if b then longer best m else best)
      by_cover true e = longer-IsBest name m met best e h
      by_cover false e = (h.0, (uncovered best e, h.1))

  loop-IsBest :
      (name : FsPath) (mounts met : List (FsPath × A)) (best : Option (FsPath × A))
      → IsBest name met best
      → Covered name (best_mount name mounts best)
        × All (IsNoBetter name (best_mount name mounts best)) met
        × All (IsNoBetter name (best_mount name mounts best)) mounts
  unfolding best_mount
  loop-IsBest name [] met best (c, h) = (c, h, tt)
  loop-IsBest name (m ∷ mounts) met best h =
      let (c, (here, k), r) =
        loop-IsBest name mounts (m ∷ met) (better name m best) (next-IsBest name m met best h) in
      (c, k, (here, r))

  -- The mount that is found is one of the mounts.
  abbrev pub IsAmong : Option (FsPath × A) → List (FsPath × A) → Type 0
  IsAmong best mounts = Any (λ m. best ≡ some m) mounts

  best_or_next :
      (name : FsPath) (m : FsPath × A) (best : Option (FsPath × A))
      → (better name m best ≡ best) ⊎ (better name m best ≡ some m)
  unfolding longer
  best_or_next name m best =
      subst (λ o. (o ≡ best) ⊎ (o ≡ some m)) (sym (better_lem name m best))
        (by_cover (covers name m.0) best)
    where
      by_cover :
          (b : Bool) (o : Option (FsPath × A))
          → ((if b then longer o m else o) ≡ o) ⊎ ((if b then longer o m else o) ≡ some m)
      by_cover false o = inl refl
      by_cover true none = inr refl
      by_cover true (some b) = elim (Bool-cases (ltb (length b.0) (length m.0))) [
        | inl t ↦ inr (rw t refl)
        | inr f ↦ inl (rw f refl)
      ]

  best_mount-IsAmong :
      (name : FsPath) (mounts : List (FsPath × A)) (best : Option (FsPath × A))
      → (best_mount name mounts best ≡ best) ⊎ IsAmong (best_mount name mounts best) mounts
  unfolding best_mount
  best_mount-IsAmong name [] best = inl refl
  best_mount-IsAmong name (m ∷ mounts) best =
      elim (best_mount-IsAmong name mounts (better name m best)) [
        | inr there ↦ inr (inr there)
        | inl e ↦ elim (best_or_next name m best) [
          | inl k ↦ inl (e ∙ k)
          | inr k ↦ inr (inl (e ∙ k))
        ]
      ]

  -- The mount that a path is routed to is the longest of those that have the path, whatever the order
  -- of the map: it is one of the mounts and has the path, and no mount that has it is longer; where
  -- none is found, no mount has the path.
  pub best_mount-IsBest :
      (name : FsPath) (mounts : Mounts A)
      → IsBest name mounts (best_mount name mounts none)
        × ((best_mount name mounts none ≡ none) ⊎ IsAmong (best_mount name mounts none) mounts)
  best_mount-IsBest name mounts =
      let (c, h, k) = loop-IsBest name mounts [] none (tt, tt) in
      ((c, k), best_mount-IsAmong name mounts none)
