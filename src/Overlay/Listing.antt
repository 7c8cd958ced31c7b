-- ===== src/Overlay/Listing.antt =====
-- The directories that runtime/mergedfs.go makes up (syntheticDir). A count that is negative is 0 here.
use particles.Base.{
  ℕ, zero, suc, ◌+◌, ◌≡◌, refl, sym, ◌∙◌, ap, ◌||◌, List, [], ◌∷◌, ◌++◌, append_assoc, length, ltb,
  ◌==◌, if◌then◌else◌, arith,
}
use particles.Overlay.{FsPath}

module _ {ℓ} {A : Type ℓ} where
  unfoldable pub take : ℕ → List A → List A
  take zero xs = []
  take (suc n) [] = []
  take (suc n) (x ∷ xs) = x ∷ take n xs

  unfoldable pub drop : ℕ → List A → List A
  drop zero xs = xs
  drop (suc n) [] = []
  drop (suc n) (x ∷ xs) = drop n xs

pub record SyntheticDir : Type 0 where
  name : FsPath
  children : List FsPath
  pos : ℕ

-- ReadDir: how many entries are given, of those that remain
unfoldable pub given : ℕ → List FsPath → ℕ
given n remaining = if n == 0 || ltb (length remaining) n then length remaining else n

unfoldable pub read_entries : SyntheticDir → ℕ → List FsPath × SyntheticDir
unfolding take drop given
read_entries d n =
    let remaining = drop d.pos d.children in
    (take (given n remaining) remaining, record d { pos = d.pos + given n remaining })

append-nil : (xs : List FsPath) → xs ++ [] ≡ xs
append-nil [] = refl
append-nil (x ∷ xs) = ap (λ ys. x ∷ ys) (append-nil xs)

take-drop : (n : ℕ) (xs : List FsPath) → take n xs ++ drop n xs ≡ xs
unfolding take drop
take-drop zero xs = refl
take-drop (suc n) [] = refl
take-drop (suc n) (x ∷ xs) = ap (λ ys. x ∷ ys) (take-drop n xs)

drop_nil : (n : ℕ) → drop {A = FsPath} n [] ≡ []
unfolding drop
drop_nil zero = refl
drop_nil (suc n) = refl

drop-add : (m n : ℕ) (xs : List FsPath) → drop (m + n) xs ≡ drop n (drop m xs)
unfolding drop
drop-add zero n xs = ap (λ k. drop k xs) (omega arith)
drop-add (suc m) n [] = drop_nil (suc m + n) ∙ sym (drop_nil n)
drop-add (suc m) n (x ∷ xs) =
    let next : suc m + n ≡ suc (m + n) = omega arith in
    ap (λ k. drop k (x ∷ xs)) next ∙ drop-add m n xs

take_whole : (xs : List FsPath) → take (length xs) xs ≡ xs
unfolding take
take_whole [] = refl
take_whole (x ∷ xs) = ap (λ ys. x ∷ ys) (take_whole xs)

-- Reading on, with any counts
abbrev pub read_on : SyntheticDir → List ℕ → List FsPath × SyntheticDir
read_on d [] = ([], d)
read_on d (n ∷ counts) =
    let (entries, next) = read_entries d n in
    let (more, last) = read_on next counts in (entries ++ more, last)

read_on_lem :
    (d : SyntheticDir) (counts : List ℕ)
    → ((read_on d counts).1.children ≡ d.children)
      × ((read_on d counts).0 ++ drop (read_on d counts).1.pos d.children ≡ drop d.pos d.children)
unfolding read_entries
read_on_lem d [] = (refl, refl)
read_on_lem d (n ∷ counts) =
    let rest = drop d.pos d.children in
    let next = (read_entries d n).1 in
    let (e, h) = read_on_lem next counts in
    (
      e,
      append_assoc (take (given n rest) rest) (read_on next counts).0 _
          ∙ ap (λ ys. take (given n rest) rest ++ ys) (h ∙ drop-add d.pos (given n rest) d.children)
          ∙ take-drop (given n rest) rest,
    )

-- From a directory just opened, whatever counts are read, what was read and what a read without a
-- count then gives are the children: none is lost or comes twice.
pub read_on-read_entries :
    (name : FsPath) (children : List FsPath) (counts : List ℕ)
    → (read_on (record { name = name; children = children; pos = 0 }) counts).0
        ++ (read_entries
            (read_on (record { name = name; children = children; pos = 0 }) counts).1
            0).0
      ≡ children
unfolding read_entries given drop
read_on-read_entries name children counts =
    let start : SyntheticDir = record { name = name; children = children; pos = 0 } in
    let (e, h) = read_on_lem start counts in
    ap (λ ys. (read_on start counts).0 ++ ys)
      (take_whole _ ∙ ap (λ ys. drop (read_on start counts).1.pos ys) e)
    ∙ h
