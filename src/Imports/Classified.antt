-- ===== src/Imports/Classified.antt =====
-- What Scan (internal/importscan/importscan.go) has found, whatever the imports are.
use particles.Base.{
  arith, ◌≡◌, refl, ap, subst, ◌∙◌, Bool, true, false, Option, none, some, List, [], ◌∷◌, ◌++◌, All,
  All-append, if◌then◌else◌,
}
use particles.Base.Bytes.{name_eq, has_prefix, trim_prefix, trimmed}
use particles.Base.Paths.{is_rooted, clean, dir, join}
use particles.Base.Paths.Inside.{IsBelow, clean-IsBelow, join-dir_relative}
use particles.Imports.{
  Bytes, is_builtin, is_member, NpmParts, npm, parse_npm_spec, ErrorKind, bare_specifier,
  missing_version, outside_tree, unknown_prefix, NpmSpec, LocalImport, Scanned, host_package_prefix,
  report, note_npm, keyed, classify_npm, is_outside, note_local, note_capability, has_colon,
  is_local, resolve_local, classify_import, classify_all,
}
use particles.Imports.Specs.{written, parse_npm_spec_sound}

-- No text stands twice in the list.
abbrev pub IsDistinct : List Bytes → Type 0
IsDistinct [] = Unit
IsDistinct (x ∷ xs) = (is_member x xs ≡ false) × IsDistinct xs

abbrev pub keys_onto : List LocalImport → List Bytes → List Bytes
keys_onto [] seen = seen
keys_onto (l ∷ locals) seen = keys_onto locals (keyed l.resolved l.importer ∷ seen)

-- A dependency has a version, and is read back from how it is written.
abbrev pub IsVersioned : NpmSpec → Type 0
IsVersioned d =
    (name_eq d.parts.version [] ≡ false) × (parse_npm_spec (written d.parts) ≡ some d.parts)

abbrev pub IsInside : LocalImport → Type 0
IsInside l = IsBelow l.resolved

pub record IsSound (r : Scanned) : Type 0 where
  pub versioned : All IsVersioned r.npm_deps
  pub inside : All IsInside r.locals
  pub keys : keys_onto r.locals [] ≡ r.seen_local
  pub once : IsDistinct r.seen_local
  pub capabilities_once : IsDistinct r.capabilities

keys_onto-append :
    (locals : List LocalImport) (l : LocalImport) (seen : List Bytes)
    → keys_onto (locals ++ (l ∷ [])) seen ≡ keyed l.resolved l.importer ∷ keys_onto locals seen
keys_onto-append [] l seen = refl
keys_onto-append (k ∷ locals) l seen =
    keys_onto-append locals l (keyed k.resolved k.importer ∷ seen)

report-IsSound :
    (kind : ErrorKind) (spec importer : Bytes) (r : Scanned)
    → IsSound r
    → IsSound (report kind spec importer r)
unfolding report
report-IsSound kind spec importer r s = record {
  versioned = s.versioned;
  inside = s.inside;
  keys = s.keys;
  once = s.once;
  capabilities_once = s.capabilities_once;
}

add_dep-IsSound :
    (importer : Bytes) (parts : NpmParts) (r : Scanned)
    → IsVersioned (record { parts = parts; importer = importer })
    → IsSound r
    → IsSound
        (record r { npm_deps = r.npm_deps ++ (record { parts = parts; importer = importer } ∷ []) })
add_dep-IsSound importer parts r v s = record {
  versioned = All-append IsVersioned r.npm_deps _ s.versioned (v, tt);
  inside = s.inside;
  keys = s.keys;
  once = s.once;
  capabilities_once = s.capabilities_once;
}

noted-IsSound :
    (importer p : Bytes) (parts : NpmParts) (r : Scanned) (b : Bool)
    → IsSound r
    → parse_npm_spec p ≡ some parts
    → name_eq parts.version [] ≡ b
    → IsSound (
        if b then report missing_version p importer r else record r {
          npm_deps = r.npm_deps ++ (record { parts = parts; importer = importer } ∷ []);
        })
noted-IsSound importer p parts r true s e v = report-IsSound missing_version p importer r s
noted-IsSound importer p parts r false s e v =
    let back : parse_npm_spec (written parts) ≡ some parts =
      subst (λ spec. parse_npm_spec spec ≡ some parts) (parse_npm_spec_sound p parts e v) e in
    add_dep-IsSound importer parts r (v, back) s

note_npm-IsSound :
    (importer p : Bytes) (o : Option NpmParts) (r : Scanned)
    → parse_npm_spec p ≡ o
    → IsSound r
    → IsSound (note_npm importer p o r)
unfolding note_npm
note_npm-IsSound importer p none r e s = report-IsSound bare_specifier p importer r s
note_npm-IsSound importer p (some parts) r e s =
    noted-IsSound importer p parts r (name_eq parts.version []) s e refl

see_npm-IsSound :
    (keys : List Bytes) (r : Scanned) → IsSound r → IsSound (record r { seen_npm = keys })
see_npm-IsSound keys r s = record {
  versioned = s.versioned;
  inside = s.inside;
  keys = s.keys;
  once = s.once;
  capabilities_once = s.capabilities_once;
}

-- One of two outcomes
choose-IsSound :
    (b : Bool) (r r' : Scanned)
    → (b ≡ true → IsSound r)
    → (b ≡ false → IsSound r')
    → IsSound (if b then r else r')
choose-IsSound true r r' f g = f refl
choose-IsSound false r r' f g = g refl

classify_npm-IsSound :
    (importer p : Bytes) (r : Scanned) → IsSound r → IsSound (classify_npm importer p r)
unfolding classify_npm
classify_npm-IsSound importer p r s =
    choose-IsSound (is_member (keyed importer p) r.seen_npm) r _ (λ e. s)
      (λ e.
        note_npm-IsSound importer p (parse_npm_spec p)
          (record r { seen_npm = keyed importer p ∷ r.seen_npm }) refl
          (see_npm-IsSound (keyed importer p ∷ r.seen_npm) r s))

note_local-IsSound :
    (importer p resolved : Bytes) (r : Scanned)
    → (is_outside resolved ≡ false → IsBelow resolved)
    → IsSound r
    → IsSound (note_local importer p resolved r)
unfolding note_local
note_local-IsSound importer p resolved r below s =
    choose-IsSound (is_outside resolved) (report outside_tree p importer r) _
      (λ e. report-IsSound outside_tree p importer r s)
      (λ e.
        choose-IsSound (is_member (keyed resolved importer) r.seen_local) r _ (λ k. s)
          (λ k. record {
            versioned = s.versioned;
            inside = All-append IsInside r.locals _ s.inside (below e, tt);
            keys =
                keys_onto-append r.locals (record { resolved = resolved; importer = importer }) []
                ∙ ap (λ (ks : List Bytes). keyed resolved importer ∷ ks) s.keys;
            once = (k, s.once);
            capabilities_once = s.capabilities_once;
          }))

note_capability-IsSound : (cap : Bytes) (r : Scanned) → IsSound r → IsSound (note_capability cap r)
unfolding note_capability
note_capability-IsSound cap r s =
    choose-IsSound (is_member cap r.capabilities) r _ (λ k. s)
      (λ k. record {
        versioned = s.versioned;
        inside = s.inside;
        keys = s.keys;
        once = s.once;
        capabilities_once = (k, s.capabilities_once);
      })

-- An import of a file whose path has no slash before it, that does not begin with "//"
abbrev pub IsTreeImport : Bytes × Bytes → Type 0
IsTreeImport (importer, p) = (is_rooted importer ≡ false) × (has_prefix p (47 ∷ 47 ∷ []) ≡ false)

trimmed_relative :
    (p : Bytes)
    → has_prefix p (47 ∷ []) ≡ true
    → has_prefix p (47 ∷ 47 ∷ []) ≡ false
    → is_rooted (trimmed p (47 ∷ [])) ≡ false
unfolding has_prefix trimmed trim_prefix
trimmed_relative [] h k = cc
trimmed_relative (a ∷ []) h k = ground (arith, h)
trimmed_relative (a ∷ b ∷ p) h k = ground (arith, h, k)

guarded-IsBelow :
    (p : Bytes) → is_rooted p ≡ false → is_outside (clean p) ≡ false → IsBelow (clean p)
unfolding is_outside
guarded-IsBelow p r h = clean-IsBelow p r h

choose-IsBelow :
    (b : Bool) (x y : Bytes)
    → (b ≡ true → is_outside x ≡ false → IsBelow x)
    → (b ≡ false → is_outside y ≡ false → IsBelow y)
    → is_outside (if b then x else y) ≡ false
    → IsBelow (if b then x else y)
choose-IsBelow true x y f g = f refl
choose-IsBelow false x y f g = g refl

-- The guard of the code keeps what leads out of the tree.
resolve_local-IsBelow :
    (importer p : Bytes)
    → is_rooted importer ≡ false
    → has_prefix p (47 ∷ 47 ∷ []) ≡ false
    → is_outside (resolve_local importer p) ≡ false
    → IsBelow (resolve_local importer p)
unfolding resolve_local
resolve_local-IsBelow importer p r h =
    choose-IsBelow (has_prefix p (47 ∷ [])) (clean (trimmed p (47 ∷ [])))
      (clean (join (dir importer) p))
      (λ e. guarded-IsBelow (trimmed p (47 ∷ [])) (trimmed_relative p e h))
      (λ e. guarded-IsBelow (join (dir importer) p) (join-dir_relative importer p r))

classify_import-IsSound :
    (importer p : Bytes) (r : Scanned)
    → IsTreeImport (importer, p)
    → IsSound r
    → IsSound (classify_import importer p r)
unfolding classify_import
classify_import-IsSound importer p r (relative, single) s =
    choose-IsSound (is_builtin p) r _ (λ e. s)
      (λ e.
        choose-IsSound (has_prefix p npm) _ _ (λ e. classify_npm-IsSound importer p r s)
          (λ e.
            choose-IsSound (has_prefix p host_package_prefix) _ _
              (λ e. note_capability-IsSound (trimmed p host_package_prefix) r s)
              (λ e.
                choose-IsSound (is_local p) _ _
                  (λ e.
                    note_local-IsSound importer p (resolve_local importer p) r
                      (resolve_local-IsBelow importer p relative single) s)
                  (λ e.
                    choose-IsSound (has_colon p) _ _
                      (λ e. report-IsSound unknown_prefix p importer r s)
                      (λ e. report-IsSound bare_specifier p importer r s)))))

-- Where every importer is a path from the root of the tree, without a slash before it, and no import
-- begins with "//", from a sound result the scan gives a sound one: each npm dependency has a version
-- and is read back from how it is written, each local import is a path below the root of which no
-- segment is empty, "." or "..", and no local import (a file and its importer) and no capability is
-- recorded twice.
pub classify_all-IsSound :
    (imports : List (Bytes × Bytes)) (r : Scanned)
    → All IsTreeImport imports
    → IsSound r
    → IsSound (classify_all imports r)
unfolding classify_all
classify_all-IsSound [] r t s = s
classify_all-IsSound ((importer, p) ∷ imports) r (t, ts) s =
    classify_all-IsSound imports (classify_import importer p r) ts
      (classify_import-IsSound importer p r t s)
