-- ===== src/Imports/Tests.antt =====
-- Imports of one source file.
use particles.Base.{All, ◌≡◌, ◌↔◌, refl, inr, List, [], ◌∷◌, some}
use particles.Base.Bytes.{name_eq, has_prefix}
use particles.Dyld.Names.{ascii}
use particles.Imports.{Bytes, Error, NpmParts, parse_npm_spec, Scanned, classify_all}
use particles.Imports.Specs.{written, parse_npm_spec_iff}
use particles.Imports.Classified.{IsSound, IsTreeImport, classify_all-IsSound}

abbrev scoped_parts : NpmParts
scoped_parts = record { name = ascii "@a/b"; version = ascii "^1.0.0"; subpath = ascii "/get" }

reads_scoped : parse_npm_spec (ascii "npm:@a/b@^1.0.0/get") ≡ some scoped_parts
unfolding parse_npm_spec
reads_scoped = refl

-- A scope without a package is accepted.
reads_no_package :
    parse_npm_spec (ascii "npm:@a/@1")
    ≡ some (record { name = ascii "@a/"; version = ascii "1"; subpath = [] })
unfolding parse_npm_spec
reads_no_package = refl

parse_npm_spec_iff_example :
    (parse_npm_spec (ascii "npm:@a/b@^1.0.0/get") ≡ some scoped_parts)
    ↔ (ascii "npm:@a/b@^1.0.0/get" ≡ written scoped_parts)
unfolding name_eq
parse_npm_spec_iff_example =
    parse_npm_spec_iff scoped_parts (ascii "npm:@a/b@^1.0.0/get")
      (inr (ascii "a", ascii "b", refl, refl, refl)) refl refl refl

abbrev nothing_found : Scanned
nothing_found = record {
  npm_deps = [];
  capabilities = [];
  locals = [];
  errors = [];
  seen_local = [];
  seen_npm = [];
}

nothing_found-IsSound : IsSound nothing_found
nothing_found-IsSound = record {
  versioned = tt;
  inside = tt;
  keys = refl;
  once = tt;
  capabilities_once = tt;
}

abbrev some_imports : List (Bytes × Bytes)
some_imports =
    (ascii "a.ts", ascii "npm:x@1")
    ∷ (ascii "a.ts", ascii "fs/promises")
    ∷ (ascii "a.ts", ascii "/b.ts")
    ∷ (ascii "a.ts", ascii "/b.ts")
    ∷ (ascii "a.ts", ascii "@partite-ai/particle-kv")
    ∷ (ascii "a.ts", ascii "/..")
    ∷ (ascii "x/a.ts", ascii "../b/./c.ts")
    ∷ (ascii "x/a.ts", ascii "../../b.ts")
    ∷ []

found_capabilities : (classify_all some_imports nothing_found).capabilities ≡ ascii "kv" ∷ []
unfolding classify_all
found_capabilities = refl

abbrev found : Scanned
found = classify_all some_imports nothing_found

found_locals :
    found.locals
    ≡ record { resolved = ascii "b.ts"; importer = ascii "a.ts" }
      ∷ record { resolved = ascii "b/c.ts"; importer = ascii "x/a.ts" }
      ∷ []
unfolding classify_all
found_locals = refl

abbrev of_error : List Error → List Bytes
of_error [] = []
of_error (e ∷ errors) = e.spec ∷ of_error errors

found_errors : of_error found.errors ≡ ascii "/.." ∷ ascii "../../b.ts" ∷ []
unfolding classify_all
found_errors = refl

-- A path with two slashes before it is taken for a local import, of an absolute path.
absolute :
    (classify_all ((ascii "a.ts", ascii "//etc/passwd") ∷ []) nothing_found).locals
    ≡ record { resolved = ascii "/etc/passwd"; importer = ascii "a.ts" } ∷ []
unfolding classify_all
absolute = refl

some_imports-IsTreeImport : All IsTreeImport some_imports
unfolding has_prefix
some_imports-IsTreeImport = (
  (refl, refl),
  (
    (refl, refl),
    (
      (refl, refl),
      ((refl, refl), ((refl, refl), ((refl, refl), ((refl, refl), ((refl, refl), tt))))),
    ),
  ),
)

classify_all-IsSound_example : IsSound (classify_all some_imports nothing_found)
classify_all-IsSound_example =
    classify_all-IsSound some_imports nothing_found some_imports-IsTreeImport nothing_found-IsSound
