-- ===== src/Imports.antt =====
-- internal/importscan/importscan.go: what the imports of a particle's source ask for, and the names of
-- internal/nodebuiltins/nodebuiltins.go. A text is the list of its bytes.
pub mod Specs
pub mod Classified
mod Tests
use particles.Base.{
  ℕ, zero, suc, Bool, true, false, ◌||◌, not, ◌&&◌, Option, none, some, List, [], ◌∷◌, ◌++◌, ◌==◌,
  if◌then◌else◌,
}
use particles.Base.Bytes.{name_eq, has_prefix, trimmed}
use particles.Base.Paths.{clean, dir, join}
use particles.Dyld.Names.{ascii}

abbrev pub Bytes : Type 0
Bytes = List ℕ

abbrev pub is_slash : ℕ → Bool
is_slash b = b == 47

abbrev pub is_at_or_slash : ℕ → Bool
is_at_or_slash b = b == 64 || b == 47

-- The bytes before the first one of a kind (strings.IndexAny), and those from it on
unfoldable pub cut_at : (ℕ → Bool) → Bytes → Bytes × Bytes
cut_at stop [] = ([], [])
cut_at stop (b ∷ s) =
    let (before, rest) = cut_at stop s in if stop b then ([], b ∷ s) else (b ∷ before, rest)

unfoldable pub is_member : Bytes → List Bytes → Bool
unfolding name_eq
is_member x [] = false
is_member x (y ∷ ys) = name_eq x y || is_member x ys

-- nodebuiltins.Names
abbrev pub builtin_names : List Bytes
builtin_names =
    ascii "assert"
    ∷ ascii "async_hooks"
    ∷ ascii "buffer"
    ∷ ascii "child_process"
    ∷ ascii "cluster"
    ∷ ascii "console"
    ∷ ascii "constants"
    ∷ ascii "crypto"
    ∷ ascii "dgram"
    ∷ ascii "diagnostics_channel"
    ∷ ascii "dns"
    ∷ ascii "domain"
    ∷ ascii "events"
    ∷ ascii "fs"
    ∷ ascii "http"
    ∷ ascii "http2"
    ∷ ascii "https"
    ∷ ascii "inspector"
    ∷ ascii "module"
    ∷ ascii "net"
    ∷ ascii "os"
    ∷ ascii "path"
    ∷ ascii "perf_hooks"
    ∷ ascii "process"
    ∷ ascii "querystring"
    ∷ ascii "readline"
    ∷ ascii "repl"
    ∷ ascii "stream"
    ∷ ascii "string_decoder"
    ∷ ascii "timers"
    ∷ ascii "tls"
    ∷ ascii "trace_events"
    ∷ ascii "tty"
    ∷ ascii "url"
    ∷ ascii "util"
    ∷ ascii "v8"
    ∷ ascii "vm"
    ∷ ascii "worker_threads"
    ∷ ascii "zlib"
    ∷ []

-- nodebuiltins.Is
unfoldable pub is_builtin : Bytes → Bool
unfolding cut_at is_member has_prefix
is_builtin spec =
    has_prefix spec (ascii "node:") || is_member (cut_at is_slash spec).0 builtin_names

pub record NpmParts : Type 0 where
  pub name : Bytes
  pub version : Bytes
  pub subpath : Bytes

-- What stands behind a name: a version up to a slash, and the path from it on
unfoldable pub with_rest : Bytes → Bytes → Option NpmParts
unfolding cut_at
with_rest name [] = some (record { name = name; version = []; subpath = [] })
with_rest name (b ∷ rest) =
    if b == 64
    then some (record {
      name = name;
      version = (cut_at is_slash rest).0;
      subpath = (cut_at is_slash rest).1;
    })
    else some (record { name = name; version = []; subpath = b ∷ rest })

unfoldable pub plain_spec : Bytes → Option NpmParts
unfolding cut_at with_rest
plain_spec s = let (name, rest) = cut_at is_at_or_slash s in with_rest name rest

-- A name with a scope, behind its "@": a slash must follow the scope.
unfoldable pub scoped_rest : Bytes → Bytes → Option NpmParts
unfolding cut_at with_rest
scoped_rest scope [] = none
scoped_rest scope (b ∷ after) =
    let (pkg, rest) = cut_at is_at_or_slash after in with_rest (64 ∷ (scope ++ (b ∷ pkg))) rest

unfoldable pub parse_after : Bytes → Option NpmParts
unfolding plain_spec scoped_rest
parse_after [] = none
parse_after (b ∷ s) =
    if b == 64 then scoped_rest (cut_at is_slash s).0 (cut_at is_slash s).1 else plain_spec (b ∷ s)

abbrev pub npm : Bytes
npm = ascii "npm:"

-- parseNpmSpec
unfoldable pub parse_npm_spec : Bytes → Option NpmParts
unfolding parse_after has_prefix trimmed
parse_npm_spec spec = if has_prefix spec npm then parse_after (trimmed spec npm) else none

-- `spec` stands for the message, which quotes it. Computed imports are reported by esbuild.
pub data ErrorKind : Type 0 where
  bare_specifier missing_version outside_tree unknown_prefix : ErrorKind

pub record Error : Type 0 where
  pub kind : ErrorKind
  pub spec : Bytes
  pub file : Bytes

pub record NpmSpec : Type 0 where
  pub parts : NpmParts
  pub importer : Bytes

pub record LocalImport : Type 0 where
  pub resolved : Bytes
  pub importer : Bytes

-- Result, with the sets that Scan keeps
pub record Scanned : Type 0 where
  pub npm_deps : List NpmSpec
  pub capabilities : List Bytes
  pub locals : List LocalImport
  pub errors : List Error
  pub seen_local : List Bytes
  pub seen_npm : List Bytes

abbrev pub host_package_prefix : Bytes
host_package_prefix = ascii "@partite-ai/particle-"

unfoldable pub report : ErrorKind → Bytes → Bytes → Scanned → Scanned
report kind spec importer r = record r {
  errors = r.errors ++ (record { kind = kind; spec = spec; file = importer } ∷ []);
}

unfoldable pub note_npm : Bytes → Bytes → Option NpmParts → Scanned → Scanned
unfolding report
note_npm importer p none r = report bare_specifier p importer r
note_npm importer p (some parts) r =
    if name_eq parts.version []
    then report missing_version p importer r
    else record r { npm_deps = r.npm_deps ++ (record { parts = parts; importer = importer } ∷ []) }

abbrev pub keyed : Bytes → Bytes → Bytes
keyed a b = a ++ (0 ∷ b)

unfoldable pub classify_npm : Bytes → Bytes → Scanned → Scanned
unfolding note_npm parse_npm_spec is_member
classify_npm importer p r =
    let key = keyed importer p in
    if is_member key r.seen_npm
    then r
    else note_npm importer p (parse_npm_spec p) (record r { seen_npm = key ∷ r.seen_npm })

-- Whether the path leaves the source tree
unfoldable pub is_outside : Bytes → Bool
unfolding name_eq has_prefix
is_outside resolved =
    name_eq resolved [] || name_eq resolved (ascii ".") || has_prefix resolved (ascii "..")

unfoldable pub note_local : Bytes → Bytes → Bytes → Scanned → Scanned
unfolding report is_outside is_member
note_local importer p resolved r =
    let key = keyed resolved importer in
    if is_outside resolved
    then report outside_tree p importer r
    else if is_member key r.seen_local
    then r
    else record r {
      seen_local = key ∷ r.seen_local;
      locals = r.locals ++ (record { resolved = resolved; importer = importer } ∷ []);
    }

unfoldable pub note_capability : Bytes → Scanned → Scanned
unfolding is_member
note_capability cap r =
    if is_member cap r.capabilities then r else record r { capabilities = cap ∷ r.capabilities }

unfoldable pub has_colon : Bytes → Bool
has_colon [] = false
has_colon (b ∷ s) = b == 58 || has_colon s

unfoldable pub is_local : Bytes → Bool
unfolding has_prefix
is_local p = has_prefix p (ascii "./") || has_prefix p (ascii "../") || has_prefix p (ascii "/")

-- Where a local import leads, from the root of the tree or from the importer's directory
unfoldable pub resolve_local : Bytes → Bytes → Bytes
unfolding has_prefix trimmed clean join dir
resolve_local importer p =
    if has_prefix p (ascii "/")
    then clean (trimmed p (ascii "/"))
    else clean (join (dir importer) p)

-- classifyImport
unfoldable pub classify_import : Bytes → Bytes → Scanned → Scanned
unfolding is_builtin classify_npm note_capability note_local is_local resolve_local has_colon report
classify_import importer p r =
    if is_builtin p
    then r
    else if has_prefix p npm
    then classify_npm importer p r
    else if has_prefix p host_package_prefix
    then note_capability (trimmed p host_package_prefix) r
    else if is_local p
    then note_local importer p (resolve_local importer p) r
    else if has_colon p
    then report unknown_prefix p importer r
    else report bare_specifier p importer r

-- The loop of Scan over the imports that esbuild found
unfoldable pub classify_all : List (Bytes × Bytes) → Scanned → Scanned
unfolding classify_import
classify_all [] r = r
classify_all ((importer, p) ∷ imports) r = classify_all imports (classify_import importer p r)
