-- ===== src/Lib.antt =====
-- Verification library of the particles runtime: the host side of programs ("particles") that run in
-- a WebAssembly sandbox and reach the outside only through capabilities that their manifest declares.
--
-- The parts, and how they meet. A particle's requests go through the HTTP policy, which checks the
-- host and puts secrets in the place of placeholders; it asks the credential store for them, which the
-- credential adapters also serve to the particle. The particle's data go to the key-value store through
-- its adapter, and its files to temporary file systems with a quota. The limiter measures the time a
-- call spends in the particle. The signature parser reads descriptors of C functions for the Python
-- runtime. The manifest says what is declared: which mounts, which hosts, which credentials.
--
-- Files, and the code each models:
--   Base             names, list lemmas, names as bytes (Bytes), Go's package
--                    path (Paths: clean, dir, join), dictionaries for Go maps, int64 arithmetic, sorting
--                    (runtime/manifest.go, sortStrings)
--   Policy           runtime/policy.go: HTTPPolicy, AllowsHost, CheckRedirect (check_redirect); Hosts
--                    is about what is allowed, Client models the redirect chain of the http.Client of
--                    runtime/options.go, Substitution models httpPolicy.Do (do_request) and everything
--                    below it, with the events it causes in a trace; Substitution/Trace, /Literal and
--                    /Scope are about what it reads, sends and leaves alone
--   Credentials      credentials/credentials.go: the data; Memory is credentials/memory/memory.go with
--                    the records on a heap (put, delete, write_secrets, ... are Put, Delete,
--                    WriteSecrets), Memory/Consistency is about its indexes, Memory/View, /Refusals,
--                    /Updates and /Isolation about what each call shows; Store is the Store interface with
--                    the laws that clients rely on; Host, Signing and Oauth are credentials/host.go,
--                    signing.go and oauth.go over any such store
--   Kv               kv/kv.go and kv/trap.go; Memory is kv/memory/memory.go, Host is kv/host.go
--   Quota            quotafs/quotafs.go: the counter and the metered operations over a wrapped file
--                    system that is a parameter; Accounting and History are about the cap
--   Limiter          runtime/limiter.go: the clock and its watchdog as steps; Metering is about
--                    the time it measures
--   Libffi           internal/runtime/libffi/sig.go: the parser of signature descriptors; Encoding,
--                    Sound and Descriptor are about what it accepts
--   Names            runtime/manifest.go: names and paths of mounts (validateMountName,
--                    validateMountPath) and byte sizes (ParseByteSize)
--   Manifest         runtime/manifest.go, validateFilesystem, with Filesystem about what it accepts;
--                    Preopens is runtime/mounts.go, and Mounting is about what is mounted
--   Dyld             internal/runtime/dyld: the loader of shared libraries. Its root has the
--                    variable-length numbers; Names, Reader and Info are what the parsers of loader.go
--                    read and note, Parser is parseSO; Encoder is wasm.go; Linking is about the modules
--                    that loader.go builds around a library (buildEnvModule, buildGotMemShim,
--                    buildPostLoadShim, buildWasiShim), Reserve about its memory and table slots;
--                    Registry is the registry of adapter.go with its reference counts, and
--                    Registry/Loading is load; GotFunc is buildGotFuncShim, with GotFunc/Points about the
--                    addresses it gives. RoundTrip, Signed, Encoder/Modules, Encoder/Learned,
--                    Parser/Answers, Linking/Env, Reserve/Bounds, Registry/Unref and
--                    Registry/Loading/Exact are about them
--   Permissions      importer/permissions.go: whether the user is asked (confirmPermissions), with
--                    the canonical JSON of a map that may be nil
--   ToolFilter       cmd/particle/serve_mcp_filter.go: filterTools
--   Imports          internal/importscan/importscan.go (parse_npm_spec, classify_import) and
--                    internal/nodebuiltins/nodebuiltins.go (is_builtin); Specs is about specifiers,
--                    Classified about what a scan has found
--   Scripts          internal/pyscan/pyscan.go: the script blocks of a Python source (scan_bytes), with
--                    Blocks about the block of a source that has one
--   ReadOnly         runtime/readonlyfs.go: the read-only view of a file system (ro_open, ro_open_at and
--                    use_interface are Open, OpenAt and As), with Sessions about what reaches the files
--   Overlay          runtime/mergedfs.go: file systems mounted under one root; Routing is about the mount
--                    that a path is routed to, Synthetic about the directories above the mounts,
--                    Listing models syntheticDir.ReadDir (read_entries)
--
-- State is passed explicitly: a call takes the state and returns its answer with the new state. A call
-- that holds a lock is one step; the order of calls is the list of steps. A Go map is a list of pairs
-- with distinct keys, looked up by the first match. A byte is a number below 256, a string a text of
-- the native library, whose length counts bytes. Quota arithmetic is that of int64 with wrap-around;
-- elsewhere sums are natural numbers, since they stay far below the range.
--
-- Bounds. The redirect chain runs on fuel max_redirects, which is enough since the check refuses the
-- hop after the tenth request. A variable-length number is written on fuel 10, which
-- is enough since ten bytes hold 70 bits. The loops of parseSO that end with the input run
-- on as many rounds as bytes are left, each of which takes a byte; releasing a library runs on one round
-- more than there are libraries loaded, since each nested release has closed one; and loading on one round more than
-- there are files, since a file whose load is going on is not loaded again. Every other loop of the code
-- is a recursion on its list or its count.
--
-- Parameters stand for what is not in the repository's own code: the network, the file system that is
-- wrapped, the token exchange, the WebAssembly engine
-- and the allocator of the main module, JSON coding of single values, base64, the random ids and the time.
--
-- Not modelled: the SQLite backends (SQL over the same contracts), the rest of the importer, the command lines, and code
-- that drives the WebAssembly engine or performs input and output.
pub mod Base
pub mod Quota
pub mod Kv
pub mod Credentials
pub mod Policy
pub mod Limiter
pub mod Libffi
pub mod Dyld
pub mod Names
pub mod Manifest
pub mod Permissions
pub mod ToolFilter
pub mod ReadOnly
pub mod Overlay
pub mod Imports
pub mod Scripts
