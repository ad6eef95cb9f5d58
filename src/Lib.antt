-- ===== src/Lib.antt =====
-- The verification library of omnivault, a library and a daemon that keep secrets.
--
-- A provider (interface Vault of vault/interface.go) stores secrets under paths. The resolver
-- (resolver.go) finds a provider by the scheme of a reference scheme://path#field and reads from it.
-- The daemon (internal/daemon) answers requests on a socket; it owns an encrypted store
-- (internal/store/encrypted.go), which keeps a map from paths to sealed secrets in memory and in a file
-- beside a file of metadata, seals and opens them with the key that internal/store/crypto.go derives
-- from a password, and is locked again after a time without requests.
--
-- Files:
--   Base                     Boolean tests, byte strings, maps as lists of pairs, the order of strings.
--   Vault/Types, Reference, Timestamps
--                            vault/types.go: Secret, Metadata, SecretRef and Timestamp (get_field is
--                            GetField, ...).
--   Vault/Errors             vault/errors.go and errors.go.
--   Vault/Interface, Extended
--                            vault/interface.go: the record Vault over the state of a provider.
--   Vault/Contract           what the documentation of that interface promises, over an abstract map.
--   Providers/Memory         providers/memory/memory.go: Get, Set, Delete (remove), Exists, List
--                            (list_paths), Close, Clear, Count, NewWithSecrets, copySecret.
--   Providers/Env            providers/env/env.go, over the environment of the process as a map.
--   Resolver                 resolver.go, every method; Resolver/Routing, Batches and Strings have the
--                            proofs.
--   Store/Crypto             internal/store/crypto.go.
--   Store/Disk               the state of EncryptedStore, saveMeta, loadMeta, saveData, loadData.
--   Store/Operations         the other methods of EncryptedStore. The remaining files under Store have
--                            the proofs: Contents (reads after writes), Sessions and Restart (what the
--                            next process sees), Password, Rekey and Rotation (ChangePassword),
--                            Failures, Listing, Locking; Consistency and Steps (an invariant of every
--                            sequence of calls and restarts).
--   Store/Provider           EncryptedStore as a Vault.
--   Daemon/Protocol          internal/daemon/protocol.go and the state of the server.
--   Daemon/Session, Secrets, Bulk
--                            the handlers of internal/daemon/server.go; Guards, Locking and Importing
--                            have proofs about one handler.
--   Daemon/Routes            registerRoutes: serve takes a request to its handler. Cases has the case
--                            analysis of a handler, Unlocking what a request can unlock.
--   Daemon/AutoLock          requests, timers, shutdowns and restarts as a step relation; Pending, Guarded
--                            and Deadlines have its invariant and what follows from it.
--   Daemon/Lifecycle, Wire   Run, Shutdown, createListener and writePIDFile; writeJSON. Ending has the
--                            proofs.
--   Providers/File           providers/file/file.go: Get, Set, Delete (remove), Exists, List; its types are
--                            in File/Parts; File/Laws and
--                            File/Writing have the proofs.
--   Providers/Sql            providers/sqlstore/sqlstore.go, its types in Sql/Parts; Sql/Stamps and
--                            Sql/Rows have the proofs.
--   Client                   client.go, providers.go and registry.go; Client/Delegates, Names has the rest
--                            of client.go, constants.go and types.go; Laws and Registered have the proofs.
--   CustomProvider           examples/custom_provider/main.go; Laws has the proofs, Program its main.
--   DaemonClient             internal/client/client.go; Errors and RoundTrip join it to the daemon.
--   Cli/Flags, Cli/Expiring  cmd/omnivault/flags.go and cmd/omnivault/expiry.go; Flags/Written writes
--                            the flags that the parser reads.
--   Expiry, Config           internal/expiry/expiry.go; internal/config/config.go and paths.go.
--   Cli/Main, Usage          cmd/omnivault/main.go; Offline has the proofs.
--   Cli/Console              what a command does with the terminal, a pipe and the daemon, as steps.
--   Cli/Secrets, Sessions, Transfers, Daemons
--                            cmd/omnivault/secrets.go, init.go, importexport.go, daemon.go; Worlds, Confirmed,
--                            Passwords, Piped, PipedImport, SetAndGet and WholeProgram (the program from the
--                            command line to the vault) have the proofs.
--   Output                   internal/output/shell.go; Output/Words reads what it writes as a shell does.
--   Output/Format, Writer    internal/output/format.go and writer.go; Writer/Orders has the proofs.
--   Files whose names end in Examples, and Store/Toy, apply the theorems to small concrete inputs.
--
-- How the code is read. A string and a slice of bytes are lists of numbers (of code points in Output
-- and in Cli/Console and what uses it, of bytes elsewhere), a map is a list of pairs
-- in the order in which a range would visit it, a nil pointer or map is `none`, a time is a count of
-- nanoseconds. A call returns a value, an error, or panics; a method that changes its receiver returns
-- the new state on every branch. A handler of the daemon and a method of the encrypted
-- store, the memory provider and the resolver hold a mutex from their first use of the state to their
-- return, so each is one step; of the providers without a mutex one call at a time is modelled. The
-- daemon's Shutdown holds none: what requests and timers do between its parts is its parameter
-- (Daemon/Lifecycle: Meanwhile); Daemon/AutoLock takes its stop of the timer and Lock together. All loops run over a list and are structural
-- recursions: no fuel is used anywhere.
--
-- Parameters. argon2, AES-GCM and base64 are the record Primitives, of which IsSound asks that what is
-- sealed is opened again and what is encoded decoded. encoding/json is the record Codec. The answers of
-- the operating system during one call (errors of the files, the clock, crypto/rand) are the record Io,
-- one for each call; os.Setenv and os.Unsetenv are the record Os; regexp and filepath.Match are the
-- record Matcher. Each provider, the client and the configuration have records of their own for what
-- they call: the file system (Providers/File: Files), database/sql (Providers/Sql: Database), net/http
-- (DaemonClient: Http), processes (Cli/Daemons: Processes), http.ServeMux (Daemon/Routes:
-- Host), the process of the daemon (Daemon/Lifecycle: Os), files of an export (Cli/Transfers: Files), the JSON of their types, and the formats of times and numbers (Expiry: Texts).
-- The laws that a theorem asks of them are the records Disk, IsTable, IsAead, IsRfc3339, ReadsFull, Carries, Sent and
-- Received, each beside the theorems that use it. Nothing is assumed of them beyond the hypotheses that a theorem names.
--
-- Not modelled: the loggers of the client and of the daemon, and the text of the log; the mutexes, of
-- which only their effect is modelled; the standard library, which is behind the records named above.
-- Secrecy of the cipher is not stated: only what is written and read. Pointers are values: that two
-- secrets share a map or a slice is not seen.
-- A vault.meta whose salt is null is read as one with an empty salt, of which Unlock says that it is too
-- short; the code would draw a random salt there, as for a new vault. An auto-lock duration is not
-- negative.
pub mod Base
pub mod Vault
pub mod Providers
pub mod Resolver
pub mod Store
pub mod Daemon
pub mod Output
pub mod Cli
pub mod Expiry
pub mod Config
pub mod Client
pub mod DaemonClient
pub mod CustomProvider
