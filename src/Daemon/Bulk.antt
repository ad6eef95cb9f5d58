-- ===== src/Daemon/Bulk.antt =====
-- internal/daemon/server.go: search, export and import. Package regexp and filepath.Match are the
-- record `Matcher`.
use omnivault.Base.{
  ℕ, suc, ◌+◌, Bytes, codes, Bool, false, ◌&&◌, Option, none, some, List, [], ◌∷◌, ◌++◌, is_empty,
  length, has_prefix, contains, trim_prefix, ◌==◌, if◌then◌else◌,
}
use omnivault.Vault.Types.{Time, Secret, no_metadata, reveal}
use omnivault.Vault.Errors.{error_text}
use omnivault.Vault.Interface.{Result, ok, err, panic}
use omnivault.Store.Disk.{Platform, Io, Store, Outcome}
use omnivault.Store.Operations as Operations
use omnivault.Store.Operations.{is_locked, list_paths, exists}
use omnivault.Daemon.Protocol.{
  Method, SearchRequest, ExportedSecret, ExportRequest, ImportRequest, ImportResponse, ErrorCode,
  Body, Reply, respond, crashed, Server, write_error, locked_reply, reset_auto_lock, with_store,
}
use omnivault.Daemon.Session.{if_post, decoded, internal_error}
use omnivault.Daemon.Secrets.{read_all, time_or_zero}

-- regexp.Compile and MatchString; filepath.Match.
pub record Matcher : Type 0 where
  pub compile : Bytes → Result (Bytes → Bool)
  pub glob : Bytes → Bytes → Result Bool

-- strings.TrimSuffix(s, "*") and strings.TrimPrefix(s, "*")
unfoldable pub trim_star : Bytes → Bytes
trim_star [] = []
trim_star (c ∷ []) = if c == b'*' then [] else c ∷ []
trim_star (c ∷ d ∷ s) = c ∷ trim_star (d ∷ s)

unfoldable pub select : (Bytes → Bool) → List Bytes → List Bytes
select test [] = []
select test (path ∷ paths) = let rest = select test paths in if test path then path ∷ rest else rest

-- An invalid glob pattern matches by prefix.
abbrev pub glob_test : Matcher → Bytes → Bytes → Bool
glob_test mt pattern path = elim (mt.glob pattern path) [
  | ok matched ↦ matched
  | err e ↦ has_prefix path (trim_star pattern)
  | panic ↦ false
]

-- If no path matches the pattern, the paths that contain it without its stars.
unfoldable pub glob_matches : Matcher → Bytes → List Bytes → List Bytes
glob_matches mt pattern paths =
    let matches = select (glob_test mt pattern) paths in
    let core = trim_star (trim_prefix pattern (codes "*")) in
    if is_empty matches then select (λ path. contains path core) paths else matches

unfoldable pub exported : Bytes → Secret → ExportedSecret
exported path x = record {
  path = path;
  value = reveal x;
  fields = x.fields;
  tags = x.metadata.tags;
  expires_at = time_or_zero x.metadata.expires_at;
}

-- The secret that an import stores: no expiry if the time is zero.
unfoldable pub imported_secret : ExportedSecret → Secret
imported_secret x = record {
  value = x.value;
  value_bytes = none;
  fields = x.fields;
  metadata = record no_metadata {
    tags = x.tags;
    expires_at = if x.expires_at == 0 then none else some x.expires_at;
  };
}

-- `exists, _ := s.store.Exists(…)`: an error counts as a path that does not exist.
abbrev pub known : Result Bool → Bool
known (ok b) = b
known (err e) = false
known panic = false

abbrev pub no_counts : ImportResponse
no_counts = record { imported = 0; skipped = 0; errors = 0 }

abbrev pub Import : Type 0
Import = Result ImportResponse × Store

module _ (pf : Platform) (merge : Bool) where
  abbrev pub count_set : Outcome → ImportResponse → (ImportResponse → Store → Import) → Import
  count_set (ok u, t) n next = next (record n { imported = n.imported + 1 }) t
  count_set (err e, t) n next = next (record n { errors = n.errors + 1 }) t
  count_set (panic, t) n next = (panic, t)

  -- The loop of handleImport; the i-th secret is stored under the i-th answers of the system.
  unfoldable pub import_loop : (ℕ → Io) → List ExportedSecret → ImportResponse → Store → Import
  import_loop ios [] n s = (ok n, s)
  import_loop ios (x ∷ xs) n s =
      let skip = import_loop (λ i. ios (suc i)) xs (record n { skipped = n.skipped + 1 }) s in
      let stored =
        count_set (Operations.set pf (ios 0) s x.path (some (imported_secret x))) n
          (import_loop (λ i. ios (suc i)) xs) in
      if known (exists s x.path) && merge then skip else stored

module _ (pf : Platform) (now : Time) where
  abbrev pub found : Server → List Bytes → Reply × Server
  found s paths = (respond 200 (Body.search paths (length paths)), reset_auto_lock now s)

  abbrev pub by_regex : Server → Result (Bytes → Bool) → List Bytes → Reply × Server
  by_regex s (ok test) paths = found s (select test paths)
  by_regex s (err e) paths = (
    write_error 400 (codes "invalid regex pattern: " ++ error_text e) ErrorCode.invalid_request,
    s,
  )
  by_regex s panic paths = (crashed, s)

  abbrev pub searched : Matcher → SearchRequest → Server → Result (List Bytes) → Reply × Server
  searched mt req s (ok paths) =
      if req.regex
      then by_regex s (mt.compile req.pattern) paths
      else found s (glob_matches mt req.pattern paths)
  searched mt req s (err e) = (internal_error e, s)
  searched mt req s panic = (crashed, s)

  unfoldable pub handle_search : Matcher → Server → Method → Option SearchRequest → Reply × Server
  handle_search mt s m body = if_post m s (
      decoded body s λ req.
        if is_locked s.store then (locked_reply, s) else searched mt req s (list_paths s.store []))

  abbrev pub export_answered : Server → Result (List ExportedSecret) → Reply × Server
  export_answered s (ok items) =
      (respond 200 (Body.exported items (length items)), reset_auto_lock now s)
  export_answered s (err e) = (internal_error e, s)
  export_answered s panic = (crashed, s)

  abbrev pub export_paths : Server → Result (List Bytes) → Reply × Server
  export_paths s (ok paths) = export_answered s (read_all pf s.store exported paths)
  export_paths s (err e) = (internal_error e, s)
  export_paths s panic = (crashed, s)

  -- A body that does not decode is an empty request.
  abbrev pub export_prefix : Option ExportRequest → Bytes
  export_prefix none = []
  export_prefix (some req) = req.prefix

  unfoldable pub handle_export : Server → Method → Option ExportRequest → Reply × Server
  handle_export s m body = if_post m s (
      if is_locked s.store
      then (locked_reply, s)
      else export_paths s (list_paths s.store (export_prefix body)))

  abbrev pub import_answered : Server → Import → Reply × Server
  import_answered s (ok n, t) =
      (respond 200 (Body.imported n), reset_auto_lock now (with_store s t))
  import_answered s (err e, t) = (crashed, with_store s t)
  import_answered s (panic, t) = (crashed, with_store s t)

  unfoldable pub handle_import : (ℕ → Io) → Server → Method → Option ImportRequest → Reply × Server
  handle_import ios s m body = if_post m s (
      decoded body s λ req.
        if is_locked s.store
        then (locked_reply, s)
        else import_answered s (import_loop pf req.merge ios req.secrets no_counts s.store))
