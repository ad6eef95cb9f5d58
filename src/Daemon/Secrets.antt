-- ===== src/Daemon/Secrets.antt =====
-- internal/daemon/server.go: the handlers of single secrets and of their list.
use omnivault.Base.{
  Bytes, codes, Bool, true, false, not, ◌||◌, Option, none, some, List, [], ◌∷◌, keys, is_empty,
  ltb, length, trim_prefix, if◌then◌else◌,
}
use omnivault.Vault.Types.{Time, Secret, no_metadata, reveal, has_bytes, map_or_empty}
use omnivault.Vault.Errors.{Error, Sentinel, sentinel}
use omnivault.Vault.Interface.{Result, ok, err, panic}
use omnivault.Store.Disk.{Platform, Io, Store}
use omnivault.Store.Operations as Operations
use omnivault.Store.Operations.{is_locked, list_paths}
use omnivault.Daemon.Protocol.{
  Method, SetSecretRequest, SecretResponse, SecretListItem, ErrorCode, Body, Reply, respond,
  crashed, Server, write_error, method_not_allowed, locked_reply, reset_auto_lock,
}
use omnivault.Daemon.Session.{if_get, decoded, answered, internal_error, done}

-- The time of a timestamp that may be nil; the zero time if it is.
abbrev pub time_or_zero : Option Time → Time
time_or_zero none = 0
time_or_zero (some t) = t

-- err == vault.ErrSecretNotFound: the sentinel itself, not an error that wraps it.
abbrev pub is_not_found : Error → Bool
is_not_found (sentinel Sentinel.secret_not_found) = true
is_not_found _ = false

unfoldable pub get_failed : Error → Reply
get_failed e =
    if is_not_found e
    then write_error 404 (codes "secret not found") ErrorCode.secret_not_found
    else internal_error e

unfoldable pub secret_response : Bytes → Secret → SecretResponse
secret_response path x = record {
  path = path;
  value = reveal x;
  fields = x.fields;
  tags = x.metadata.tags;
  created_at = time_or_zero x.metadata.created_at;
  updated_at = time_or_zero x.metadata.modified_at;
  expires_at = time_or_zero x.metadata.expires_at;
}

unfoldable pub list_item : Bytes → Secret → SecretListItem
list_item path x = record {
  path = path;
  has_value = not (is_empty x.value) || has_bytes x;
  has_fields = ltb 0 (length (map_or_empty x.fields));
  tags = keys (map_or_empty x.metadata.tags);
  tags_map = x.metadata.tags;
  created_at = time_or_zero x.metadata.created_at;
  updated_at = time_or_zero x.metadata.modified_at;
  expires_at = time_or_zero x.metadata.expires_at;
}

-- The secret that a PUT stores.
abbrev pub requested : SetSecretRequest → Secret
requested req = record {
  value = req.value;
  value_bytes = none;
  fields = req.fields;
  metadata = record no_metadata { tags = req.tags };
}

-- A path whose secret cannot be read is left out; a panic ends the handler.
abbrev pub readable {ℓ} :
    {A : Type ℓ} → Result Secret → (Secret → A) → Result (List A) → Result (List A)
readable r f (err e) = err e
readable r f panic = panic
readable (ok x) f (ok rest) = ok (f x ∷ rest)
readable (err e) f (ok rest) = ok rest
readable panic f (ok rest) = panic

module _ (pf : Platform) where
  unfoldable pub read_all {ℓ} :
      {A : Type ℓ} → Store → (Bytes → Secret → A) → List Bytes → Result (List A)
  read_all s f [] = ok []
  read_all s f (path ∷ paths) = readable (Operations.get pf s path) (f path) (read_all s f paths)

module _ (pf : Platform) (io : Io) (now : Time) where
  abbrev pub listed : Server → Result (List SecretListItem) → Reply × Server
  listed s (ok items) = (respond 200 (Body.secrets items (length items)), reset_auto_lock now s)
  listed s (err e) = (internal_error e, s)
  listed s panic = (crashed, s)

  abbrev pub list_answered : Server → Result (List Bytes) → Reply × Server
  list_answered s (ok paths) = listed s (read_all pf s.store list_item paths)
  list_answered s (err e) = (internal_error e, s)
  list_answered s panic = (crashed, s)

  unfoldable pub handle_secrets : Server → Method → Bytes → Reply × Server
  handle_secrets s m prefix =
      if_get m s (
        if is_locked s.store
        then (locked_reply, s)
        else list_answered s (list_paths s.store prefix))

  abbrev pub got : Server → Bytes → Result Secret → Reply × Server
  got s path (ok x) = (respond 200 (Body.secret (secret_response path x)), reset_auto_lock now s)
  got s path (err e) = (get_failed e, s)
  got s path panic = (crashed, s)

  unfoldable pub get_secret : Server → Bytes → Reply × Server
  get_secret s path = got s path (Operations.get pf s.store path)

  unfoldable pub set_secret : Server → Bytes → Option SetSecretRequest → Reply × Server
  set_secret s path body = decoded body s λ req.
      answered s (Operations.set pf io s.store path (some (requested req))) internal_error
        λ s1. (done (codes "secret saved"), reset_auto_lock now s1)

  unfoldable pub delete_secret : Server → Bytes → Reply × Server
  delete_secret s path =
      answered s (Operations.remove pf io s.store path) internal_error
        λ s1. (done (codes "secret deleted"), reset_auto_lock now s1)

  abbrev pub by_method : Method → Server → Bytes → Option SetSecretRequest → Reply × Server
  by_method Method.get s path body = get_secret s path
  by_method Method.put s path body = set_secret s path body
  by_method Method.delete s path body = delete_secret s path
  by_method Method.post s path body = (method_not_allowed, s)
  by_method Method.other s path body = (method_not_allowed, s)

  unfoldable pub handle_secret : Server → Method → Bytes → Option SetSecretRequest → Reply × Server
  handle_secret s m url_path body =
      let path = trim_prefix url_path (codes "/secret/") in
      if is_empty path
      then (write_error 400 (codes "path is required") ErrorCode.invalid_request, s)
      else if is_locked s.store
      then (locked_reply, s)
      else by_method m s path body
