-- ===== src/Daemon/Wire.antt =====
-- internal/daemon/server.go: what writeJSON gives to net/http for a reply. `encode` is Encode of an
-- encoder of encoding/json.
use omnivault.Base.{ℕ, Bytes, codes, Option, none, some, []}
use omnivault.Vault.Interface.{Result, ok, err, panic}
use omnivault.Daemon.Protocol.{Body, Reply, respond, crashed}

pub record Written : Type 0 where
  pub content_type : Bytes
  pub status : ℕ
  pub body : Bytes

-- An error of the encoder is logged only; the status has been written then.
abbrev pub or_nothing : Result Bytes → Bytes
or_nothing (ok text) = text
or_nothing (err e) = []
or_nothing panic = []

unfoldable pub write_json : (Body → Result Bytes) → ℕ → Body → Written
write_json encode status body = record {
  content_type = codes "application/json";
  status = status;
  body = or_nothing (encode body);
}

-- What reaches the client of a handler's reply; net/http closes the connection of one that panics.
unfoldable pub written : (Body → Result Bytes) → Reply → Option Written
written encode (respond status body) = some (write_json encode status body)
written encode crashed = none
