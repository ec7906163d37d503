-- ===== src/Http.antt =====
-- Requests and responses of the database API, as the handlers of internal/httpx/db_handlers.go
-- read and write them: `JSON`, `JSONError` and `WriteHeader` become a status and a body.
use guild_net.Prelude.{ℕ, Option, none, some, List, Text, codes, Assoc}
use guild_net.Json.{Row}
use guild_net.Model.{DatabaseInstance, Table, AuditEvent, PermissionBinding}

pub data Method : Type 0 where
  get post patch delete other : Method

-- `query` is `r.URL.Query().Get`, which is "" for a missing key; `debug_principal` is the header
-- X-Debug-Principal.
pub record Request : Type 0 where
  pub method : Method
  pub path : Text
  pub debug_principal : Text
  pub content_type : Text
  pub query : Text → Text
  pub body : Text

pub record ImportPreviewRow : Type 0 where
  pub raw : Row
  pub mapped : Row
  pub errors : List Text

-- `aborted` stands for a handler that panicked: net/http recovers and closes the connection.
pub data Body : Type 0 where
  no_body : Body
  aborted : Body
  health : Text → Text → Option Text → Body
  error : Text → Text → Option Text → Body
  databases : List DatabaseInstance → Body
  database : DatabaseInstance → Body
  tables : List Table → Body
  table : Table → Body
  events : List AuditEvent → Body
  bindings : List PermissionBinding → Body
  binding : PermissionBinding → Body
  revoked : Body
  views : Body
  deleted : Text → Body
  updated : Text → Body
  inserted : List Text → Body
  page : List Row → Text → Body
  preview : List ImportPreviewRow → ℕ → Assoc Text Text → Body
  rows : List Row → Body
  csv : List (List Text) → Body

pub record Response : Type 0 where
  pub status : ℕ
  pub body : Body

abbrev pub respond : ℕ → Body → Response
respond status body = record { status = status; body = body }

-- `JSONError` with and without details
abbrev pub json_error : ℕ → Text → Text → Response
json_error status msg code = respond status (error msg code none)

abbrev pub json_error_detail : ℕ → Text → Text → Text → Response
json_error_detail status msg code detail = respond status (error msg code (some detail))

abbrev pub forbidden : Response
forbidden = json_error 403 (codes "permission denied") (codes "forbidden")

abbrev pub unavailable : Response
unavailable = json_error 503 (codes "database unavailable") (codes "db_unavailable")
