-- ===== src/Deploy.antt =====
-- internal/api/router.go: the routes of the jobs, and those of the Headscale instances and the
-- clusters that submit them. The database is that behind the runner's store; a runner without a store
-- stands for no database. What the routes call of other packages is `Outside`.
pub mod Headscales
pub mod Guards
pub mod SettingsRoutes
pub mod Actions
use guild_net.Prelude.{
  ℕ, Bool, true, false, ◌&&◌, ◌||◌, not, Option, none, some, List, [], ◌∷◌, ◌++◌, Text, codes,
  text_eq_inst, nat_eq, ◌==◌, if◌then◌else◌, is_empty, any, take, drop, insert,
}
use guild_net.Prelude.Strings.{trim_space, trim_prefix, strip_prefix, has_prefix, to_lower}
use guild_net.Json.{Json, str, Row}
use guild_net.DbManager.{Result, ok, fail}
use guild_net.LocalDb.{Sql, put_value, get_value, delete_value, list_values}
use guild_net.Settings.Values.{index, as_string}
use guild_net.Proxy.Headers.{slash, trim_slashes}
use guild_net.Jobs.{Runner, Record, Persist, submit, get, list, cancel}
use guild_net.Headscale.{with_store, nil_map}
use guild_net.Orchestration.{sprint}

pub data Verb : Type 0 where
  get_verb post_verb put_verb delete_verb options_verb other_verb : Verb

-- `loopback` is the test of the remote address
pub record ApiRequest : Type 0 where
  pub verb : Verb
  pub path : Text
  pub query : Text → Text
  pub body : Text
  pub loopback : Bool
  pub authorization : Text
  pub api_token : Text

-- `blocked` is a handler whose Submit waits for a full queue, and `aborted` one that panicked.
pub data Reply : Type 0 where
  status : ℕ → Reply
  plain : ℕ → Text → Reply
  json : ℕ → Row → Reply
  json_null : Reply
  json_rows : List Row → Reply
  json_jobs : List Record → Reply
  json_job : Record → Reply
  blocked : Reply
  aborted : Reply

-- Encoding and decoding, time and fresh ids, the secrets; the scheme and the host of a URL that has a
-- host, and the error of dialling an address. `decode_job` gives the kind and the spec, and `unmarshal`
-- none for a stored null.
pub record Outside (B : Type 0) : Type 0 where
  pub marshal : Row → Result B
  pub unmarshal : B → Result (Option Row)
  pub rows_of : List B → Result (List Row)
  pub decode : Text → Row
  pub decode_job : Text → Text × Row
  pub encode : Row → Text
  pub print : Json → Text
  pub stamp : Text
  pub name_uuid : Text
  pub uuid : Text
  pub job_uuid : Text
  pub encrypt : Option (Text → Result Text)
  pub parse_url : Text → Option (Text × Text)
  pub dial : Text → Option Text

-- `authOK`
module _ (unicode_lower : ℕ → ℕ) (token : Text) where
  abbrev pub has_bearer : Text → Text → Bool
  has_bearer authz tok =
      has_prefix (codes "bearer ") (to_lower unicode_lower authz)
      && trim_space (drop 7 authz) == tok

  abbrev pub with_token : ApiRequest → Text → Bool
  with_token req tok =
      if is_empty tok
      then req.loopback
      else has_bearer req.authorization tok || req.api_token == tok

  abbrev pub verb_free : Verb → Bool
  verb_free get_verb = true
  verb_free options_verb = true
  verb_free _ = false

  unfoldable pub auth_ok : ApiRequest → Bool
  auth_ok req = verb_free req.verb || with_token req (trim_space token)

abbrev pub unauthorized : Reply
unauthorized = plain 401 (codes "unauthorized")

abbrev pub not_allowed : Reply
not_allowed = status 405

abbrev pub jobs_prefix : Text
jobs_prefix = codes "/api/jobs/"

module _ {S B : Type 0} (sql : Sql S B) (p : Persist S) (out : Outside B) (unicode_lower : ℕ → ℕ)
    (token : Text) where
  -- `if !authOK(w, r) { return }`
  abbrev pub guarded_by : ApiRequest → Runner S → Runner S × Reply → Runner S × Reply
  guarded_by req r rest = if auth_ok unicode_lower token req then rest else (r, unauthorized)

  abbrev pub or_blocked : Reply → Runner S × Bool → Runner S × Reply
  or_blocked reply (r, false) = (r, blocked)
  or_blocked reply (r, true) = (r, reply)

  abbrev pub submitted : Text → Row → Reply → Runner S → Runner S × Reply
  submitted kind spec reply r = or_blocked reply (submit p out.job_uuid kind (out.encode spec) r)

  abbrev pub job_id : Row
  job_id = (codes "jobId", str out.job_uuid) ∷ []

  -- /api/jobs
  abbrev pub post_job : Text × Row → Runner S → Runner S × Reply
  post_job (kind, spec) r =
      let reply = json 202 job_id in
      if is_empty (trim_space kind)
      then (r, plain 400 (codes "missing kind"))
      else submitted kind spec reply r

  abbrev pub jobs_verb : Verb → ApiRequest → Runner S → Runner S × Reply
  jobs_verb get_verb req r = (r, json_jobs (list p r))
  jobs_verb post_verb req r = guarded_by req r (post_job (out.decode_job req.body) r)
  jobs_verb _ req r = (r, not_allowed)

  -- /api/jobs/{id}
  abbrev pub found_job : Option Record → Reply
  found_job none = status 404
  found_job (some rec) = json_job rec

  abbrev pub job_action : Text → Text → Runner S → Runner S × Reply
  job_action id action r =
      if action == codes "cancel"
      then (cancel p id r, json 200 ((codes "ok", Json.bool true) ∷ []))
      else (r, status 400)

  abbrev pub job_verb : Verb → Text → ApiRequest → Runner S → Runner S × Reply
  job_verb get_verb id req r = (r, found_job (get p id r))
  job_verb post_verb id req r =
      guarded_by req r (job_action id (trim_space (req.query (codes "action"))) r)
  job_verb _ id req r = (r, not_allowed)

  -- a handler that needs an id in the path
  abbrev pub with_id : Text → Runner S → Runner S × Reply → Runner S × Reply
  with_id id r rest = if is_empty id then (r, status 404) else rest

  unfoldable pub handle_jobs : ApiRequest → Runner S → Runner S × Reply
  handle_jobs req r = jobs_verb req.verb req r

  unfoldable pub handle_job : ApiRequest → Runner S → Runner S × Reply
  handle_job req r =
      let id = trim_prefix jobs_prefix req.path in with_id id r (job_verb req.verb id req r)
