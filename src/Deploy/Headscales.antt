-- ===== src/Deploy/Headscales.antt =====
-- internal/api/router.go: the routes of the Headscale instances, and that of the clusters' collection.
use guild_net.Prelude.{
  ℕ, true, Option, none, some, [], ◌∷◌, ◌++◌, Text, codes, text_eq_inst, nat_eq, ◌==◌,
  if◌then◌else◌, is_empty, any, take, insert,
}
use guild_net.Prelude.Strings.{trim_space, trim_prefix}
use guild_net.Json.{Json, str, Row}
use guild_net.DbManager.{Result, ok, fail}
use guild_net.LocalDb.{Sql, put_value, get_value, delete_value, list_values}
use guild_net.Settings.Values.{index, as_string}
use guild_net.Proxy.Headers.{slash, trim_slashes}
use guild_net.Jobs.{Runner, Persist}
use guild_net.Headscale.{with_store}
use guild_net.Orchestration.{sprint}
use guild_net.Deploy.{
  Verb, get_verb, post_verb, delete_verb, ApiRequest, Reply, status, plain, json, json_null,
  json_rows, aborted, Outside, not_allowed, guarded_by, submitted, job_id, with_id,
}

abbrev pub drop_slashes : Text → Text
drop_slashes [] = []
drop_slashes (c ∷ s) = if c == slash then drop_slashes s else c ∷ s

-- `strings.Trim(s, "/")`
unfoldable pub trim_both : Text → Text
trim_both s = trim_slashes (drop_slashes s)

abbrev pub with_default_port : Text → Text → Text
with_default_port scheme host =
    let port = if scheme == codes "https" then codes ":443" else codes ":80" in
    if any (λ c. c == b':') host then host else host ++ port

abbrev pub headscale_prefix : Text
headscale_prefix = codes "/api/deploy/headscale/"

abbrev pub all_ok : Row
all_ok = (codes "ok", Json.bool true) ∷ []

module _ {S B : Type 0} (sql : Sql S B) (p : Persist S) (out : Outside B) (unicode_lower : ℕ → ℕ)
    (token : Text) where
  -- what the collections of headscales and of clusters differ in
  abbrev pub list_rows : Text → Option S → Reply
  list_rows bucket none = json_rows []
  list_rows bucket (some s) = elim (list_values sql out.rows_of s bucket) [
    | fail e ↦ json_rows []
    | ok rows ↦ json_rows rows
  ]

  abbrev pub put_row : Text → Text → Row → Runner S → Runner S
  put_row bucket id row r = with_store (λ s. (put_value sql out.marshal s bucket id row).0) r

  -- the name of the request, or one from a fresh id
  abbrev pub name_or : Text → Row → Text
  name_or prefix req =
      let name = trim_space (sprint out.print (index req (codes "name"))) in
      if is_empty name then prefix ++ take 8 out.name_uuid else name

  abbrev pub new_row : Text → Row → Row
  new_row name extra =
      (codes "id", str out.uuid) ∷ (codes "name", str name) ∷ extra
      ++ ((codes "state", str (codes "creating")) ∷ (codes "createdAt", str out.stamp) ∷ [])

  abbrev pub create_at : Text → Text → Row → Runner S → Runner S × Reply
  create_at bucket kind row r =
      submitted sql p out unicode_lower token kind row
        (json 202 ((codes "id", str out.uuid) ∷ (job_id sql p out unicode_lower token)))
        (put_row bucket out.uuid row r)

  -- /api/deploy/headscale
  abbrev pub headscales_verb : Verb → ApiRequest → Runner S → Runner S × Reply
  headscales_verb get_verb req r = (r, list_rows (codes "headscales") r.store)
  headscales_verb post_verb req r = guarded_by sql p out unicode_lower token req r (
      create_at (codes "headscales") (codes "headscale.create")
        (new_row (name_or (codes "hs-") (out.decode req.body))
          ((codes "type", str (codes "managed")) ∷ []))
        r)
  headscales_verb _ req r = (r, not_allowed)

  -- /api/deploy/clusters
  abbrev pub clusters_verb : Verb → ApiRequest → Runner S → Runner S × Reply
  clusters_verb get_verb req r = (r, list_rows (codes "clusters") r.store)
  clusters_verb post_verb req r = guarded_by sql p out unicode_lower token req r (
      create_at (codes "clusters") (codes "cluster.create")
        (new_row (name_or (codes "cluster-") (out.decode req.body)) []) r)
  clusters_verb _ req r = (r, not_allowed)

  -- `deps.DB == nil || deps.DB.Get("headscales", id, &rec) != nil`
  abbrev pub find_headscale : Text → Option S → Result (Option Row)
  find_headscale id none = fail (codes "no db")
  find_headscale id (some s) = get_value sql out.unmarshal s (codes "headscales") id

  abbrev pub shown : Result (Option Row) → Reply
  shown (fail e) = status 404
  shown (ok none) = json_null
  shown (ok (some rec)) = json 200 rec

  abbrev pub store_endpoint : Text → Text → Runner S → Result (Option Row) → Runner S × Reply
  store_endpoint id endpoint r (fail e) = (r, status 404)
  store_endpoint id endpoint r (ok none) = (r, aborted)
  store_endpoint id endpoint r (ok (some rec)) = (
    put_row (codes "headscales") id
        (insert (codes "updatedAt") (str out.stamp) (insert (codes "endpoint") (str endpoint) rec))
        r,
    json 200 all_ok,
  )

  abbrev pub set_endpoint : Text → Text → Runner S → Runner S × Reply
  set_endpoint id endpoint r =
      let stored = store_endpoint id endpoint r (find_headscale id r.store) in
      if is_empty endpoint then (r, plain 400 (codes "missing endpoint")) else stored

  abbrev pub or_plain : Text → Result Text → Text
  or_plain value (fail e) = value
  or_plain value (ok v) = v

  -- the value as it is where there are no secrets or where they fail
  abbrev pub encrypted : Text → Option (Text → Result Text) → Text
  encrypted value none = value
  encrypted value (some encrypt) = or_plain value (encrypt value)

  abbrev pub credential : Text → Text → Row
  credential id value =
      (codes "id", str out.uuid)
      ∷ (codes "scopeType", str (codes "headscale"))
      ∷ (codes "scopeId", str id)
      ∷ (codes "kind", str (codes "headscale.preauth"))
      ∷ (codes "value", str (encrypted value out.encrypt))
      ∷ (codes "rotatedAt", str out.stamp)
      ∷ []

  abbrev pub set_preauth : Text → Text → Runner S → Runner S × Reply
  set_preauth id value r =
      if is_empty (trim_space value) then (r, plain 400 (codes "missing value")) else (
        put_row (codes "credentials") (codes "hs:" ++ (id ++ codes ":preauth"))
            (credential id value) r,
        json 200 all_ok,
      )

  abbrev pub endpoint_of : Option Row → Text
  endpoint_of none = codes "<nil>"
  endpoint_of (some rec) = sprint out.print (index rec (codes "endpoint"))

  abbrev pub dialled : Option Text → Row
  dialled none = (codes "status", str (codes "ok")) ∷ []
  dialled (some e) = (codes "status", str (codes "unknown")) ∷ (codes "error", str e) ∷ []

  abbrev pub endpoint_status : Option (Text × Text) → Row
  endpoint_status none = (codes "status", str (codes "unknown")) ∷ []
  endpoint_status (some (scheme, host)) = dialled (out.dial (with_default_port scheme host))

  abbrev pub health_of : Result (Option Row) → Reply
  health_of (fail e) = status 404
  health_of (ok rec) = json 200 (endpoint_status (out.parse_url (endpoint_of rec)))

  -- the action of the query, or what the path has behind the id
  abbrev pub action_of : Text → ApiRequest → Text
  action_of id req =
      let action = trim_space (req.query (codes "action")) in
      if is_empty action then trim_both (trim_prefix (headscale_prefix ++ id) req.path) else action

  abbrev pub headscale_action : Text → Text → ApiRequest → Runner S → Runner S × Reply
  headscale_action id action req r =
      let body = index (out.decode req.body) in
      if action == codes "endpoint"
      then set_endpoint id (as_string (body (codes "endpoint"))) r
      else (if action == codes "preauth-key"
          then set_preauth id (as_string (body (codes "value"))) r
          else (if action == codes "health"
              then (r, health_of (find_headscale id r.store))
              else submitted sql p out unicode_lower token (codes "headscale." ++ action)
                  ((codes "id", str id) ∷ []) (json 202 (job_id sql p out unicode_lower token)) r))

  -- /api/deploy/headscale/{id}
  abbrev pub headscale_verb : Verb → Text → ApiRequest → Runner S → Runner S × Reply
  headscale_verb get_verb id req r = (r, shown (find_headscale id r.store))
  headscale_verb delete_verb id req r = guarded_by sql p out unicode_lower token req r (
    with_store (λ s. (delete_value sql s (codes "headscales") id).0) r,
    json 200 ((codes "deleted", str id) ∷ []),
  )
  headscale_verb post_verb id req r =
      guarded_by sql p out unicode_lower token req r (headscale_action id (action_of id req) req r)
  headscale_verb _ id req r = (r, not_allowed)

  unfoldable pub handle_headscales : ApiRequest → Runner S → Runner S × Reply
  handle_headscales req r = headscales_verb req.verb req r

  unfoldable pub handle_clusters : ApiRequest → Runner S → Runner S × Reply
  handle_clusters req r = clusters_verb req.verb req r

  unfoldable pub handle_headscale : ApiRequest → Runner S → Runner S × Reply
  handle_headscale req r =
      let id = trim_prefix headscale_prefix req.path in
      with_id sql p out unicode_lower token id r (headscale_verb req.verb id req r)
