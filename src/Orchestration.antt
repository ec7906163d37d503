-- ===== src/Orchestration.antt =====
-- internal/orch/handlers.go: the handlers of the jobs. `decode` is what json.Unmarshal leaves in the
-- map of the spec, whatever its error, and `print` is fmt.Sprint of a value that is neither nil nor a
-- text. `deps.DB` is the state of the database at the handler's first call of it.
pub mod Outcome
use guild_net.Prelude.{
  Bool, ◌||◌, Option, none, some, List, [], ◌∷◌, ◌++◌, Text, codes, text_eq_inst, ◌==◌,
  if◌then◌else◌, insert,
}
use guild_net.Json.{Json, null, str, Row}
use guild_net.DbManager.{Result, ok, fail}
use guild_net.LocalDb.{Sql, put_value, get_value, delete_value}
use guild_net.Settings.Values.{index}
use guild_net.Jobs.{Runner, HandlerStep, log, panic, elsewhere, set_progress, float_one}
use guild_net.Headscale.{Ambient, with_store, nil_map, create, start, stop, destroy}

-- `fmt.Sprint`
abbrev pub sprint : (Json → Text) → Json → Text
sprint print null = codes "<nil>"
sprint print (str t) = t
sprint print v = print v

-- the guard on the id, and `j.Progress = 1` at the end
unfoldable pub guarded : {S : Type 0} → Text → List (HandlerStep S) → List (HandlerStep S)
guarded [] steps = []
guarded id steps = steps ++ set_progress float_one ∷ []

module _ {S B : Type 0} (sql : Sql S B) (marshal : Row → Result B)
    (unmarshal : B → Result (Option Row)) (now : Ambient) (decode : Text → Row)
    (print : Json → Text) where
  -- `_ = deps.DB.Put("clusters", id, rec)`
  abbrev pub put_cluster : Text → Row → HandlerStep S
  put_cluster id rec =
      elsewhere (with_store (λ s. (put_value sql marshal s (codes "clusters") id rec).0))

  abbrev pub touched : Row → Row
  touched rec = insert (codes "updatedAt") (str now.stamp) rec

  abbrev pub edit_cluster : Text → (Row → Row) → Result (Option Row) → List (HandlerStep S)
  edit_cluster id change (fail e) = []
  edit_cluster id change (ok none) = panic nil_map ∷ []
  edit_cluster id change (ok (some rec)) = put_cluster id (touched (change rec)) ∷ []

  -- `if deps.DB != nil { ... }` of the handlers that edit a cluster's record
  abbrev pub if_present : Text → (Row → Row) → Option S → List (HandlerStep S)
  if_present id change none = []
  if_present id change (some s) =
      edit_cluster id change (get_value sql unmarshal s (codes "clusters") id)

  abbrev pub cluster_create : Text → Text → Option S → List (HandlerStep S)
  cluster_create id name db =
      log (codes "create") (codes "registering cluster")
        ((codes "id", str id) ∷ (codes "name", str name) ∷ [])
      ∷ if_present id (insert (codes "state") (str (codes "ready"))) db

  abbrev pub cluster_op : Text → Text → Option S → List (HandlerStep S)
  cluster_op kind id db =
      let action = if kind == codes "cluster.upgrade" then codes "upgrade" else codes "scale" in
      log (codes "op") (action ++ codes " cluster") ((codes "id", str id) ∷ [])
      ∷ if_present id (λ rec. rec) db

  abbrev pub forget : Text → Option S → List (HandlerStep S)
  forget id none = []
  forget id (some s) =
      elsewhere (with_store (λ s. (delete_value sql s (codes "clusters") id).0)) ∷ []

  abbrev pub cluster_destroy : Text → Option S → List (HandlerStep S)
  cluster_destroy id db =
      log (codes "op") (codes "destroy cluster") ((codes "id", str id) ∷ []) ∷ forget id db

  -- The switch; the errors of the manager of headscales are dropped.
  unfoldable pub handler_for : Text → Option S → Text → List (HandlerStep S)
  handler_for kind db spec_json =
      let spec = index (decode spec_json) in
      let id = sprint print (spec (codes "id")) in
      let name = sprint print (spec (codes "name")) in
      if kind == codes "headscale.create"
      then guarded id (create sql marshal unmarshal now db id).0
      else (if kind == codes "headscale.start"
          then guarded id (start sql marshal unmarshal now db id).0
          else (if kind == codes "headscale.stop"
              then guarded id (stop sql marshal unmarshal now db id).0
              else (if kind == codes "headscale.destroy"
                  then guarded id (destroy sql marshal unmarshal now db id).0
                  else (if kind == codes "cluster.create"
                      then guarded id (cluster_create id name db)
                      else (if kind == codes "cluster.scale" || kind == codes "cluster.upgrade"
                          then guarded id (cluster_op kind id db)
                          else (if kind == codes "cluster.destroy"
                              then guarded id (cluster_destroy id db)
                              else (log (codes "noop") (codes "unhandled job kind")
                                    ((codes "kind", str kind) ∷ [])
                                  ∷ set_progress float_one
                                  ∷ [])))))))
