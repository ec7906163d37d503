-- ===== src/Headscale.antt =====
-- internal/headscale/manager.go and internal/audit/audit.go: the lifecycle of a Headscale instance in
-- the local database. An operation is the steps that it makes in a job's handler, with the error that
-- it returns; `m.DB` is the state of the database at the operation's first call, if there is one.
pub mod States
use guild_net.Prelude.{
  ℕ, Bool, Option, none, some, List, [], ◌∷◌, Text, codes, text_eq_inst, insert,
}
use guild_net.Json.{Json, str, Row}
use guild_net.DbManager.{Result, ok, fail}
use guild_net.LocalDb.{Sql, put_value, get_value, delete_value}
use guild_net.Jobs.{Runner, HandlerStep, log, panic, elsewhere}

-- what `time.Now()` formats to, at seconds and at nanoseconds, and the next `uuid.NewString()`
pub record Ambient : Type 0 where
  pub stamp : Text
  pub stamp_nano : Text
  pub uuid : Text

-- the database behind the runner's store changes
abbrev pub with_store : {S : Type 0} → (S → S) → Runner S → Runner S
with_store f r = elim r.store [ none ↦ r | some s ↦ record r { store = some (f s) } ]

abbrev pub nil_map : Text
nil_map = codes "assignment to entry in nil map"

-- the map of the audit event
abbrev pub audit_row : Ambient → Text → Text → Text → Text → Text → Row
audit_row now actor action entity_type entity_id diff_json =
    (codes "id", str now.uuid)
    ∷ (codes "actor", str actor)
    ∷ (codes "action", str action)
    ∷ (codes "entityType", str entity_type)
    ∷ (codes "entityId", str entity_id)
    ∷ (codes "diffJSON", str diff_json)
    ∷ (codes "ts", str now.stamp_nano)
    ∷ []

-- the record with its new state and the time of the change
abbrev pub new_state : Ambient → Text → Row → Row
new_state now state rec =
    insert (codes "updatedAt") (str now.stamp) (insert (codes "state") (str state) rec)

-- `unmarshal` gives `none` for a stored `null`, which leaves the map nil.
module _ {S B : Type 0} (sql : Sql S B) (marshal : Row → Result B)
    (unmarshal : B → Result (Option Row)) (now : Ambient) where
  -- `audit.Append`
  abbrev pub append_audit : S → Text → Text → Text → Text → Text → S
  append_audit s actor action entity_type entity_id diff_json =
      (put_value sql marshal s (codes "audit") now.uuid
        (audit_row now actor action entity_type entity_id diff_json)).0

  -- what an operation does behind its line of log
  abbrev pub store_state : Text → Text → Text → Row → S → S
  store_state action state id rec s =
      append_audit (put_value sql marshal s (codes "headscales") id (new_state now state rec)).0
        (codes "system") action (codes "headscale") id []

  abbrev pub after_get :
      Text → Text → Text → Text → Result (Option Row) → List (HandlerStep S) × Option Text
  after_get action msg state id (fail e) = ([], some e)
  after_get action msg state id (ok none) =
      (log action msg ((codes "id", str id) ∷ []) ∷ panic nil_map ∷ [], none)
  after_get action msg state id (ok (some rec)) = (
    log action msg ((codes "id", str id) ∷ [])
        ∷ elsewhere (with_store (store_state action state id rec))
        ∷ [],
    none,
  )

  -- what `Create`, `Start` and `Stop` have in common
  abbrev pub change_state :
      Text → Text → Text → Option S → Text → List (HandlerStep S) × Option Text
  change_state action msg state none id = ([], some (codes "no db"))
  change_state action msg state (some s) id =
      after_get action msg state id (get_value sql unmarshal s (codes "headscales") id)

  abbrev pub create : Option S → Text → List (HandlerStep S) × Option Text
  create =
      change_state (codes "create") (codes "ensure headscale resources in cluster") (codes "ready")

  abbrev pub start : Option S → Text → List (HandlerStep S) × Option Text
  start = change_state (codes "start") (codes "start headscale in cluster") (codes "ready")

  abbrev pub stop : Option S → Text → List (HandlerStep S) × Option Text
  stop = change_state (codes "stop") (codes "stop headscale in cluster") (codes "stopped")

  abbrev pub destroy : Option S → Text → List (HandlerStep S) × Option Text
  destroy none id = ([], some (codes "no db"))
  destroy (some s) id = (
    log (codes "destroy") (codes "destroy headscale from cluster") ((codes "id", str id) ∷ [])
        ∷ elsewhere (
            with_store (λ s.
              append_audit (delete_value sql s (codes "headscales") id).0 (codes "system")
                (codes "destroy") (codes "headscale") id []))
        ∷ [],
    none,
  )
