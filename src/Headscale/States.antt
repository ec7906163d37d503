-- ===== src/Headscale/States.antt =====
-- What a change of a Headscale's state leaves in the local database.
use guild_net.Prelude.{
  false, Option, none, some, [], ◌≡◌, refl, ap, ◌∙◌, Text, codes, text_eq, text_eq_inst, ◌==◌,
  if◌then◌else◌, lookup, insert,
}
use guild_net.Prelude.Maps.{lookup-insert}
use guild_net.Json.{str, Row}
use guild_net.DbManager.{Result, ok}
use guild_net.LocalDb.{Sql, SqlLaws, same_key, put_value}
use guild_net.LocalDb.Rows.{stored-put_value, stored-put_value_ok}
use guild_net.Headscale.{Ambient, audit_row, store_state, new_state}

module _ {S B : Type 0} {sql : Sql S B} (laws : SqlLaws sql) (marshal : Row → Result B) where
  module _ (unmarshal : B → Result (Option Row)) (now : Ambient) where
    -- After a change of state without an error of Put, the instance's row is the marshalled record,
    -- in which the state and the time of the update are the new ones and every other field is as it
    -- was; and every row but that and the one of the audit event is as it was.
    stored-store_state :
        (action state id : Text) (rec : Row) (s s' : S) (k d j : Text)
        → put_value sql marshal s (codes "headscales") id (new_state now state rec) ≡ (s', none)
        → same_key (codes "headscales") id d j ≡ false
        → same_key (codes "audit") now.uuid d j ≡ false
        → let end = store_state sql marshal unmarshal now action state id rec s in
          ((b : B) × (marshal (new_state now state rec) ≡ ok b)
            × (laws.stored end (codes "headscales") id ≡ some b))
          × (lookup k (new_state now state rec) ≡ (
              if codes "updatedAt" == k
              then some (str now.stamp)
              else (if codes "state" == k then some (str state) else lookup k rec)))
          × (laws.stored end d j ≡ laws.stored s d j)
    unfolding text_eq
    stored-store_state action state id rec s s' k d j h other_instance other_event =
        let t = (put_value sql marshal s (codes "headscales") id (new_state now state rec)).0 in
        let audit : Row = audit_row now (codes "system") action (codes "headscale") id [] in
        let (b, encoded, stored) =
          stored-put_value_ok laws marshal s s' (codes "headscales") id (new_state now state rec)
            h in
        (
          (
            b,
            encoded,
            stored-put_value laws marshal t (codes "audit") now.uuid audit (codes "headscales") id
                  refl
                ∙ (ap (λ u. laws.stored u.0 (codes "headscales") id) h ∙ stored),
          ),
          (lookup-insert (codes "updatedAt") k (str now.stamp)
                (insert (codes "state") (str state) rec)
              ∙ ap (λ rest. if codes "updatedAt" == k then some (str now.stamp) else rest)
                  (lookup-insert (codes "state") k (str state) rec)),
          stored-put_value laws marshal t (codes "audit") now.uuid audit d j other_event
              ∙ stored-put_value laws marshal s (codes "headscales") id (new_state now state rec) d
                  j other_instance,
        )
