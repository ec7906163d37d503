-- ===== src/DbApi/Cluster/Bindings.antt =====
-- Bindings on the routes of a cluster: they do not outlive the request that makes them.
use guild_net.Prelude.{
  ℕ, false, none, List, [], ◌≡◌, refl, Text, codes, is_empty, text_eq_inst, text_eq, ◌++◌, lookup,
  arith,
}
use guild_net.Prelude.Strings.{trim_space}
use guild_net.Rbac.{
  role_for, role_at, find_role, bindings_of, new_rbac_store, principal_from_request,
}
use guild_net.Rbac.Actions.{rank}
use guild_net.Http.{Request}
use guild_net.DbManager.{DbManager}
use guild_net.Wire.{Wire}
use guild_net.DbApi.{resolve_role}
use guild_net.DbApi.Access.{IsBlocked, unbound_principal-IsBlocked}
use guild_net.DbApi.Tables.{handle_tables_at}
use guild_net.DbApi.Cluster.{ClusterDb, cluster_api}

role_at-new : (id scope principal : Text) → role_at id scope principal new_rbac_store ≡ none
unfolding role_at bindings_of find_role new_rbac_store lookup
role_at-new id scope principal = ground arith

role_for-new : (p t d : Text) → role_for p t d new_rbac_store ≡ []
unfolding role_for
role_for-new p t d =
    ground (arith, role_at-new t (codes "table:" ++ t) p, role_at-new d (codes "db:" ++ d) p)

resolve_role-cluster :
    {S : Type 0} (c : ClusterDb S) (cluster_id header t d : Text)
    → is_empty (trim_space header) ≡ false
    → resolve_role (cluster_api c cluster_id) (principal_from_request header) t d ≡ []
unfolding resolve_role principal_from_request cluster_api
resolve_role-cluster c cluster_id header t d h =
    ground (arith, role_for-new header t d, role_for-new header [] cluster_id)

rank-nil : rank [] ≡ 0
unfolding text_eq
rank-nil = refl

module _ {S : Type 0} (m : DbManager S) (w : Wire) where
  -- On the routes of a cluster a named principal has no role on any table, whatever requests came
  -- before: rows are refused to it, and the only calls of the manager are those of `GetTables`.
  pub cluster_principal-IsBlocked :
      (fuel : ℕ) (c : ClusterDb S) (cluster_id : Text) (s : S) (r : Request) (db_id : Text)
      (rest : List Text)
      → is_empty (trim_space r.debug_principal) ≡ false
      → IsBlocked m w
          (cluster_api c cluster_id)
          s
          db_id
          (handle_tables_at m w fuel (cluster_api c cluster_id) s r db_id rest)
  cluster_principal-IsBlocked fuel c cluster_id s r db_id rest h =
      unbound_principal-IsBlocked m w (cluster_api c cluster_id) s r db_id fuel rest
        (λ table. rw (resolve_role-cluster c cluster_id r.debug_principal table db_id h) rank-nil)
