-- ===== src/DbApi/Cluster.antt =====
-- internal/api/router.go: the routes /api/cluster/:id/db, which build a database API for each
-- request, with the cluster as the organisation and no bindings.
pub mod Bindings
use guild_net.Prelude.{ℕ, Option, none, some, List, [], ◌∷◌, ◌++◌, Text, codes}
use guild_net.Rbac.{new_rbac_store}
use guild_net.Metrics.{Ops}
use guild_net.Http.{Request, Response}
use guild_net.DbManager.{DbManager}
use guild_net.Wire.{Wire}
use guild_net.DbApi.{DbApi, Env}
use guild_net.DbApi.Routes.{serve}

-- `strings.Join(parts, "/")`
unfoldable pub join_path : List Text → Text
join_path [] = []
join_path (p ∷ []) = p
join_path (p ∷ (q ∷ parts)) = p ++ (b'/' ∷ join_path (q ∷ parts))

-- the rewritten path, of the parts behind /api/cluster/:id/db
abbrev pub rewritten_path : List Text → Text
rewritten_path [] = codes "/api/db"
rewritten_path (p ∷ parts) = codes "/api/db/" ++ join_path (p ∷ parts)

-- What outlives a request: the manager of the cluster's instance and the counters. A manager that
-- a request connects to by itself is dropped with its API.
pub record ClusterDb (S : Type 0) : Type 0 where
  pub manager : Option S
  pub ops : Ops

unfoldable pub cluster_api : {S : Type 0} → ClusterDb S → Text → DbApi S
cluster_api c cluster_id = record {
  manager = c.manager;
  org_id = cluster_id;
  rbac = new_rbac_store;
  ops = c.ops;
}

module _ {S : Type 0} (m : DbManager S) (w : Wire) where
  unfoldable pub serve_cluster_db :
      ℕ → Env S → ClusterDb S → Text → List Text → Request → Option (ClusterDb S × Response)
  serve_cluster_db fuel env c cluster_id parts r =
      elim (serve m w fuel env (cluster_api c cluster_id)
        (record r { path = rewritten_path parts })) [
          | none ↦ none
          | some (api, response) ↦ some (
            record {
              manager = elim c.manager [ none ↦ none | some s ↦ api.manager ];
              ops = api.ops;
            },
            response,
          )
        ]
