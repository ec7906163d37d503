-- ===== src/Tests/Bootstraps.antt =====
-- A bootstrap of a cluster over a database in memory, with a client whose calls are counted.
use guild_net.Prelude.{
  ℕ, suc, true, none, some, [], ◌++◌, ◌≡◌, refl, Text, codes, if◌then◌else◌, nat_eq, ◌==◌, lookup,
  insert, text_eq_inst, text_eq,
}
use guild_net.Prelude.Strings.{trim_space, trim_right, trim_left, is_space}
use guild_net.DbManager.{ok, fail}
use guild_net.LocalDb.{put_value}
use guild_net.Settings.{get_cluster, put_cluster}
use guild_net.Settings.RoundTrip.{trimmed_cluster}
use guild_net.Settings.Values.{no_cluster}
use guild_net.ClusterRegistry.{Builder, get_instance, build, build_with, build_on, register}
use guild_net.ClusterRegistry.Connect.{Dialler, ensure_rdb, dial_loop}
use guild_net.Clusters.{kubeconfig_key}
use guild_net.Deploy.{get_verb}
use guild_net.Bootstrap.{ClusterRequest, World, Services, requested, create_cluster}
use guild_net.Bootstrap.ClusterSettings.{shown_cluster, handle_cluster_settings}
use guild_net.Bootstrap.Rollback.{IsRolledBack, create_cluster-IsRolledBack}
use guild_net.Bootstrap.Apart.{StoresNoSettings, handle_cluster_settings-create_cluster}
use guild_net.Tests.Clusters.{fresh}
use guild_net.Tests.Storage.{
  Tables, memory_sql, memory_laws, same_row, same_row_laws, empty_tables, memory_readable,
  memory_empty,
}

-- the surroundings: a count of the calls, and the one cluster's own database
abbrev Host : Type 0
Host = ℕ × Tables

abbrev counted : Host → Host
counted e = (suc e.0, e.1)

abbrev host_builder : Builder Host Text Text Text Text
host_builder = record {
  kubeconfig = some (λ id. ok (codes "kind: Config"));
  join = λ dir id. dir ++ (codes "/" ++ id);
  open_db = λ e dir. (counted e, ok dir);
  connector_of = λ e id db. (e, none);
  client_of = λ e kc ts. (e, ok kc);
  close_db = λ e db. e;
  close_rdb = λ e m. e;
  cancel = λ e k8s. e;
  now = λ e. e.0;
}

-- the driver answers at the third call
abbrev host_dialler : Dialler Host Text Text
host_dialler = record {
  dial = λ e k8s. (counted e, if e.0 == 2 then ok (some (codes "db")) else fail (codes "refused"));
  pause = λ e. (e, none);
  start_monitor = λ e. e;
}

abbrev services : Services Host Tables Text Text Text Text
services = record {
  builder = λ s. host_builder;
  dialler = host_dialler;
  has_client = λ k8s. true;
  list_namespaces =
      λ e k8s. (counted e, if e.0 == 7 then some (codes "connection refused") else none);
  read_db = λ e d. e.1;
  write_db = λ e d s. (e.0, s);
  store_config = λ e k8s lb. e;
}

abbrev lab : ClusterRequest
lab = record {
  kubeconfig = codes "kind: Config";
  settings = record no_cluster { name = codes "lab"; ingress_domain = codes "lab.test" };
}

create_cluster-IsRolledBack_example :
    IsRolledBack memory_laws same_row services
      (codes "c1")
      (λ s c k. refl)
      empty_tables
      (create_cluster memory_sql same_row services
        (codes "c1")
        lab
        empty_tables
        (some fresh)
        (6, empty_tables))
create_cluster-IsRolledBack_example =
    create_cluster-IsRolledBack memory_laws same_row services (codes "c1") (λ s c k. refl)
      empty_tables lab (memory_empty (codes "clusters") (codes "c1"))
      (memory_empty (codes "credentials") (kubeconfig_key (codes "c1"))) (some fresh)
      (6, empty_tables)

no_settings : StoresNoSettings memory_laws same_row services (codes "c1")
no_settings = record {
  builds = λ s. record {
    opens = λ e dir h. h;
    connects = λ e id db h. h;
    clients = λ e kc ts h. h;
    closes = λ e db h. h;
  };
  dials = record { dials = λ e k8s h. h; pauses = λ e h. h; monitors = λ e h. h };
  lists = λ e k8s h. h;
}

abbrev bootstrapped : World Host Tables Text Text Text Text
bootstrapped =
    (create_cluster memory_sql same_row services (codes "c1") lab empty_tables (some fresh)
      (0, empty_tables)).0

handle_cluster_settings-create_cluster_example :
    ((handle_cluster_settings memory_sql same_row services
        (λ t. no_cluster)
        get_verb
        (codes "/api/settings/cluster/" ++ codes "c1")
        []
        bootstrapped).1
      ≡ shown_cluster no_cluster)
    × ((s' : Tables) × (bootstrapped.db ≡ some s')
        × (get_cluster memory_sql same_row s' (codes "c1") no_cluster
            ≡ (trimmed_cluster [] (requested lab.settings), none)))
unfolding create_cluster get_instance put_cluster trim_space trim_right trim_left is_space lookup
    insert text_eq ensure_rdb put_value build build_with build_on register dial_loop
handle_cluster_settings-create_cluster_example =
    handle_cluster_settings-create_cluster memory_laws same_row services (codes "c1") same_row_laws
      (λ t. no_cluster) lab empty_tables fresh (0, empty_tables) (codes "c1") bootstrapped [] refl
      (λ s c k row. refl) memory_readable no_settings (λ d. memory_empty _ _) refl
