-- ===== src/Tests/Services.antt =====
-- The published services of a host whose cluster has a connector.
use guild_net.Prelude.{
  any, arith, nat_eq, false, ◌++◌, ℕ, suc, none, some, List, [], ◌∷◌, ◌≡◌, refl, Text, codes, ◌==◌,
  text_eq_inst, text_eq, lookup, if◌then◌else◌,
}
use guild_net.DbManager.{ok, fail}
use guild_net.Json.{Row, str}
use guild_net.ClusterRegistry.{Builder}
use guild_net.Published.{
  PublishedService, PublishedListener, World, Network, ServiceCodec, accept_step, forget_row,
  delete_service,
}
use guild_net.Published.Mappings.{restore_published_mappings}
use guild_net.Published.Withdrawal.{
  publish_each, NetworkLaws, IsForgotten, accept_step-delete_service,
}
use guild_net.Published.Restore.{IsRestored, restore_published_mappings-IsRestored}
use guild_net.Tests.Clusters.{fresh}
use guild_net.Tests.Storage.{Tables, memory_sql, memory_laws, empty_tables}

-- the surroundings: the number of the next listener, and those that are closed
abbrev Host : Type 0
Host = ℕ × List ℕ

-- the first address is taken
abbrev network : Network Host Text ℕ
network = record {
  listen = λ e ts addr. (
    (suc e.0, e.1),
    if addr == codes "100.64.0.9:8080" then fail (codes "in use") else ok (e.0, addr),
  );
  accept_fails = λ e ln. any (λ n. n == ln) e.1;
  close = λ e ln. (e.0, ln ∷ e.1);
  listen_port = λ addr. some (codes ":8080");
}

network_laws : NetworkLaws network
unfolding any
network_laws = record { closed_fails = λ e ln. ground (arith) }

abbrev web : PublishedService
web = record {
  cluster_id = codes "c1";
  service = codes "web";
  addr = codes "100.64.0.9:8080";
  added_at = codes "t0";
}

abbrev web_codec : ServiceCodec Row
web_codec = record {
  marshal = λ ps. ok ((codes "service", str ps.service) ∷ []);
  unmarshal = λ blobs. ok (web ∷ []);
}

abbrev connected : Builder Host Text Text Text Text
connected = record {
  kubeconfig = some (λ id. ok (codes "kind: Config"));
  join = λ dir id. dir ++ (codes "/" ++ id);
  open_db = λ e dir. (e, ok dir);
  connector_of = λ e id db. (e, some (codes "ts"));
  client_of = λ e kc ts. (e, ok kc);
  close_db = λ e db. e;
  close_rdb = λ e m. e;
  cancel = λ e k8s. e;
  now = λ e. e.0;
}

abbrev started : World Host Tables Text Text Text Text ℕ
started = record {
  db = some empty_tables;
  registry = some fresh;
  published_map = [];
  env = (8, []);
}

restore_published_mappings-IsRestored_example :
    IsRestored memory_sql web_codec network started
      (restore_published_mappings memory_sql web_codec network connected started).0
restore_published_mappings-IsRestored_example =
    restore_published_mappings-IsRestored memory_sql web_codec network connected started

abbrev live_web : PublishedListener ℕ
live_web = record {
  cluster_id = codes "c1";
  service = codes "web";
  addr = codes ":8080";
  ln = 7;
  added_at = codes "t0";
}

abbrev running : World Host Tables Text Text Text Text ℕ
running = record started { published_map = (codes "c1:web", live_web) ∷ [] }

abbrev again : List (Text × Text × Text)
again = (codes "ts", codes "9090", codes "t1") ∷ []

accept_step-delete_service_example :
    let closed =
      (delete_service memory_sql web_codec network running (codes "c1") (codes "web")).0 in
    let publish_again =
      publish_each memory_laws web_codec network (codes "c1") (codes "web") again in
    (publish_again closed ≡ closed)
    × ((w1 : World Host Tables Text Text Text Text ℕ) × (accept_step memory_sql web_codec network
            (publish_again closed)
            (codes "c1:web")
            7
          ≡ some w1)
        × ((j : Text)
            → lookup j w1.published_map
              ≡ (if codes "c1:web" == j then none else lookup j running.published_map))
        × ((j : Text)
            → (codes "c1:web" == j) ≡ false
            → lookup j
                (forget_row memory_sql web_codec network
                  (publish_again w1)
                  (codes "c1:web")).published_map
              ≡ lookup j running.published_map)
        × IsForgotten memory_laws
            (codes "c1")
            (codes "web")
            empty_tables
            (forget_row memory_sql web_codec network (publish_again w1) (codes "c1:web")).db)
unfolding lookup text_eq
accept_step-delete_service_example =
    accept_step-delete_service memory_laws web_codec network (codes "c1") (codes "web") network_laws
      (λ s c k. refl) running empty_tables live_web again again refl refl
