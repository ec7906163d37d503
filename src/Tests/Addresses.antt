-- ===== src/Tests/Addresses.antt =====
-- Where the database is found from outside of a cluster with one node.
use guild_net.Prelude.{
  none, some, [], ◌∷◌, ◌≡◌, refl, codes, if◌then◌else◌, ◌==◌, text_eq_inst, text_eq,
}
use guild_net.Prelude.Strings.{trim_space, trim_right, trim_left, is_space, strip_prefix}
use guild_net.RethinkDb.Discover.{Service, Kube, first_port, auto_discover_addr}
use guild_net.RethinkDb.Discover.Candidates.{auto_discover_addr-candidates}

-- a NodePort service whose port has another name than client, on a node with two addresses
abbrev node_service : Service
node_service = record {
  ingress = [];
  ports = record { name = codes "driver"; port = 28015; node_port = 31015 } ∷ [];
  service_type = codes "NodePort";
  cluster_ip = codes "10.43.0.7";
}

abbrev one_node : Kube
one_node = record {
  get_service = λ ns name. if name == codes "rethinkdb" then some node_service else none;
  list_nodes = some (
      (record { address_type = codes "InternalIP"; address = codes "192.168.1.2" }
        ∷ (record { address_type = codes "ExternalIP"; address = codes "203.0.113.9" } ∷ []))
      ∷ []);
}

auto_discover_addr-candidates_example :
    auto_discover_addr (λ n. codes "31015") (λ name. []) (some one_node) none
    ≡ codes "192.168.1.2:31015"
unfolding trim_space trim_right trim_left is_space text_eq first_port
auto_discover_addr-candidates_example =
    auto_discover_addr-candidates (λ n. codes "31015") one_node node_service (λ name. []) none refl
      refl refl

loopback_refused :
    auto_discover_addr (λ n. codes "1") (λ name. codes "localhost:28015") none none ≡ []
unfolding auto_discover_addr trim_space trim_right trim_left is_space text_eq strip_prefix
loopback_refused = refl
