-- ===== src/RethinkDb/Discover.antt =====
-- `AutoDiscoverAddr` of internal/db/db.go: the address of RethinkDB from the variables of the
-- environment, or from the service that Kubernetes knows. A port is a number of Kubernetes, which is
-- never negative.
pub mod Candidates
use guild_net.Prelude.{
  ℕ, Bool, true, false, ◌&&◌, ◌||◌, not, Option, none, some, List, [], ◌∷◌, ◌++◌, Text, codes,
  is_empty, ◌==◌, nat_eq, text_eq_inst, ltb, if◌then◌else◌,
}
use guild_net.Prelude.Strings.{trim_space, has_prefix}

pub record ServicePort : Type 0 where
  pub name : Text
  pub port : ℕ
  pub node_port : ℕ

pub record Ingress : Type 0 where
  pub ip : Text
  pub hostname : Text

pub record Service : Type 0 where
  pub ingress : List Ingress
  pub ports : List ServicePort
  pub service_type : Text
  pub cluster_ip : Text

pub record NodeAddress : Type 0 where
  pub address_type : Text
  pub address : Text

-- the client of Kubernetes: Get of a service by its namespace and name, and List of the nodes
pub record Kube : Type 0 where
  pub get_service : Text → Text → Option Service
  pub list_nodes : Option (List (List NodeAddress))

-- the loop over the ports
unfoldable pub first_port : (ServicePort → ℕ) → ℕ → List ServicePort → ℕ
first_port pick otherwise [] = otherwise
first_port pick otherwise (p ∷ ports) =
    if p.name == codes "client" || p.port == 28015 then pick p else first_port pick otherwise ports

abbrev pub ingress_host : Ingress → Text
ingress_host ing = if is_empty ing.ip then ing.hostname else ing.ip

abbrev pub client_port : Service → ℕ
client_port svc = first_port (λ p. p.port) 28015 svc.ports

abbrev pub first_node_port : List ServicePort → ℕ
first_node_port [] = 0
first_node_port (p ∷ ports) = p.node_port

abbrev pub or_first : List ServicePort → ℕ → ℕ
or_first ports port = if port == 0 then first_node_port ports else port

abbrev pub node_port_of : Service → ℕ
node_port_of svc = or_first svc.ports (first_port (λ p. p.node_port) 0 svc.ports)

abbrev pub has_type : Text → NodeAddress → Bool
has_type t a = a.address_type == t && not (is_empty (trim_space a.address))

-- the inner loop
unfoldable pub node_address : Option Text → List NodeAddress → Option Text
node_address otherwise [] = otherwise
node_address otherwise (a ∷ addresses) =
    if has_type (codes "ExternalIP") a
    then some a.address
    else if has_type (codes "InternalIP") a
    then some a.address
    else node_address otherwise addresses

-- the outer loop
unfoldable pub node_host : List (List NodeAddress) → Option Text
node_host [] = none
node_host (addresses ∷ nodes) = node_address (node_host nodes) addresses

abbrev pub or_default : Text → Text → Text
or_default d v = if is_empty v then d else v

abbrev pub is_loopback : Text → Bool
is_loopback lv =
    lv == codes "127.0.0.1:28015"
    || (has_prefix (codes "127.") lv || has_prefix (codes "localhost") lv)

-- `env` is os.Getenv
module _ (env : Text → Text) where
  abbrev pub variable : Text → Text
  variable name = trim_space (env name)

  abbrev pub service_name : Text
  service_name = or_default (codes "rethinkdb") (variable (codes "RETHINKDB_SERVICE_NAME"))

  abbrev pub file_namespace : Option Text → Text
  file_namespace none = []
  file_namespace (some file) = trim_space file

  abbrev pub namespace_of : Option Text → Text
  namespace_of file = or_default (file_namespace file) (variable (codes "RETHINKDB_NAMESPACE"))

  abbrev pub service_dns : Text → Text → Text
  service_dns svc ns =
      if is_empty ns
      then svc ++ codes ":28015"
      else svc ++ b'.' ∷ (ns ++ codes ".svc.cluster.local:28015")

  abbrev pub inside : Option Text → Text
  inside file =
      let host = variable (codes "RETHINKDB_SERVICE_HOST") in
      if is_empty host
      then service_dns service_name (namespace_of file)
      else host ++ b':' ∷ or_default (codes "28015") (variable (codes "RETHINKDB_SERVICE_PORT"))

-- `print` is the verb %d
module _ (print : ℕ → Text) where
  abbrev pub host_port : Text → ℕ → Text
  host_port host port = host ++ b':' ∷ print port

  abbrev pub of_cluster_ip : Service → Text
  of_cluster_ip svc =
      if not (is_empty svc.cluster_ip) && not (svc.cluster_ip == codes "None")
      then host_port svc.cluster_ip (client_port svc)
      else []

  abbrev pub of_node : Service → ℕ → Option Text → Text
  of_node svc port none = of_cluster_ip svc
  of_node svc port (some host) = host_port host port

  abbrev pub of_nodes : Service → ℕ → Option (List (List NodeAddress)) → Text
  of_nodes svc port none = of_cluster_ip svc
  of_nodes svc port (some nodes) = of_node svc port (node_host nodes)

  abbrev pub without_ingress : Kube → Service → Text
  without_ingress kc svc =
      if svc.service_type == codes "NodePort" && ltb 0 (node_port_of svc)
      then of_nodes svc (node_port_of svc) kc.list_nodes
      else of_cluster_ip svc

  abbrev pub of_ingress : Kube → Service → List Ingress → Text
  of_ingress kc svc [] = without_ingress kc svc
  of_ingress kc svc (ing ∷ rest) =
      if not (is_empty (ingress_host ing)) && ltb 0 (client_port svc)
      then host_port (ingress_host ing) (client_port svc)
      else without_ingress kc svc

  abbrev pub of_service : Kube → Option Service → Text
  of_service kc none = []
  of_service kc (some svc) = of_ingress kc svc svc.ingress

  module _ (env : Text → Text) where
    abbrev pub outside : Option Kube → Text
    outside none = []
    outside (some kc) = of_service kc (
        kc.get_service (or_default (codes "default") (variable env (codes "RETHINKDB_NAMESPACE")))
          (service_name env))

    abbrev pub by_service : Option Kube → Option Text → Text
    by_service kc file =
        if is_empty (variable env (codes "KUBERNETES_SERVICE_HOST"))
        then outside kc
        else inside env file

    -- `kc` is the client, if one can be made, and `file` the namespace file of the service account.
    unfoldable pub auto_discover_addr : Option Kube → Option Text → Text
    auto_discover_addr kc file =
        let v = variable env (codes "RETHINKDB_ADDR") in
        if is_empty v then by_service kc file else if is_loopback v then [] else v
