-- ===== src/Bootstrap.antt =====
-- internal/api/router.go: /bootstrap, which stores a cluster and warms its clients up. `S` is the state of a local database, that of the host or that of a cluster;
-- the registry is that of internal/cluster/registry.go.
pub mod ClusterSettings
pub mod Rollback
pub mod Apart
use guild_net.Prelude.{
  ℕ, Bool, true, false, not, Option, none, some, [], ◌∷◌, ◌++◌, Text, codes, is_empty, insert,
  if◌then◌else◌, text_eq_inst,
}
use guild_net.Prelude.Strings.{trim_space, trim_prefix}
use guild_net.Json.{str, Row}
use guild_net.DbManager.{Result, ok, fail}
use guild_net.LocalDb.{Sql, put_value, delete_value}
use guild_net.Settings.Values.{Tailscale, Cluster, no_cluster, Codec}
use guild_net.Settings.{put_tailscale, get_cluster, put_cluster}
use guild_net.ClusterRegistry.{Instance, Registry, Builder, normal_id, get_instance}
use guild_net.ClusterRegistry.Connect.{Dialler, ensure_rdb}
use guild_net.Clusters.{kubeconfig_key}
use guild_net.Deploy.{Verb, get_verb, post_verb, put_verb}

-- the cluster of a request: its kubeconfig, and its settings, of which only those of the request's
-- fields are used
pub record ClusterRequest : Type 0 where
  pub kubeconfig : Text
  pub settings : Cluster

pub record BootstrapRequest : Type 0 where
  pub tailscale : Option Tailscale
  pub cluster : Option ClusterRequest

pub data BootstrapReply : Type 0 where
  not_allowed aborted finished : BootstrapReply
  refused : Text → Text → Text → BootstrapReply
  cluster_id : Text → BootstrapReply

pub record World (E S D K T M : Type 0) : Type 0 where
  pub db : Option S
  pub registry : Option (Registry D K T M)
  pub env : E

-- `builder` depends on the host's database, in which the resolver looks the kubeconfig up;
-- `has_client` tells whether the client of an instance is there. `read_db` and `write_db` are the
-- state of a cluster's own database, and `store_config` writes the ConfigMap of its settings.
pub record Services (E S D K T M : Type 0) : Type 0 where
  pub builder : S → Builder E D K T M
  pub dialler : Dialler E K M
  pub has_client : K → Bool
  pub list_namespaces : E → K → E × Option Text
  pub read_db : E → D → S
  pub write_db : E → D → S → E
  pub store_config : E → K → Bool → E

-- the settings that the bootstrap stores; the others stay zero
abbrev pub requested : Cluster → Cluster
requested cs = record no_cluster {
  name = cs.name;
  namespace = cs.namespace;
  api_proxy_url = cs.api_proxy_url;
  api_proxy_force_http = cs.api_proxy_force_http;
  disable_api_proxy = cs.disable_api_proxy;
  prefer_pod_proxy = cs.prefer_pod_proxy;
  use_port_forward = cs.use_port_forward;
  ingress_domain = cs.ingress_domain;
  ingress_class_name = cs.ingress_class_name;
  workspace_tls_secret = cs.workspace_tls_secret;
  cert_manager_issuer = cs.cert_manager_issuer;
  ingress_auth_url = cs.ingress_auth_url;
  ingress_auth_signin = cs.ingress_auth_signin;
  image_pull_secret = cs.image_pull_secret;
  org_id = cs.org_id;
}

abbrev pub name_or_id : Text → Text → Text
name_or_id name id = if is_empty (trim_space name) then id else name

module _ {E S B D K T M : Type 0} (sql : Sql S B) (codec : Codec B) (sv : Services E S D K T M)
    (id : Text) where
  abbrev pub imported : Text → Row
  imported name =
      (codes "id", str id)
      ∷ ((codes "name", str (name_or_id name id)) ∷ ((codes "state", str (codes "imported")) ∷ []))

  abbrev pub store_rows : ClusterRequest → S → S
  store_rows req s =
      (put_value sql codec.marshal
        (put_value sql codec.marshal s (codes "clusters") id (imported req.settings.name)).0
        (codes "credentials") (kubeconfig_key id) ((codes "value", str req.kubeconfig) ∷ [])).0

  abbrev pub drop_rows : S → S
  drop_rows s =
      (delete_value sql (delete_value sql s (codes "clusters") id).0 (codes "credentials")
        (kubeconfig_key id)).0

  abbrev pub failed :
      S → Option (Registry D K T M) → E → Text → Text → Text → World E S D K T M × BootstrapReply
  failed s reg e msg code detail =
      (record { db = some (drop_rows s); registry = reg; env = e }, refused msg code detail)

  abbrev pub stored :
      ClusterRequest → S → Option (Registry D K T M) → E → World E S D K T M × BootstrapReply
  stored req s reg e = (
    record {
      db = some (put_cluster sql codec s id (requested req.settings)).0;
      registry = reg;
      env = e;
    },
    cluster_id id,
  )

  -- the instance is the one that the registry holds
  abbrev pub with_manager :
      ClusterRequest
      → S
      → Registry D K T M
      → E × Instance D K T M × Option Text
      → World E S D K T M × BootstrapReply
  with_manager req s reg (e, inst, some err) =
      failed s (some (record reg { items = insert (normal_id id) inst reg.items })) e
        (codes "cluster rdb connect failed") (codes "cluster_rdb") err
  with_manager req s reg (e, inst, none) =
      stored req s (some (record reg { items = insert (normal_id id) inst reg.items })) e

  abbrev pub with_namespaces :
      ClusterRequest
      → S
      → Registry D K T M
      → Instance D K T M
      → E × Option Text
      → World E S D K T M × BootstrapReply
  with_namespaces req s reg inst (e, some err) =
      failed s (some reg) e (codes "cluster connect failed") (codes "cluster_connect") err
  with_namespaces req s reg inst (e, none) = with_manager req s reg (ensure_rdb sv.dialler e inst)

  abbrev pub with_instance :
      ClusterRequest
      → S
      → E × Registry D K T M × Result (Instance D K T M)
      → World E S D K T M × BootstrapReply
  with_instance req s (e, reg, fail err) =
      failed s (some reg) e (codes "cluster connect failed") (codes "cluster_connect") err
  with_instance req s (e, reg, ok inst) =
      if sv.has_client inst.k8s
      then with_namespaces req s reg inst (sv.list_namespaces e inst.k8s)
      else failed s (some reg) e (codes "cluster client initialization failed")
          (codes "cluster_client") (codes "client not initialized")

  abbrev pub warmed_up :
      ClusterRequest → S → Option (Registry D K T M) → E → World E S D K T M × BootstrapReply
  warmed_up req s none e = stored req s none e
  warmed_up req s (some reg) e = with_instance req s (get_instance (sv.builder s) e reg id)

  unfoldable pub create_cluster :
      ClusterRequest → S → Option (Registry D K T M) → E → World E S D K T M × BootstrapReply
  create_cluster req s reg e = warmed_up req (store_rows req s) reg e

  abbrev pub unless_blank :
      ClusterRequest → World E S D K T M → Option S → World E S D K T M × BootstrapReply
  unless_blank req w none = (w, finished)
  unless_blank req w (some s) =
      if is_empty (trim_space req.kubeconfig)
      then (w, finished)
      else create_cluster req s w.registry w.env

  abbrev pub with_cluster :
      Option ClusterRequest → World E S D K T M → World E S D K T M × BootstrapReply
  with_cluster none w = (w, finished)
  with_cluster (some req) w = unless_blank req w w.db

  -- without a database the setter panics
  abbrev pub with_tailscale :
      BootstrapRequest
      → World E S D K T M
      → Option Tailscale
      → Option S
      → World E S D K T M × BootstrapReply
  with_tailscale body w none db = with_cluster body.cluster w
  with_tailscale body w (some ts) none = (w, aborted)
  with_tailscale body w (some ts) (some s) =
      with_cluster body.cluster (record w { db = some (put_tailscale sql codec s ts).0 })

  -- /bootstrap, which does not ask for the authorisation of the request
  abbrev pub bootstrap_verb :
      Verb → BootstrapRequest → World E S D K T M → World E S D K T M × BootstrapReply
  bootstrap_verb post_verb body w = with_tailscale body w body.tailscale w.db
  bootstrap_verb _ body w = (w, not_allowed)

  unfoldable pub handle_bootstrap :
      Verb → BootstrapRequest → World E S D K T M → World E S D K T M × BootstrapReply
  handle_bootstrap verb body w = bootstrap_verb verb body w
