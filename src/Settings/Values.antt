-- ===== src/Settings/Values.antt =====
-- internal/settings/settings.go: the structures of the settings, their maps in the database, and the
-- readings of those. `tmp["k"]` is a function of the key, which gives nil for a missing one.
use guild_net.Prelude.{
  ℕ, Bool, false, ◌||◌, not, none, some, [], ◌∷◌, ◌+◌, ◌^◌, ◌&&◌, leb, Text, codes, map, ◌==◌,
  nat_eq, text_eq_inst, if◌then◌else◌, lookup,
}
use guild_net.Prelude.Strings.{trim_space}
use guild_net.Json.{Json, null, bool, num, str, Row}
use guild_net.DbManager.{Result}

pub record Tailscale : Type 0 where
  pub login_server : Text
  pub preauth_key : Text
  pub hostname : Text

pub record Database : Type 0 where
  pub addr : Text
  pub user : Text
  pub pass : Text

pub record Global : Type 0 where
  pub org_id : Text
  pub frontend_origin : Text
  pub embed_operator : Bool
  pub default_namespace : Text
  pub listen_local : Text

pub record Cluster : Type 0 where
  pub name : Text
  pub namespace : Text
  pub api_proxy_url : Text
  pub api_proxy_force_http : Bool
  pub disable_api_proxy : Bool
  pub prefer_pod_proxy : Bool
  pub use_port_forward : Bool
  pub ingress_domain : Text
  pub ingress_class_name : Text
  pub workspace_tls_secret : Text
  pub cert_manager_issuer : Text
  pub ingress_auth_url : Text
  pub ingress_auth_signin : Text
  pub image_pull_secret : Text
  pub workspace_lb_enabled : Bool
  pub org_id : Text
  pub ts_login_server : Text
  pub ts_client_auth_key : Text
  pub ts_routes : Text
  pub ts_state_path : Text
  pub headscale_ns : Text

-- `Tailscale{}` and its like
abbrev pub no_tailscale : Tailscale
no_tailscale = record { login_server = []; preauth_key = []; hostname = [] }

abbrev pub no_database : Database
no_database = record { addr = []; user = []; pass = [] }

abbrev pub no_global : Global
no_global = record {
  org_id = [];
  frontend_origin = [];
  embed_operator = false;
  default_namespace = [];
  listen_local = [];
}

abbrev pub no_cluster : Cluster
no_cluster = record {
  name = [];
  namespace = [];
  api_proxy_url = [];
  api_proxy_force_http = false;
  disable_api_proxy = false;
  prefer_pod_proxy = false;
  use_port_forward = false;
  ingress_domain = [];
  ingress_class_name = [];
  workspace_tls_secret = [];
  cert_manager_issuer = [];
  ingress_auth_url = [];
  ingress_auth_signin = [];
  image_pull_secret = [];
  workspace_lb_enabled = false;
  org_id = [];
  ts_login_server = [];
  ts_client_auth_key = [];
  ts_routes = [];
  ts_state_path = [];
  headscale_ns = [];
}

-- json.Marshal and json.Unmarshal on `map[string]any`
pub record Codec (B : Type 0) : Type 0 where
  pub marshal : Row → Result B
  pub unmarshal : B → Result Row

abbrev pub bucket : Text
bucket = codes "settings"

abbrev pub bucket_clusters : Text
bucket_clusters = codes "cluster-settings"

abbrev pub key_ts : Text
key_ts = codes "tailscale"

abbrev pub key_db : Text
key_db = codes "database"

abbrev pub key_global : Text
key_global = codes "global"

unfoldable pub as_string : Json → Text
as_string (str t) = t
as_string _ = []

-- no letter but A to Z folds to one of "true"
abbrev pub fold_case : ℕ → ℕ
fold_case c = if leb b'A' c && leb c b'Z' then c + 32 else c

unfoldable pub as_bool : Json → Bool
as_bool (bool b) = b
as_bool (str t) = map fold_case (trim_space t) == codes "true" || trim_space t == codes "1"
as_bool (num n) = not (n == 0 || n == 2 ^ 63)
as_bool _ = false

unfoldable pub index : Row → Text → Json
index tmp k = elim (lookup k tmp) [ some v ↦ v | none ↦ null ]

abbrev pub tailscale_row : Tailscale → Row
tailscale_row ts =
    (codes "login_server", str (trim_space ts.login_server))
    ∷ (codes "preauth_key", str (trim_space ts.preauth_key))
    ∷ (codes "hostname", str (trim_space ts.hostname))
    ∷ []

abbrev pub read_tailscale : (Text → Json) → Tailscale
read_tailscale tmp = record {
  login_server = trim_space (as_string (tmp (codes "login_server")));
  preauth_key = trim_space (as_string (tmp (codes "preauth_key")));
  hostname = trim_space (as_string (tmp (codes "hostname")));
}

abbrev pub database_row : Database → Row
database_row db =
    (codes "addr", str (trim_space db.addr))
    ∷ (codes "user", str (trim_space db.user))
    ∷ (codes "pass", str (trim_space db.pass))
    ∷ []

abbrev pub read_database : (Text → Json) → Database
read_database tmp = record {
  addr = trim_space (as_string (tmp (codes "addr")));
  user = trim_space (as_string (tmp (codes "user")));
  pass = trim_space (as_string (tmp (codes "pass")));
}

abbrev pub global_row : Global → Row
global_row g =
    (codes "org_id", str (trim_space g.org_id))
    ∷ (codes "frontend_origin", str (trim_space g.frontend_origin))
    ∷ (codes "embed_operator", bool g.embed_operator)
    ∷ (codes "default_namespace", str (trim_space g.default_namespace))
    ∷ (codes "listen_local", str (trim_space g.listen_local))
    ∷ []

abbrev pub listen_or_default : Text → Text
listen_or_default [] = codes "127.0.0.1:8090"
listen_or_default (c ∷ t) = c ∷ t

abbrev pub read_global : (Text → Json) → Global
read_global tmp = record {
  org_id = trim_space (as_string (tmp (codes "org_id")));
  frontend_origin = trim_space (as_string (tmp (codes "frontend_origin")));
  embed_operator = as_bool (tmp (codes "embed_operator"));
  default_namespace = trim_space (as_string (tmp (codes "default_namespace")));
  listen_local = listen_or_default (trim_space (as_string (tmp (codes "listen_local"))));
}

abbrev pub cluster_row : Cluster → Row
cluster_row cs =
    (codes "name", str (trim_space cs.name))
    ∷ (codes "namespace", str (trim_space cs.namespace))
    ∷ (codes "api_proxy_url", str (trim_space cs.api_proxy_url))
    ∷ (codes "api_proxy_force_http", bool cs.api_proxy_force_http)
    ∷ (codes "disable_api_proxy", bool cs.disable_api_proxy)
    ∷ (codes "prefer_pod_proxy", bool cs.prefer_pod_proxy)
    ∷ (codes "use_port_forward", bool cs.use_port_forward)
    ∷ (codes "ingress_domain", str (trim_space cs.ingress_domain))
    ∷ (codes "ingress_class_name", str (trim_space cs.ingress_class_name))
    ∷ (codes "workspace_tls_secret", str (trim_space cs.workspace_tls_secret))
    ∷ (codes "cert_manager_issuer", str (trim_space cs.cert_manager_issuer))
    ∷ (codes "ingress_auth_url", str (trim_space cs.ingress_auth_url))
    ∷ (codes "ingress_auth_signin", str (trim_space cs.ingress_auth_signin))
    ∷ (codes "image_pull_secret", str (trim_space cs.image_pull_secret))
    ∷ (codes "workspace_lb_enabled", bool cs.workspace_lb_enabled)
    ∷ (codes "org_id", str (trim_space cs.org_id))
    ∷ (codes "ts_login_server", str (trim_space cs.ts_login_server))
    ∷ (codes "ts_routes", str (trim_space cs.ts_routes))
    ∷ (codes "ts_state_path", str (trim_space cs.ts_state_path))
    ∷ (codes "headscale_namespace", str (trim_space cs.headscale_ns))
    ∷ []

-- the client's key stays as it is in the structure that is filled
abbrev pub read_cluster : Cluster → (Text → Json) → Cluster
read_cluster out tmp = record {
  name = trim_space (as_string (tmp (codes "name")));
  namespace = trim_space (as_string (tmp (codes "namespace")));
  api_proxy_url = trim_space (as_string (tmp (codes "api_proxy_url")));
  api_proxy_force_http = as_bool (tmp (codes "api_proxy_force_http"));
  disable_api_proxy = as_bool (tmp (codes "disable_api_proxy"));
  prefer_pod_proxy = as_bool (tmp (codes "prefer_pod_proxy"));
  use_port_forward = as_bool (tmp (codes "use_port_forward"));
  ingress_domain = trim_space (as_string (tmp (codes "ingress_domain")));
  ingress_class_name = trim_space (as_string (tmp (codes "ingress_class_name")));
  workspace_tls_secret = trim_space (as_string (tmp (codes "workspace_tls_secret")));
  cert_manager_issuer = trim_space (as_string (tmp (codes "cert_manager_issuer")));
  ingress_auth_url = trim_space (as_string (tmp (codes "ingress_auth_url")));
  ingress_auth_signin = trim_space (as_string (tmp (codes "ingress_auth_signin")));
  image_pull_secret = trim_space (as_string (tmp (codes "image_pull_secret")));
  workspace_lb_enabled = as_bool (tmp (codes "workspace_lb_enabled"));
  org_id = trim_space (as_string (tmp (codes "org_id")));
  ts_login_server = trim_space (as_string (tmp (codes "ts_login_server")));
  ts_client_auth_key = out.ts_client_auth_key;
  ts_routes = trim_space (as_string (tmp (codes "ts_routes")));
  ts_state_path = trim_space (as_string (tmp (codes "ts_state_path")));
  headscale_ns = trim_space (as_string (tmp (codes "headscale_namespace")));
}
