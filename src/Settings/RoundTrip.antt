-- ===== src/Settings/RoundTrip.antt =====
-- What the settings' getters give after their setters.
use guild_net.Prelude.{
  Bool, true, false, none, [], ◌∷◌, ◌≡◌, refl, ap, ◌∙◌, inl, inr, Text, is_empty, lookup,
  Bool-cases, text_eq, text_eq_inst,
}
use mathlib.Core.Path.{fun_ext}
use guild_net.Prelude.Strings.{trim_space, trim_space_idem}
use guild_net.Json.{Json, bool, str, Row}
use guild_net.DbManager.{ok}
use guild_net.LocalDb.{Sql, SqlLaws, put_value, get_value}
use guild_net.LocalDb.Reads.{IsBroken, get_value-put_value}
use guild_net.Settings.Values.{
  Tailscale, Database, Global, Cluster, no_tailscale, no_database, no_global, no_cluster, Codec,
  index, as_string, as_bool, bucket, bucket_clusters, key_ts, key_db, key_global, tailscale_row,
  read_tailscale, database_row, read_database, global_row, read_global, cluster_row, read_cluster,
  listen_or_default,
}
use guild_net.Settings.{
  read_or, get_tailscale, put_tailscale, get_database, put_database, get_global, put_global,
  get_cluster, put_cluster, put_client_key,
}

-- texts and Booleans, which encoding/json gives back as they were
abbrev pub all_plain : Row → Bool
all_plain [] = true
all_plain ((k, str t) ∷ row) = all_plain row
all_plain ((k, bool b) ∷ row) = all_plain row
all_plain ((k, v) ∷ row) = false

-- A map of texts and Booleans is decoded to a map with the same members.
pub record CodecLaws {B : Type 0} (codec : Codec B) : Type 0 where
  pub round_trip :
      (row : Row) (b : B)
      → all_plain row ≡ true
      → codec.marshal row ≡ ok b
      → (row' : Row) × (codec.unmarshal b ≡ ok row') × ((k : Text) → lookup k row' ≡ lookup k row)

-- the settings that a getter gives back: each text is trimmed
abbrev pub trimmed_tailscale : Tailscale → Tailscale
trimmed_tailscale ts = record {
  login_server = trim_space ts.login_server;
  preauth_key = trim_space ts.preauth_key;
  hostname = trim_space ts.hostname;
}

abbrev pub trimmed_database : Database → Database
trimmed_database db = record {
  addr = trim_space db.addr;
  user = trim_space db.user;
  pass = trim_space db.pass;
}

abbrev pub normal_global : Global → Global
normal_global g = record {
  org_id = trim_space g.org_id;
  frontend_origin = trim_space g.frontend_origin;
  embed_operator = g.embed_operator;
  default_namespace = trim_space g.default_namespace;
  listen_local = listen_or_default (trim_space g.listen_local);
}

abbrev pub trimmed_cluster : Text → Cluster → Cluster
trimmed_cluster key cs = record {
  name = trim_space cs.name;
  namespace = trim_space cs.namespace;
  api_proxy_url = trim_space cs.api_proxy_url;
  api_proxy_force_http = cs.api_proxy_force_http;
  disable_api_proxy = cs.disable_api_proxy;
  prefer_pod_proxy = cs.prefer_pod_proxy;
  use_port_forward = cs.use_port_forward;
  ingress_domain = trim_space cs.ingress_domain;
  ingress_class_name = trim_space cs.ingress_class_name;
  workspace_tls_secret = trim_space cs.workspace_tls_secret;
  cert_manager_issuer = trim_space cs.cert_manager_issuer;
  ingress_auth_url = trim_space cs.ingress_auth_url;
  ingress_auth_signin = trim_space cs.ingress_auth_signin;
  image_pull_secret = trim_space cs.image_pull_secret;
  workspace_lb_enabled = cs.workspace_lb_enabled;
  org_id = trim_space cs.org_id;
  ts_login_server = trim_space cs.ts_login_server;
  ts_client_auth_key = key;
  ts_routes = trim_space cs.ts_routes;
  ts_state_path = trim_space cs.ts_state_path;
  headscale_ns = trim_space cs.headscale_ns;
}

read_tailscale-tailscale_row :
    (ts : Tailscale) → read_tailscale (index (tailscale_row ts)) ≡ trimmed_tailscale ts
unfolding index as_string lookup text_eq
read_tailscale-tailscale_row ts = simp trim_space_idem

read_database-database_row :
    (db : Database) → read_database (index (database_row db)) ≡ trimmed_database db
unfolding index as_string lookup text_eq
read_database-database_row db = simp trim_space_idem

read_global-global_row : (g : Global) → read_global (index (global_row g)) ≡ normal_global g
unfolding index as_string as_bool lookup text_eq
read_global-global_row g = simp trim_space_idem

read_cluster-cluster_row :
    (out cs : Cluster)
    → read_cluster out (index (cluster_row cs)) ≡ trimmed_cluster (out.ts_client_auth_key) cs
unfolding index as_string as_bool lookup text_eq
read_cluster-cluster_row out cs = simp trim_space_idem

pub index_ext :
    (row row' : Row) → ((k : Text) → lookup k row' ≡ lookup k row) → index row' ≡ index row
unfolding index
index_ext row row' h = fun_ext (λ k. rw (index, h k) refl)

module _ {S B : Type 0} {sql : Sql S B} (laws : SqlLaws sql) {codec : Codec B}
    (plain : CodecLaws codec) where
  -- What every getter gives after its setter.
  read_or-put_value :
      {A : Type 0} (zero_value : A) (read : (Text → Json) → A) (s s' : S) (c k : Text) (row : Row)
      → all_plain row ≡ true
      → put_value sql codec.marshal s c k row ≡ (s', none)
      → ¬ IsBroken (sql.select_kv s' c k)
      → read_or sql codec zero_value read (get_value sql codec.unmarshal s' c k)
        ≡ (read (index row), none)
  unfolding read_or
  read_or-put_value zero_value read s s' c k row flat stored readable =
      elim (get_value-put_value laws codec.marshal codec.unmarshal s s' c k row stored) [
        | inr failed ↦ absurd (readable failed)
        | inl (b, encoded, got) ↦
            (let (row', decoded, same) = plain.round_trip row b flat encoded in
              ap (read_or sql codec zero_value read) (got ∙ decoded)
              ∙ ap (λ find. (read find, none)) (index_ext row row' same))
      ]

  -- After PutTailscale without an error, and unless the query fails, GetTailscale gives the
  -- settings with each text trimmed.
  pub get_tailscale-put_tailscale :
      (s s' : S) (ts : Tailscale)
      → put_tailscale sql codec s ts ≡ (s', none)
      → ¬ IsBroken (sql.select_kv s' bucket key_ts)
      → get_tailscale sql codec s' ≡ (trimmed_tailscale ts, none)
  unfolding get_tailscale put_tailscale
  get_tailscale-put_tailscale s s' ts stored readable =
      read_or-put_value no_tailscale read_tailscale s s' bucket key_ts (tailscale_row ts) refl
        stored readable
      ∙ ap (λ out. (out, none)) (read_tailscale-tailscale_row ts)

  -- After PutDatabase without an error, and unless the query fails, GetDatabase gives the settings
  -- with each text trimmed.
  pub get_database-put_database :
      (s s' : S) (db : Database)
      → put_database sql codec s db ≡ (s', none)
      → ¬ IsBroken (sql.select_kv s' bucket key_db)
      → get_database sql codec s' ≡ (trimmed_database db, none)
  unfolding get_database put_database
  get_database-put_database s s' db stored readable =
      read_or-put_value no_database read_database s s' bucket key_db (database_row db) refl stored
        readable
      ∙ ap (λ out. (out, none)) (read_database-database_row db)

  -- After PutGlobal without an error, and unless the query fails, GetGlobal gives the settings with
  -- each text trimmed, and 127.0.0.1:8090 where the trimmed listen address is empty.
  pub get_global-put_global :
      (s s' : S) (g : Global)
      → put_global sql codec s g ≡ (s', none)
      → ¬ IsBroken (sql.select_kv s' bucket key_global)
      → get_global sql codec s' ≡ (normal_global g, none)
  unfolding get_global put_global
  get_global-put_global s s' g stored readable =
      read_or-put_value no_global read_global s s' bucket key_global (global_row g) refl stored
        readable
      ∙ ap (λ out. (out, none)) (read_global-global_row g)

  -- After PutCluster without an error, and unless the query fails, GetCluster fills a structure with
  -- the settings, each text trimmed, but leaves the client's key of the structure as it was.
  pub get_cluster-put_cluster :
      (s s' : S) (cluster_id : Text) (cs out : Cluster)
      → put_cluster sql codec s cluster_id cs ≡ (s', none)
      → ¬ IsBroken (sql.select_kv s' bucket_clusters cluster_id)
      → get_cluster sql codec s' cluster_id out ≡ (trimmed_cluster out.ts_client_auth_key cs, none)
  unfolding put_cluster get_cluster
  get_cluster-put_cluster s s' cluster_id cs out stored readable =
      elim (Bool-cases (is_empty (trim_space cluster_id))) [
        | inl blank ↦ cc
        | inr named ↦
            rw (get_cluster, named)
              (read_or-put_value no_cluster (read_cluster out)
                  (put_client_key sql codec s cluster_id cs.ts_client_auth_key) s' bucket_clusters
                  cluster_id (cluster_row cs) refl (cc) readable
                ∙ ap (λ o. (o, none)) (read_cluster-cluster_row out cs))
      ]
