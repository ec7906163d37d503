-- ===== src/Clusters/Routes.antt =====
-- internal/api/router.go: the routes below /api/deploy/clusters/.
use guild_net.Prelude.{
  ℕ, ◌^◌, Bool, true, false, Option, none, some, [], ◌∷◌, ◌++◌, Text, codes, is_empty,
  if◌then◌else◌, text_eq_inst, ◌==◌,
}
use guild_net.Prelude.Strings.{trim_space, trim_prefix}
use guild_net.Json.{bool, num, obj, str, Row, to_members}
use guild_net.DbManager.{Result, ok, fail}
use guild_net.LocalDb.{Sql, get_value, delete_value}
use guild_net.Settings.Values.{Cluster, no_cluster, Tailscale, Codec, index, as_string}
use guild_net.Settings.{get_cluster, get_tailscale}
use guild_net.Headscale.{with_store}
use guild_net.Jobs.{Runner, Persist}
use guild_net.Deploy.{
  Verb, get_verb, post_verb, delete_verb, ApiRequest, Reply, plain, status, json, aborted, Outside,
  not_allowed, guarded_by, submitted, job_id, with_id,
}
use guild_net.Deploy.Headscales.{trim_both, shown}
use guild_net.Clusters.{Kube, read_kubeconfig, attach_kubeconfig}
use guild_net.Clusters.ApiProxy.{ClientConfig, apply_api_proxy, ensure_proxy_fallback}

-- what a request has beside an `ApiRequest`, and the certificate of the server, if it is there
pub record Origin : Type 0 where
  pub https : Bool
  pub req_host : Text
  pub ca_pem : Option Text

-- 2.0 as a float64
abbrev pub join_version : ℕ
join_version = 2 ^ 62

abbrev pub clusters_prefix : Text
clusters_prefix = codes "/api/deploy/clusters/"

abbrev pub ca_entry : Option Text → Row
ca_entry none = []
ca_entry (some pem) = (codes "ca_pem", str pem) ∷ []

abbrev pub or_local : Text → Text
or_local [] = codes "127.0.0.1:8090"
or_local (c ∷ host) = c ∷ host

abbrev pub base_url : Origin → Text
base_url o =
    (if o.https then codes "https" else codes "http") ++ (codes "://" ++ or_local o.req_host)

-- an entry that is left out for a value that is empty or false
abbrev pub text_entry : Text → Text → Row
text_entry k [] = []
text_entry k (c ∷ v) = (k, str (c ∷ v)) ∷ []

abbrev pub flag_entry : Text → Bool → Row
flag_entry k false = []
flag_entry k true = (k, bool true) ∷ []

abbrev pub kubeconfig_text : Option Text → Text
kubeconfig_text none = []
kubeconfig_text (some kc) = kc

abbrev pub join_cluster : Option Text → Cluster → Row
join_cluster kc cs =
    (codes "name", str cs.name)
    ∷ ((codes "kubeconfig", str (kubeconfig_text kc))
        ∷ ((codes "notes", str [])
            ∷ (text_entry (codes "namespace") cs.namespace
                ++ (text_entry (codes "api_proxy_url") cs.api_proxy_url
                    ++ (flag_entry (codes "api_proxy_force_http") cs.api_proxy_force_http
                        ++ (flag_entry (codes "disable_api_proxy") cs.disable_api_proxy
                            ++ (flag_entry (codes "prefer_pod_proxy") cs.prefer_pod_proxy
                                ++ (flag_entry (codes "use_port_forward") cs.use_port_forward
                                    ++ (text_entry (codes "ingress_domain") cs.ingress_domain
                                        ++ (text_entry (codes "ingress_class_name")
                                              cs.ingress_class_name
                                            ++ (text_entry (codes "workspace_tls_secret")
                                                  cs.workspace_tls_secret
                                                ++ text_entry (codes "cert_manager_issuer")
                                                    cs.cert_manager_issuer)))))))))))

-- the key of the cluster's credentials, if it is not blank
abbrev pub or_preauth : Text → Text → Text
or_preauth preauth key = if is_empty (trim_space key) then preauth else key

abbrev pub stored_key : Text → Result (Option Row) → Text
stored_key preauth (ok (some cred)) = or_preauth preauth (as_string (index cred (codes "value")))
stored_key preauth _ = preauth

abbrev pub join_tailscale : Tailscale → Result (Option Row) → Row
join_tailscale ts cred =
    (codes "login_server", str ts.login_server)
    ∷ ((codes "preauth_key", str (stored_key ts.preauth_key cred))
        ∷ ((codes "hostname", str ts.hostname) ∷ []))

abbrev pub unknown : Text → Row
unknown code = (codes "status", str (codes "unknown")) ∷ ((codes "code", str code) ∷ [])

abbrev pub unreachable : Row
unreachable =
    (codes "status", str (codes "error")) ∷ ((codes "code", str (codes "cluster_unreachable")) ∷ [])

module _ {C S B : Type 0} (kube : Kube C) (ops : ClientConfig C) (sql : Sql S B) (codec : Codec B)
    (p : Persist S) (out : Outside B) (unicode_lower : ℕ → ℕ) (token : Text) where
  abbrev pub joined : Text → Origin → Option S → Reply
  joined id o none = aborted
  joined id o (some s) = json 200 (
      (codes "version", num join_version)
      ∷ ((codes "created_at", str out.stamp)
          ∷ ((
            codes "creator",
            obj (to_members ((codes "host", str o.req_host) ∷ ((codes "user", str []) ∷ []))),
          )
              ∷ ((
                codes "ui",
                obj (to_members ((codes "vite_api_base", str (base_url o)) ∷ ca_entry o.ca_pem)),
              )
                  ∷ ((
                    codes "hostapp",
                    obj (to_members ((codes "url", str (base_url o)) ∷ ca_entry o.ca_pem)),
                  )
                      ∷ ((
                        codes "cluster",
                        obj (
                            to_members (
                              join_cluster
                                (read_kubeconfig kube sql p out unicode_lower token (some s) id)
                                (get_cluster sql codec s id no_cluster).0)),
                      )
                          ∷ ((
                            codes "tailscale",
                            obj (
                                to_members (
                                  join_tailscale (get_tailscale sql codec s).0 (
                                    get_value sql out.unmarshal s (codes "credentials")
                                      (codes "cl:" ++ (id ++ codes ":ts_client_auth"))))),
                          )
                              ∷ [])))))))

  -- the second try, after the fallback
  abbrev pub retried : S × Option Text → S × Reply
  retried (s, none) = (
    s,
    json 200 (
        (codes "status", str (codes "ok"))
        ∷ ((codes "note", str (codes "proxy_fallback_enabled")) ∷ [])),
  )
  retried (s, some e) = (s, json 200 (unreachable ++ (codes "error", str e) ∷ []))

  abbrev pub fallen_back : Text → C → S × Bool → S × Reply
  fallen_back id cfg (s, true) =
      retried (s, kube.healthy 1 (apply_api_proxy unicode_lower ops sql codec s id cfg))
  fallen_back id cfg (s, false) = (s, json 200 unreachable)

  abbrev pub first_try : Text → C → S → Option Text → S × Reply
  first_try id cfg s none = (s, json 200 ((codes "status", str (codes "ok")) ∷ []))
  first_try id cfg s (some e) =
      fallen_back id cfg (ensure_proxy_fallback unicode_lower ops sql codec s id)

  abbrev pub parsed_health : Text → S → Result C → S × Reply
  parsed_health id s (fail e) =
      (s, json 200 (unknown (codes "bad_kubeconfig") ++ (codes "error", str e) ∷ []))
  parsed_health id s (ok cfg) =
      let cfg' = apply_api_proxy unicode_lower ops sql codec s id cfg in
      first_try id cfg' s (kube.healthy 0 cfg')

  abbrev pub kubeconfig_health : Text → S → Option Text → S × Reply
  kubeconfig_health id s none = (s, json 200 (unknown (codes "no_kubeconfig")))
  kubeconfig_health id s (some kc) = parsed_health id s (kube.parse kc)

  abbrev pub with_state : Runner S → S × Reply → Runner S × Reply
  with_state r (s, reply) = (record r { store = some s }, reply)

  abbrev pub health_in : Text → Runner S → Option S → Runner S × Reply
  health_in id r none = (r, json 200 (unknown (codes "no_kubeconfig")))
  health_in id r (some s) =
      with_state r
        (kubeconfig_health id s (read_kubeconfig kube sql p out unicode_lower token (some s) id))

  -- the action health
  unfoldable pub cluster_health : Text → Runner S → Runner S × Reply
  cluster_health id r = health_in id r r.store

  abbrev pub yaml_or_missing : Option Text → Reply
  yaml_or_missing none = status 404
  yaml_or_missing (some kc) = plain 200 kc

  abbrev pub cluster_action_of : Text → ApiRequest → Text
  cluster_action_of id req =
      let action = trim_space (req.query (codes "action")) in
      if is_empty action then trim_both (trim_prefix (clusters_prefix ++ id) req.path) else action

  unfoldable pub cluster_action : Text → Text → Origin → ApiRequest → Runner S → Runner S × Reply
  cluster_action id action o req r =
      if action == codes "attach-kubeconfig"
      then attach_kubeconfig kube sql p out unicode_lower token id (kube.kubeconfig_of req.body) r
      else if action == codes "join-config"
      then (r, joined id o r.store)
      else if action == codes "health"
      then cluster_health id r
      else if action == codes "kubeconfig"
      then (r, yaml_or_missing (read_kubeconfig kube sql p out unicode_lower token r.store id))
      else submitted sql p out unicode_lower token (codes "cluster." ++ action)
          ((codes "id", str id) ∷ []) (json 202 (job_id sql p out unicode_lower token)) r

  abbrev pub find_cluster : Text → Option S → Result (Option Row)
  find_cluster id none = fail (codes "no db")
  find_cluster id (some s) = get_value sql out.unmarshal s (codes "clusters") id

  abbrev pub cluster_verb : Verb → Text → Origin → ApiRequest → Runner S → Runner S × Reply
  cluster_verb get_verb id o req r =
      (r, shown sql p out unicode_lower token (find_cluster id r.store))
  cluster_verb delete_verb id o req r = guarded_by sql p out unicode_lower token req r (
    with_store (λ s. (delete_value sql s (codes "clusters") id).0) r,
    json 200 ((codes "deleted", str id) ∷ []),
  )
  cluster_verb post_verb id o req r =
      guarded_by sql p out unicode_lower token req r
        (cluster_action id (cluster_action_of id req) o req r)
  cluster_verb _ id o req r = (r, not_allowed)

  -- /api/deploy/clusters/{id}
  unfoldable pub handle_cluster : Origin → ApiRequest → Runner S → Runner S × Reply
  handle_cluster o req r =
      let id = trim_prefix clusters_prefix req.path in
      with_id sql p out unicode_lower token id r (cluster_verb req.verb id o req r)
