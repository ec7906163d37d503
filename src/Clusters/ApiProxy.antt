-- ===== src/Clusters/ApiProxy.antt =====
-- `applyClusterAPIProxy` and `ensureProxyFallbackOnTimeout` of internal/api/router.go: the proxy through
-- which the API server of a cluster is reached.
use guild_net.Prelude.{
  ℕ, Bool, true, false, ◌&&◌, ◌||◌, not, Option, none, some, ◌++◌, Text, codes, is_empty,
  if◌then◌else◌,
}
use guild_net.Prelude.Strings.{trim_space, has_prefix, to_lower}
use guild_net.LocalDb.{Sql}
use guild_net.Settings.Values.{Cluster, no_cluster, Codec}
use guild_net.Settings.{get_cluster, put_cluster}

-- What the code reads and writes of a rest.Config; `as_http` is the URL with the scheme http, or none
-- if it is not parsed; `proxy_addr` is the environment's KUBE_PROXY_ADDR.
pub record ClientConfig (C : Type 0) : Type 0 where
  pub host : C → Text
  pub with_host : Text → C → C
  pub without_tls : C → C
  pub as_http : Text → Option Text
  pub proxy_addr : Text

abbrev pub is_url : Text → Bool
is_url v = has_prefix (codes "http://") v || has_prefix (codes "https://") v

abbrev pub as_url : Text → Text
as_url v = if is_url v then v else codes "http://" ++ v

module _ {C : Type 0} (unicode_lower : ℕ → ℕ) (ops : ClientConfig C) where
  abbrev pub env_proxy : Text
  env_proxy = trim_space ops.proxy_addr

  -- the settings' proxy, or that of the environment
  abbrev pub proxy_host : Cluster → Text
  proxy_host cs =
      let host = trim_space cs.api_proxy_url in
      if is_empty host && (not cs.disable_api_proxy && not (is_empty env_proxy))
      then as_url env_proxy
      else host

  abbrev pub with_proxy : Text → C → C
  with_proxy host cfg =
      if is_empty host
      then cfg
      else if has_prefix (codes "http://") (to_lower unicode_lower host)
      then ops.without_tls (ops.with_host host cfg)
      else ops.with_host host cfg

  abbrev pub with_scheme : C → Option Text → C
  with_scheme cfg none = cfg
  with_scheme cfg (some url) = ops.with_host url cfg

  abbrev pub forced : Bool → C → C
  forced true cfg = with_scheme cfg (ops.as_http (ops.host cfg))
  forced false cfg = cfg

  unfoldable pub proxied : Cluster → C → C
  proxied cs cfg = forced cs.api_proxy_force_http (with_proxy (proxy_host cs) cfg)

  module _ {S B : Type 0} (sql : Sql S B) (codec : Codec B) where
    unfoldable pub apply_api_proxy : S → Text → C → C
    unfolding proxied
    apply_api_proxy s id cfg = proxied (get_cluster sql codec s id no_cluster).0 cfg

    -- the settings that the fallback stores
    abbrev pub fallback_settings : Cluster → Cluster
    fallback_settings cs = record cs {
      api_proxy_url = as_url env_proxy;
      api_proxy_force_http = true;
    }

    -- the database, and whether the settings were modified
    unfoldable pub ensure_proxy_fallback : S → Text → S × Bool
    ensure_proxy_fallback s id =
        let cs = (get_cluster sql codec s id no_cluster).0 in
        if is_empty env_proxy
          || (cs.disable_api_proxy || not (is_empty (trim_space cs.api_proxy_url)))
        then (s, false)
        else ((put_cluster sql codec s id (fallback_settings cs)).0, true)
