-- ===== src/Proxy/Target.antt =====
-- internal/proxy/reverse_proxy.go: the target of a request, up to the call of the reverse proxy of
-- net/http. `url.PathUnescape` and `net.SplitHostPort` are parameters.
use guild_net.Prelude.{
  ℕ, Bool, false, ◌&&◌, ◌||◌, not, Option, none, some, ◌∷◌, [], ◌++◌, Text, codes, text_eq_inst,
  nat_eq, ◌==◌, if◌then◌else◌, is_empty,
}
use guild_net.Prelude.Numbers.{ℤ, pos, atoi}
use guild_net.Prelude.Strings.{strip_prefix}
use guild_net.DbManager.{Result, ok, fail}
use guild_net.Proxy.{cut, is_port}
use guild_net.Proxy.Headers.{slash, starts_slash}

-- the parts of the request that choose the target
pub record ProxyRequest : Type 0 where
  pub path : Text
  pub query_to : Text
  pub query_path : Text
  pub query_scheme : Text

pub record Target : Type 0 where
  pub scheme : Text
  pub host : Text
  pub path : Text
  pub server_id : Text

-- `http.Error`, or the target that the request goes to
pub data Serve : Type 0 where
  refused : ℕ → Text → Serve
  forward : Target → Serve

-- `ResolveServer`, if there is one, and whether `APIProxy` is there
pub record Options : Type 0 where
  pub resolve_server : Option (Text → Text → Result (Text × (Text × Text)))
  pub has_api_proxy : Bool

-- up to the first slash, and from it; "/" where there is none
abbrev pub before_slash : Text → Option (Text × Text) → Text × Text
before_slash s none = (s, slash ∷ [])
before_slash s (some (a, b)) = (a, slash ∷ b)

abbrev pub cut_path : Text → Text × Text
cut_path s = before_slash s (cut slash s)

module _ (opts : Options) (path_unescape : Text → Result Text)
    (split_host_port : Text → Result (Text × Text)) where
  abbrev pub unescaped : Text → Result Text → Text
  unescaped s (fail e) = s
  unescaped s (ok t) = t

  abbrev pub resolved : Text → Result (Text × (Text × Text)) → Serve
  resolved id (fail e) = refused 502 (codes "server resolution failed: " ++ e)
  resolved id (ok (scheme, (hostport, path))) =
      forward (record { scheme = scheme; host = hostport; path = path; server_id = id })

  -- /proxy/server/{id}/<rest>
  abbrev pub server_form : (Text → Text → Result (Text × (Text × Text))) → Text → Serve
  server_form resolve rest =
      let (id, path) = cut_path rest in
      let id' = unescaped id (path_unescape id) in resolved id' (resolve id' path)

  -- /proxy/{to}/<rest>
  abbrev pub legacy_form : Text → Text → Serve
  legacy_form scheme suffix =
      let (to, path) = cut_path suffix in
      forward (record {
        scheme = scheme;
        host = unescaped to (path_unescape to);
        path = path;
        server_id = [];
      })

  abbrev pub suffix_form :
      Text → Text → Option Text → Option (Text → Text → Result (Text × (Text × Text))) → Serve
  suffix_form scheme suffix (some rest) (some resolve) = server_form resolve rest
  suffix_form scheme suffix _ _ = legacy_form scheme suffix

  -- the target as the query gives it
  abbrev pub from_query : ProxyRequest → Target
  from_query r = record {
    scheme = r.query_scheme;
    host = r.query_to;
    path = r.query_path;
    server_id = [];
  }

  abbrev pub from_path : ProxyRequest → Option Text → Serve
  from_path r none = forward (from_query r)
  from_path r (some suffix) =
      suffix_form r.query_scheme suffix (strip_prefix (codes "server/") suffix) opts.resolve_server

  abbrev pub chosen : ProxyRequest → Serve
  chosen r =
      let by_path = from_path r (strip_prefix (codes "/proxy/") r.path) in
      if is_empty r.query_to || is_empty r.query_path then by_path else forward (from_query r)

  abbrev pub skips_validation : Target → Bool
  skips_validation t = not (is_empty t.server_id) && opts.has_api_proxy

  abbrev pub is_secure_port : ℤ → Bool
  is_secure_port (pos n) = n == 443 || n == 8443
  is_secure_port _ = false

  abbrev pub default_scheme : Text → Text → Text
  default_scheme scheme other = if is_empty scheme then other else scheme

  abbrev pub with_port : Target → Option ℤ → Serve
  with_port t none = refused 400 (codes "invalid port")
  with_port t (some port) =
      let other = if is_secure_port port then codes "https" else codes "http" in
      if is_port port
      then forward (record t { scheme = default_scheme t.scheme other })
      else refused 400 (codes "invalid port")

  abbrev pub with_host_port : Target → Result (Text × Text) → Serve
  with_host_port t (fail e) = refused 400 (codes "invalid to")
  with_host_port t (ok (host, port)) = with_port t (atoi port)

  -- the port and the scheme, which a server behind the API proxy need not give
  abbrev pub validated : Target → Serve
  validated t =
      if skips_validation t
      then forward (record t { scheme = default_scheme t.scheme (codes "http") })
      else with_host_port t (split_host_port t.host)

  abbrev pub checked_scheme : Serve → Serve
  checked_scheme (refused status msg) = refused status msg
  checked_scheme (forward t) =
      if t.scheme == codes "http" || t.scheme == codes "https"
      then forward t
      else refused 400 (codes "invalid scheme")

  abbrev pub is_bad : Target → Bool
  is_bad t =
      is_empty t.path || (not (starts_slash t.path) || is_empty t.host && not (skips_validation t))

  abbrev pub checked_target : Serve → Serve
  checked_target (refused status msg) = refused status msg
  checked_target (forward t) =
      if is_bad t
      then refused 400 (codes "missing or invalid to/path")
      else checked_scheme (validated t)

  -- `ServeHTTP` up to the target URL
  unfoldable pub serve_target : ProxyRequest → Serve
  serve_target r = checked_target (chosen r)
