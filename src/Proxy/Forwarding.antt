-- ===== src/Proxy/Forwarding.antt =====
-- Which requests the proxy forwards.
use guild_net.Prelude.{
  ℕ, zero, suc, ◌≤◌, Bool, true, ◌||◌, Bool-cases, Option, none, some, ◌≡◌, refl, ap, ◌∙◌, ◌⊎◌, inl,
  inr, Text, codes, text_eq_inst, nat_eq, ◌==◌, arith,
}
use guild_net.Prelude.Numbers.{ℤ, pos, negsuc, atoi}
use guild_net.DbManager.{Result, ok, fail}
use guild_net.Proxy.{is_port}
use guild_net.Proxy.Headers.{starts_slash}
use guild_net.Proxy.Target.{
  ProxyRequest, Target, Serve, refused, forward, Options, chosen, skips_validation, is_bad,
  with_port, with_host_port, validated, checked_scheme, checked_target, serve_target,
}

abbrev pub is_web : Text → Bool
is_web scheme = scheme == codes "http" || scheme == codes "https"

module _ (opts : Options) (path_unescape : Text → Result Text)
    (split_host_port : Text → Result (Text × Text)) where
  -- The host is followed by a port between 1 and 65535, or it is left to the API proxy.
  abbrev pub HasPort : Target → Type 0
  HasPort t =
      (skips_validation opts path_unescape split_host_port t ≡ true)
      ⊎ ((hp : Text × Text) × (n : ℕ) × (split_host_port t.host ≡ ok hp)
          × (atoi hp.1 ≡ some (pos n))
          × (1 ≤ n)
          × (n ≤ 65535))

  abbrev pub IsSound : Serve → Type 0
  IsSound (refused status msg) = Unit
  IsSound (forward t) = (is_web t.scheme ≡ true) × (starts_slash t.path ≡ true) × HasPort t

  -- what the validation leaves: the path as it was, and a port
  abbrev Validated : Text → Serve → Type 0
  Validated path (refused status msg) = Unit
  Validated path (forward t) = (t.path ≡ path) × HasPort t

  with_port-Validated :
      (t : Target) (hp : Text × Text) (port : Option ℤ)
      → split_host_port t.host ≡ ok hp
      → atoi hp.1 ≡ port
      → Validated t.path (with_port opts path_unescape split_host_port t port)
  with_port-Validated t hp none h e = tt
  with_port-Validated t hp (some (negsuc n)) h e = tt
  with_port-Validated t hp (some (pos zero)) h e = tt
  with_port-Validated t hp (some (pos (suc n))) h e = elim (Bool-cases (is_port (pos (suc n)))) [
    | inl fine ↦ rw fine (refl, inr (hp, suc n, h, e, omega arith, ground arith))
    | inr bad ↦ rw bad tt
  ]

  with_host_port-Validated :
      (t : Target) (hp : Result (Text × Text))
      → split_host_port t.host ≡ hp
      → Validated t.path (with_host_port opts path_unescape split_host_port t hp)
  with_host_port-Validated t (fail e) h = tt
  with_host_port-Validated t (ok hp) h = with_port-Validated t hp (atoi hp.1) h refl

  validated-Validated :
      (t : Target) → Validated t.path (validated opts path_unescape split_host_port t)
  validated-Validated t =
      elim (Bool-cases (skips_validation opts path_unescape split_host_port t)) [
        | inl skips ↦ rw skips (refl, inl skips)
        | inr checks ↦ rw checks (with_host_port-Validated t (split_host_port t.host) refl)
      ]

  checked_scheme-IsSound :
      (path : Text) (s : Serve)
      → starts_slash path ≡ true
      → Validated path s
      → IsSound (checked_scheme opts path_unescape split_host_port s)
  checked_scheme-IsSound path (refused status msg) rooted v = tt
  checked_scheme-IsSound path (forward t) rooted (same, port) =
      elim (Bool-cases (is_web t.scheme)) [
        | inl web ↦ rw web (web, ap starts_slash same ∙ rooted, port)
        | inr other ↦ rw other tt
      ]

  checked_target-IsSound :
      (s : Serve) → IsSound (checked_target opts path_unescape split_host_port s)
  checked_target-IsSound (refused status msg) = tt
  checked_target-IsSound (forward t) =
      elim (Bool-cases (is_bad opts path_unescape split_host_port t)) [
        | inl bad ↦ rw bad tt
        | inr good ↦ rw good (
            checked_scheme-IsSound t.path (validated opts path_unescape split_host_port t)
              (ground arith) (validated-Validated t))
      ]

  -- A request that the proxy forwards goes to a URL with the scheme http or https and a path that
  -- starts with a slash, and its host is followed by a port between 1 and 65535, unless a server's
  -- id was resolved and the API proxy is there, whatever the request and the resolver's answer are.
  pub serve_target-IsSound :
      (r : ProxyRequest) → IsSound (serve_target opts path_unescape split_host_port r)
  unfolding serve_target
  serve_target-IsSound r = checked_target-IsSound (chosen opts path_unescape split_host_port r)
