-- ===== src/Clusters/Fallback.antt =====
-- What a health check of a cluster does to the settings.
use guild_net.Prelude.{
  ℕ, Bool, true, false, Bool-cases, ◌||◌, not, Option, none, some, ◌≡◌, refl, sym, ap, ◌⊎◌, inl,
  inr, Text, is_empty, arith,
}
use mathlib.Core.Path.{subst}
use guild_net.Prelude.Strings.{trim_space}
use guild_net.DbManager.{Result, ok, fail}
use guild_net.LocalDb.{Sql}
use guild_net.Settings.Values.{Cluster, no_cluster, Codec}
use guild_net.Settings.{get_cluster, put_cluster}
use guild_net.Jobs.{Runner, Persist}
use guild_net.Deploy.{Outside}
use guild_net.Clusters.{Kube, read_kubeconfig}
use guild_net.Clusters.ApiProxy.{ClientConfig, env_proxy, fallback_settings, ensure_proxy_fallback}
use guild_net.Clusters.Routes.{
  retried, fallen_back, first_try, parsed_health, kubeconfig_health, health_in, cluster_health,
}

module _ {C S B : Type 0} (kube : Kube C) (ops : ClientConfig C) (sql : Sql S B) (codec : Codec B)
    (p : Persist S) (out : Outside B) (unicode_lower : ℕ → ℕ) (token : Text) where
  abbrev pub settings_of : S → Text → Cluster
  settings_of s id = (get_cluster sql codec s id no_cluster).0

  -- the environment has a proxy, and the settings neither have one nor forbid it
  abbrev pub IsOpen : S → Text → Type 0
  IsOpen s id =
      (is_empty (env_proxy unicode_lower ops) ≡ false)
      × ((settings_of s id).disable_api_proxy ≡ false)
      × (is_empty (trim_space (settings_of s id).api_proxy_url) ≡ true)

  -- the database is as it was, or has the settings of the fallback
  abbrev pub IsChecked : S → Text → S → Type 0
  IsChecked s id s' =
      (s' ≡ s)
      ⊎ (IsOpen s id
          × (s'
              ≡ (put_cluster sql codec s id
                  (fallback_settings unicode_lower ops sql codec (settings_of s id))).0))

  test_open : (e d u : Bool) → (e || (d || not u)) ≡ false → (e ≡ false) × (d ≡ false) × (u ≡ true)
  test_open e d u h = ground arith

  ensure_proxy_fallback-IsChecked :
      (s : S) (id : Text)
      → IsChecked s id (ensure_proxy_fallback unicode_lower ops sql codec s id).0
  unfolding ensure_proxy_fallback
  ensure_proxy_fallback-IsChecked s id =
      let cs = settings_of s id in
      elim (Bool-cases (
        is_empty (env_proxy unicode_lower ops)
        || (cs.disable_api_proxy || not (is_empty (trim_space cs.api_proxy_url))))) [
          | inl shut ↦ rw (shut, ensure_proxy_fallback) (inl refl)
          | inr free ↦ rw (free, ensure_proxy_fallback) (inr (test_open _ _ _ free, refl))
        ]

  retried-state :
      (s : S) (o : Option Text)
      → (retried kube ops sql codec p out unicode_lower token (s, o)).0 ≡ s
  retried-state s none = refl
  retried-state s (some e) = refl

  fallen_back-state :
      (id : Text) (cfg : C) (t : S × Bool)
      → (fallen_back kube ops sql codec p out unicode_lower token id cfg t).0 ≡ t.0
  fallen_back-state id cfg (s, true) = retried-state s _
  fallen_back-state id cfg (s, false) = refl

  first_try-IsChecked :
      (id : Text) (cfg : C) (s : S) (o : Option Text)
      → IsChecked s id (first_try kube ops sql codec p out unicode_lower token id cfg s o).0
  first_try-IsChecked id cfg s none = inl refl
  first_try-IsChecked id cfg s (some e) =
      subst (IsChecked s id) (sym (fallen_back-state id cfg _))
        (ensure_proxy_fallback-IsChecked s id)

  parsed_health-IsChecked :
      (id : Text) (s : S) (c : Result C)
      → IsChecked s id (parsed_health kube ops sql codec p out unicode_lower token id s c).0
  parsed_health-IsChecked id s (fail e) = inl refl
  parsed_health-IsChecked id s (ok cfg) = first_try-IsChecked id _ s _

  kubeconfig_health-IsChecked :
      (id : Text) (s : S) (kc : Option Text)
      → IsChecked s id (kubeconfig_health kube ops sql codec p out unicode_lower token id s kc).0
  kubeconfig_health-IsChecked id s none = inl refl
  kubeconfig_health-IsChecked id s (some kc) = parsed_health-IsChecked id s (kube.parse kc)

  -- A health check of a cluster leaves the database as it was, or it has stored the proxy of the
  -- environment in the settings of the cluster, and this only if they had none and do not forbid it;
  -- whatever the error of the first try was, and whatever that of the second.
  pub cluster_health-IsChecked :
      (id : Text) (r : Runner S) (s : S)
      → r.store ≡ some s
      → (s' : S) × ((cluster_health kube ops sql codec p out unicode_lower token id r).0.store
          ≡ some s')
        × IsChecked s id s'
  unfolding cluster_health
  cluster_health-IsChecked id r s at = (
    (kubeconfig_health kube ops sql codec p out unicode_lower token id s
        (read_kubeconfig kube sql p out unicode_lower token (some s) id)).0,
    ap (λ o. (health_in kube ops sql codec p out unicode_lower token id r o).0.store) at,
    kubeconfig_health-IsChecked id s _,
  )
