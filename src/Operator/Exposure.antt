-- ===== src/Operator/Exposure.antt =====
-- internal/operator/workspace_controller.go: the type of a workspace's service, the operator's default
-- of it, and the status that the workspace gets. An environment variable that is not set is empty.
use guild_net.Prelude.{
  ℕ, zero, suc, Bool, true, false, ◌&&◌, ◌||◌, not, Bool-cases, Option, none, some, List, [], ◌∷◌,
  ◌++◌, ◌≡◌, refl, ap, ◌∙◌, ◌⊎◌, inl, inr, Text, codes, text_eq, text_eq_inst, text_eq_iff, nat_eq,
  ◌==◌, if◌then◌else◌, arith, is_empty,
}
use guild_net.Prelude.Strings.{trim_space, to_lower}
use guild_net.Operator.{WorkspaceExposure}

abbrev pub load_balancer : Text
load_balancer = codes "LoadBalancer"

abbrev pub cluster_ip : Text
cluster_ip = codes "ClusterIP"

-- `svc.Spec.Type`
abbrev pub service_type : Option WorkspaceExposure → Bool → Text
service_type none default_lb = if default_lb then load_balancer else cluster_ip
service_type (some e) default_lb =
    if e.type_name == load_balancer then load_balancer else cluster_ip

abbrev pub phase_of : Bool → ℕ → Text
phase_of true ready = codes "Terminating"
phase_of false zero = codes "Pending"
phase_of false (suc n) = codes "Running"

module _ (unicode_lower : ℕ → ℕ) where
  abbrev pub normal : Text → Text
  normal v = to_lower unicode_lower (trim_space v)

  abbrev pub is_yes : Text → Bool
  is_yes v = v == codes "1" || (v == codes "true" || v == codes "yes")

  abbrev pub is_no : Text → Bool
  is_no v = v == codes "0" || (v == codes "false" || v == codes "no")

  -- `defaultLB` of a reconciliation: the cached default, or the environment's
  unfoldable pub default_lb : Bool → Text → Bool
  default_lb cached env = if not cached then is_yes (normal env) else cached

  -- one reading of the poll loop: the key's text, empty where the ConfigMap cannot be read
  abbrev pub poll_text : Text → Text
  poll_text v = if is_yes v then codes "true" else (if is_no v then codes "false" else v)

  abbrev pub or_env : Text → Text → Text
  or_env env v =
      if is_empty v then (if is_yes (normal env) then codes "true" else codes "false") else v

  unfoldable pub polled : Text → Text → Text
  polled config env = or_env env (poll_text (normal config))

  -- `DefaultLB` and `last` after a reading, and whether the workspaces are patched
  abbrev pub poll_round : Text → Bool → Text → Text → Bool × (Text × Bool)
  poll_round last cached config env =
      let v = polled config env in
      if v == last then (cached, (last, false)) else (v == codes "true", (v, true))

  abbrev pub poll_rounds : List (Text × Text) → Bool × Text → Bool × Text
  poll_rounds [] (cached, last) = (cached, last)
  poll_rounds ((config, env) ∷ readings) (cached, last) =
      let (cached', (last', patched)) = poll_round last cached config env in
      poll_rounds readings (cached', last')

  -- The cached default is that of the last reading, if there was one.
  abbrev IsCurrent : Bool → Text → Type 0
  IsCurrent cached last = (is_empty last ≡ true) ⊎ (cached ≡ (last == codes "true"))

  polled_filled : (config env : Text) → is_empty (polled config env) ≡ false
  unfolding polled text_eq
  polled_filled config env = filled (normal config)
    where
      filled : (v : Text) → is_empty (or_env env (poll_text v)) ≡ false
      filled [] = ground arith
      filled (c ∷ s) = ground arith

  cached-poll_round :
      (last config env : Text) (cached : Bool)
      → IsCurrent cached last
      → (poll_round last cached config env).0 ≡ (polled config env == codes "true")
  cached-poll_round last config env cached h = elim (Bool-cases (polled config env == last)) [
    | inr other ↦ rw other refl
    | inl same ↦ rw same (elim h [
      | inl first ↦ ground (arith, polled_filled config env, text_eq_iff (polled config env) last)
      | inr current ↦ ground (arith, text_eq_iff (polled config env) last)
    ])
  ]

  poll_round-IsCurrent :
      (last config env : Text) (cached : Bool)
      → IsCurrent cached last
      → IsCurrent (poll_round last cached config env).0 (poll_round last cached config env).1.0
  poll_round-IsCurrent last config env cached h = elim (Bool-cases (polled config env == last)) [
    | inl same ↦ rw same h
    | inr other ↦ rw other (inr refl)
  ]

  or_env-poll_text :
      (env v : Text)
      → (or_env env (poll_text v) == codes "true")
        ≡ (is_yes v || (is_empty v && is_yes (normal env)))
  unfolding text_eq
  or_env-poll_text env [] = ground arith
  or_env-poll_text env (c ∷ s) = ground (arith, text_eq_iff (c ∷ s) (codes "true"))

  default_lb-or :
      (cached : Bool) (env : Text) → default_lb cached env ≡ (cached || is_yes (normal env))
  unfolding default_lb
  default_lb-or true env = refl
  default_lb-or false env = refl

  default_lb-poll_round :
      (last config env : Text) (cached : Bool)
      → IsCurrent cached last
      → default_lb (poll_round last cached config env).0 env
        ≡ (is_yes (normal config) || is_yes (normal env))
  unfolding polled
  default_lb-poll_round last config env cached h =
      default_lb-or (poll_round last cached config env).0 env
      ∙ (ap (λ b. b || is_yes (normal env))
            (cached-poll_round last config env cached h ∙ or_env-poll_text env (normal config))
          ∙ absorbed (is_yes (normal config)) (is_empty (normal config)) (is_yes (normal env)))
    where
      absorbed : (a b c : Bool) → ((a || (b && c)) || c) ≡ (a || c)
      absorbed true b c = refl
      absorbed false true true = refl
      absorbed false true false = refl
      absorbed false false c = refl

  default_lb-readings :
      (readings : List (Text × Text)) (last config env : Text) (cached : Bool)
      → IsCurrent cached last
      → default_lb (poll_rounds (readings ++ (config, env) ∷ []) (cached, last)).0 env
        ≡ (is_yes (normal config) || is_yes (normal env))
  default_lb-readings [] last config env cached h = default_lb-poll_round last config env cached h
  default_lb-readings ((c, e) ∷ readings) last config env cached h =
      default_lb-readings readings (poll_round last cached c e).1.0 config env
        (poll_round last cached c e).0 (poll_round-IsCurrent last c e cached h)

  -- After any readings of the ConfigMap, the last of them among these, the default of a reconciliation
  -- with the environment of that reading is a load balancer if the ConfigMap or the environment says
  -- yes: a ConfigMap that says no does not turn off an environment that says yes.
  default_lb-poll_rounds :
      (readings : List (Text × Text)) (config env : Text) (cached : Bool)
      → default_lb (poll_rounds (readings ++ (config, env) ∷ []) (cached, [])).0 env
        ≡ (is_yes (normal config) || is_yes (normal env))
  default_lb-poll_rounds readings config env cached =
      default_lb-readings readings [] config env cached (inl refl)
