-- ===== src/Tests/Workspaces.antt =====
-- The operator at a workspace with an nginx image.
use guild_net.Prelude.{ℕ, none, [], ◌≡◌, refl, codes, if◌then◌else◌}
use guild_net.DbManager.{ok}
use guild_net.Operator.{WorkspaceSpec, PodSpec, is_nginx, desired_pod}
use guild_net.Operator.Verify.{DeploymentApi, ensure_pod}
use guild_net.Operator.Converge.{Serves, reapplied, ensure_pod-desired_pod}

abbrev same : ℕ → ℕ
same c = c

abbrev web : WorkspaceSpec
web = record {
  image = codes "nginx:1.25";
  env = [];
  ports = [];
  exposure = none;
  presets_ref = [];
  notes = [];
}

-- a cluster that holds one deployment, as it is written
abbrev one_deployment : DeploymentApi PodSpec
one_deployment = record { get_pod = λ s. ok s; reapply = λ p s. (p, none); recreate = λ p s. p }

one_deployment-Serves : Serves same web one_deployment
one_deployment-Serves = record { gets = λ s. (s, refl); reapplies = λ p s. refl }

ensure_pod-desired_pod_example : ensure_pod same web one_deployment (desired_pod same web) ≡ (
    if is_nginx same web.image
    then reapplied same web one_deployment 5 (desired_pod same web)
    else desired_pod same web)
ensure_pod-desired_pod_example =
    ensure_pod-desired_pod same web one_deployment (desired_pod same web) one_deployment-Serves
      (λ p s. refl) refl

-- the ConfigMap is read as yes, then as no, with an environment that says yes
