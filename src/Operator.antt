-- ===== src/Operator.antt =====
-- internal/operator/workspace_controller.go and api/v1alpha1/types.go: the deployment and the service
-- that a workspace asks for. Of the Kubernetes types these have the fields that the code sets or
-- reads. `ToLower` beyond ASCII is a parameter.
pub mod Verify
pub mod Exposure
pub mod Converge
use guild_net.Prelude.{
  ℕ, Bool, true, false, ◌&&◌, ◌||◌, not, Option, none, some, List, [], ◌∷◌, ◌++◌, Text, codes,
  text_eq_inst, nat_eq, ◌==◌, if◌then◌else◌, is_empty, map, any,
}
use guild_net.Prelude.Numbers.{ℤ, pos}
use guild_net.Prelude.Strings.{trim_space, contains, to_lower}

pub record WorkspacePort : Type 0 where
  pub container_port : ℤ
  pub name : Text
  pub protocol : Text

pub record WorkspaceExposure : Type 0 where
  pub type_name : Text
  pub domain : Text
  pub ingress_class : Text
  pub tls_issuer : Text

-- an environment variable that is given by its value
pub record EnvVar : Type 0 where
  pub name : Text
  pub value : Text

pub record WorkspaceSpec : Type 0 where
  pub image : Text
  pub env : List EnvVar
  pub ports : List WorkspacePort
  pub exposure : Option WorkspaceExposure
  pub presets_ref : Text
  pub notes : Text

pub record Probe : Type 0 where
  pub path : Text
  pub port : ℤ
  pub initial_delay_seconds : ℕ
  pub period_seconds : ℕ
  pub timeout_seconds : ℕ
  pub failure_threshold : ℕ
  pub success_threshold : ℕ

pub record SecurityContext : Type 0 where
  pub allow_privilege_escalation : Option Bool
  pub run_as_non_root : Option Bool
  pub dropped : List Text
  pub run_as_user : Option ℕ

-- `volume_mounts` are names and paths
pub record Container : Type 0 where
  pub name : Text
  pub image : Text
  pub env : List EnvVar
  pub command : List Text
  pub args : List Text
  pub ports : List WorkspacePort
  pub security_context : Option SecurityContext
  pub readiness_probe : Option Probe
  pub liveness_probe : Option Probe
  pub volume_mounts : List (Text × Text)

pub record PodSecurityContext : Type 0 where
  pub run_as_user : Option ℕ
  pub run_as_group : Option ℕ
  pub fs_group : Option ℕ

pub record PodSpec : Type 0 where
  pub containers : List Container
  pub init_containers : List Container
  pub volumes : List Text
  pub security_context : Option PodSecurityContext

abbrev pub or_default_port : List WorkspacePort → List WorkspacePort
or_default_port [] = record { container_port = pos 8080; name = codes "http"; protocol = [] } ∷ []
or_default_port (p ∷ ports) = p ∷ ports

-- `ports[0].ContainerPort`
abbrev pub first_port : List WorkspacePort → ℤ
first_port [] = pos 0
first_port (p ∷ ports) = p.container_port

abbrev pub named_env : List EnvVar → List EnvVar
named_env [] = []
named_env (e ∷ env) =
    let rest = named_env env in if is_empty (trim_space e.name) then rest else e ∷ rest

abbrev pub has_env : Text → List EnvVar → Bool
has_env name env = any (λ e. e.name == name) env

abbrev pub with_env : Bool → Text → Text → List EnvVar
with_env true name value = []
with_env false name value = record { name = name; value = value } ∷ []

abbrev pub probe : ℕ → ℕ → ℕ → ℕ → ℤ → Probe
probe delay period timeout failures port = record {
  path = codes "/";
  port = port;
  initial_delay_seconds = delay;
  period_seconds = period;
  timeout_seconds = timeout;
  failure_threshold = failures;
  success_threshold = 1;
}

abbrev pub security : Bool → SecurityContext
security escalation = record {
  allow_privilege_escalation = some escalation;
  run_as_non_root = some true;
  dropped = codes "ALL" ∷ [];
  run_as_user = none;
}

abbrev pub nginx_cache : List (Text × Text)
nginx_cache = (codes "nginx-cache", codes "/var/cache/nginx") ∷ []

abbrev pub init_container : Container
init_container = record {
  name = codes "workspace-init";
  image = codes "busybox:1.35.0";
  env = [];
  command =
      codes "sh"
      ∷ codes "-c"
      ∷ codes "chown -R 101:101 /var/cache/nginx || true; ls -ld /var/cache/nginx || true"
      ∷ [];
  args = [];
  ports = [];
  security_context = some (record {
    allow_privilege_escalation = none;
    run_as_non_root = none;
    dropped = [];
    run_as_user = some 0;
  });
  readiness_probe = none;
  liveness_probe = none;
  volume_mounts = nginx_cache;
}

-- backslash, r, backslash, n
abbrev pub escaped_crlf : Text
escaped_crlf = 92 ∷ b'r' ∷ 92 ∷ b'n' ∷ []

abbrev pub alpine_command : List Text
alpine_command =
    codes "/bin/sh"
    ∷ codes "-c"
    ∷ (codes "while true; do echo -e 'HTTP/1.1 200 OK"
        ++ (escaped_crlf
            ++ (codes "Content-Length:2"
                ++ (escaped_crlf ++ (escaped_crlf ++ codes "ok' | nc -l -p 8080 -w 1; done")))))
    ∷ []

abbrev pub pod_security : ℕ → PodSecurityContext
pod_security id = record { run_as_user = some id; run_as_group = some id; fs_group = some id }

module _ (unicode_lower : ℕ → ℕ) where
  abbrev pub image_has : Text → Text → Bool
  image_has part image = contains (to_lower unicode_lower image) part

  abbrev pub is_code_server : Text → Bool
  is_code_server image =
      image_has (codes "codercom/code-server") image || image_has (codes "code-server") image

  abbrev pub is_nginx : Text → Bool
  is_nginx image = image_has (codes "nginx") image

  abbrev pub is_alpine : Text → Bool
  is_alpine image = image_has (codes "alpine") image

  -- both defaults are looked up among the variables of the spec
  unfoldable pub container_env : WorkspaceSpec → List EnvVar
  container_env spec =
      let env = named_env spec.env in
      env
      ++ (with_env (has_env (codes "PORT") env) (codes "PORT") (codes "8080")
          ++ (if is_code_server spec.image
              then with_env (has_env (codes "PASSWORD") env) (codes "PASSWORD") (codes "changeme")
              else []))

  -- `workspaceContainer` as it is put into the pod
  abbrev pub workspace_container : WorkspaceSpec → Container
  workspace_container spec =
      let ports = or_default_port spec.ports in
      record {
        name = codes "workspace";
        image = spec.image;
        env = container_env spec;
        command = if is_alpine spec.image then alpine_command else [];
        args =
            if is_code_server spec.image
            then codes "--bind-addr" ∷ codes "0.0.0.0:8080" ∷ codes "--auth" ∷ codes "password" ∷ []
            else [];
        ports = ports;
        security_context = some (security (is_code_server spec.image));
        readiness_probe = some (probe 10 5 3 12 (first_port ports));
        liveness_probe =
            some (probe 60 15 5 (if is_alpine spec.image then 3 else 4) (first_port ports));
        volume_mounts = nginx_cache;
      }

  -- the security context of the pod
  abbrev pub desired_security : WorkspaceSpec → PodSecurityContext
  desired_security spec = pod_security (if is_nginx spec.image then 101 else 1000)

  -- The pod's list has a copy of the container, which the changes for nginx after it do not reach.
  unfoldable pub desired_pod : WorkspaceSpec → PodSpec
  desired_pod spec = record {
    containers = workspace_container spec ∷ [];
    init_containers = init_container ∷ [];
    volumes = codes "nginx-cache" ∷ [];
    security_context = some (desired_security spec);
  }

  -- `workspaceContainer.Image` after those changes, which is what the verification expects
  abbrev pub desired_image : Text → Text
  desired_image image =
      if is_nginx image && not (image_has (codes "unprivileged") image)
      then codes "nginxinc/nginx-unprivileged:1.25"
      else image
