-- ===== src/Operator/Verify.antt =====
-- internal/operator/workspace_controller.go: the verification of the live deployment after its update.
-- The calls of the Kubernetes API are the operations of `DeploymentApi`.
use guild_net.Prelude.{
  ℕ, zero, suc, Bool, true, false, ◌&&◌, ◌||◌, not, Option, none, some, List, [], ◌∷◌, Text, codes,
  text_eq_inst, nat_eq, ◌==◌, if◌then◌else◌,
}
use guild_net.DbManager.{Result, ok, fail}
use guild_net.Operator.{
  WorkspaceSpec, SecurityContext, Container, PodSecurityContext, PodSpec, is_nginx,
  desired_security, desired_pod, desired_image,
}

-- The pod template of the live deployment; the update of it to another, tried again on a conflict;
-- and the deletion and creation of the deployment.
pub record DeploymentApi (S : Type 0) : Type 0 where
  pub get_pod : S → Result PodSpec
  pub reapply : PodSpec → S → S × Option Text
  pub recreate : PodSpec → S → S

-- `cmpInt64`
abbrev pub same_id : Option ℕ → Option ℕ → Bool
same_id none none = true
same_id (some a) (some b) = a == b
same_id _ _ = false

abbrev pub same_security : PodSecurityContext → Option PodSecurityContext → Bool
same_security want none = false
same_security want (some live) =
    same_id want.run_as_user live.run_as_user
    && (same_id want.run_as_group live.run_as_group && same_id want.fs_group live.fs_group)

abbrev pub find_workspace : List Container → Option Container
find_workspace [] = none
find_workspace (c ∷ cs) = if c.name == codes "workspace" then some c else find_workspace cs

abbrev pub has_context : Option SecurityContext → Bool
has_context none = false
has_context (some sc) = true

abbrev pub has_container : List Container → Bool
has_container [] = false
has_container (c ∷ cs) = true

module _ (unicode_lower : ℕ → ℕ) (spec : WorkspaceSpec) where
  abbrev pub container_differs : Option Container → Bool
  container_differs none = true
  container_differs (some c) =
      not (c.image == desired_image unicode_lower spec.image)
      || (if is_nginx unicode_lower spec.image
          then has_context c.security_context
          else not (has_context c.security_context))

  -- `needFix`
  unfoldable pub needs_fix : PodSpec → Bool
  needs_fix live =
      not (has_container live.init_containers)
      || (not (same_security (desired_security unicode_lower spec) live.security_context)
          || container_differs (find_workspace live.containers))

  module _ {S : Type 0} (api : DeploymentApi S) where
    abbrev pub or_error : Option Text → Option Text → Option Text
    or_error (some e) err = some e
    or_error none err = err

    abbrev pub after_reapply :
        (Option Text → S → S × Option Text) → Option Text → S × Option Text → S × Option Text
    after_reapply next err (s, failed) = next (or_error failed err) s

    -- one attempt, which goes on with the next one
    abbrev pub attempt :
        (Option Text → S → S × Option Text) → Option Text → S → Result PodSpec → S × Option Text
    attempt next err s (fail e) = next (some e) s
    attempt next err s (ok live) =
        if needs_fix live
        then after_reapply next err (api.reapply (desired_pod unicode_lower spec) s)
        else (s, none)

    -- `finalErr` and the state after the attempts
    unfoldable pub verify_loop : ℕ → Option Text → S → S × Option Text
    verify_loop zero err s = (s, err)
    verify_loop (suc n) err s = attempt (verify_loop n) err s (api.get_pod s)

    abbrev pub or_recreate : S × Option Text → S
    or_recreate (s, none) = s
    or_recreate (s, some e) = api.recreate (desired_pod unicode_lower spec) s

    unfoldable pub ensure_pod : S → S
    ensure_pod s = or_recreate (verify_loop 5 none s)
