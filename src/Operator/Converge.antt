-- ===== src/Operator/Converge.antt =====
-- When the verification of a deployment settles.
use guild_net.Prelude.{
  ℕ, zero, suc, ◌≤◌, true, false, Bool-cases, none, ◌≡◌, refl, ap, ◌∙◌, inl, inr, text_eq,
  text_eq_inst, text_eq_iff, nat_eq, if◌then◌else◌, arith,
}
use guild_net.DbManager.{ok}
use guild_net.Operator.{WorkspaceSpec, PodSpec, is_nginx, desired_pod}
use guild_net.Operator.Verify.{DeploymentApi, needs_fix, verify_loop, or_recreate, ensure_pod}

module _ (unicode_lower : ℕ → ℕ) (spec : WorkspaceSpec) where
  -- The template that the operator writes is one that its verification accepts exactly if the image
  -- is not an nginx image.
  needs_fix-desired_pod :
      needs_fix unicode_lower spec (desired_pod unicode_lower spec)
      ≡ is_nginx unicode_lower spec.image
  unfolding needs_fix desired_pod text_eq
  needs_fix-desired_pod = ground (arith, text_eq_iff spec.image spec.image)

  module _ {S : Type 0} (api : DeploymentApi S) where
    -- that many updates to the operator's template
    abbrev pub reapplied : ℕ → S → S
    reapplied zero s = s
    reapplied (suc n) s = reapplied n (api.reapply (desired_pod unicode_lower spec) s).0

    -- No call of the API fails.
    pub record Serves : Type 0 where
      pub gets : (s : S) → (live : PodSpec) × (api.get_pod s ≡ ok live)
      pub reapplies : (p : PodSpec) (s : S) → (api.reapply p s).1 ≡ none

    verify_loop-fixed :
        (n : ℕ) (s : S) (live : PodSpec)
        → Serves
        → api.get_pod s ≡ ok live
        → needs_fix unicode_lower spec live ≡ true
        → verify_loop unicode_lower spec api (suc n) none s
          ≡ verify_loop unicode_lower spec api n none
              (api.reapply (desired_pod unicode_lower spec) s).0
    unfolding verify_loop
    verify_loop-fixed n s live serves got wrong =
        rw (got, wrong) (rw (serves.reapplies (desired_pod unicode_lower spec) s) refl)

    verify_loop-settled :
        (n : ℕ) (s : S) (live : PodSpec)
        → api.get_pod s ≡ ok live
        → needs_fix unicode_lower spec live ≡ false
        → verify_loop unicode_lower spec api (suc n) none s ≡ (s, none)
    unfolding verify_loop
    verify_loop-settled n s live got right = rw (got, right) refl

    verify_loop-reapplied :
        (n : ℕ) (s : S)
        → Serves
        → (k : ℕ) × (k ≤ n) × (verify_loop unicode_lower spec api n none s ≡ (reapplied k s, none))
    unfolding verify_loop
    verify_loop-reapplied zero s serves = (0, omega arith, refl)
    verify_loop-reapplied (suc n) s serves =
        let (live, got) = serves.gets s in
        elim (Bool-cases (needs_fix unicode_lower spec live)) [
          | inr right ↦ (0, omega arith, verify_loop-settled n s live got right)
          | inl wrong ↦
              (let (k, few, rest) =
                  verify_loop-reapplied n (api.reapply (desired_pod unicode_lower spec) s).0
                    serves in
                (suc k, omega (arith, few), verify_loop-fixed n s live serves got wrong ∙ rest))
        ]

    -- Where no call of the API fails the deployment is not recreated, though the verification may
    -- fail at every attempt: all that is done are at most five more updates.
    ensure_pod_updates :
        (s : S) → Serves → (k : ℕ) × (k ≤ 5) × (ensure_pod unicode_lower spec api s ≡ reapplied k s)
    unfolding ensure_pod
    ensure_pod_updates s serves =
        let (k, few, settled) = verify_loop-reapplied 5 s serves in
        (k, few, ap (or_recreate unicode_lower spec api) settled)

    -- An update stores the template as it is.
    abbrev pub Stores : Type 0
    Stores = (p : PodSpec) (s : S) → api.get_pod (api.reapply p s).0 ≡ ok p

    verify_loop-nginx :
        (n : ℕ) (s : S)
        → Serves
        → Stores
        → is_nginx unicode_lower spec.image ≡ true
        → api.get_pod s ≡ ok (desired_pod unicode_lower spec)
        → verify_loop unicode_lower spec api n none s ≡ (reapplied n s, none)
    unfolding verify_loop
    verify_loop-nginx zero s serves stores nginx got = refl
    verify_loop-nginx (suc n) s serves stores nginx got =
        let p = desired_pod unicode_lower spec in
        verify_loop-fixed n s p serves got (needs_fix-desired_pod ∙ nginx)
        ∙ verify_loop-nginx n (api.reapply p s).0 serves stores nginx (stores p s)

    -- After the deployment was written, and where no call fails and an update stores the template as
    -- it is, the verification of an nginx image updates it five times more, since the template that
    -- is written is never the one that is expected; for another image it changes nothing.
    pub ensure_pod-desired_pod :
        (s : S)
        → Serves
        → Stores
        → api.get_pod s ≡ ok (desired_pod unicode_lower spec)
        → ensure_pod unicode_lower spec api s
          ≡ (if is_nginx unicode_lower spec.image then reapplied 5 s else s)
    unfolding ensure_pod
    ensure_pod-desired_pod s serves stores got =
        elim (Bool-cases (is_nginx unicode_lower spec.image)) [
          | inl nginx ↦ rw nginx (
              ap (or_recreate unicode_lower spec api)
                (verify_loop-nginx 5 s serves stores nginx got))
          | inr other ↦ rw other (
              ap (or_recreate unicode_lower spec api) (
                verify_loop-settled 4 s (desired_pod unicode_lower spec) got
                  (needs_fix-desired_pod ∙ other)))
        ]
