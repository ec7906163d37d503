-- ===== src/ClusterRegistry/Monitor.antt =====
-- `rdbMonitor` of internal/cluster/registry.go: what one tick of the monitor does to an instance. A
-- context that ends between two attempts ends the monitor too, and the instance is left as it is.
-- `ping` is the manager's, `closes` closes a manager that can be closed, `ended` is the error of the
-- instance's context, and `wait` the pause between two attempts.
use guild_net.Prelude.{
  ℕ, zero, suc, Bool, true, false, Bool-cases, Option, none, some, ◌≡◌, ◌⊎◌, refl, sym, ap, inl,
  inr, Text, codes, text_eq_inst, ◌==◌, if◌then◌else◌,
}
use mathlib.Core.Path.{subst}
use guild_net.DbManager.{Result, ok, fail}
use guild_net.RethinkDb.{classify_error}
use guild_net.ClusterRegistry.{Instance}
use guild_net.ClusterRegistry.Connect.{Dialler, ensure_rdb}

pub record Watch (E M : Type 0) : Type 0 where
  pub ping : E → M → E × Option Text
  pub closes : E → M → E
  pub ended : E → Bool
  pub wait : E → E

abbrev pub IsTransient : (ℕ → ℕ) → Option Text → Type 0
IsTransient unicode_lower none = ⊥
IsTransient unicode_lower (some err) =
    (classify_error unicode_lower (some err) == codes "transient") ≡ true

module _ {E D K T M : Type 0} (unicode_lower : ℕ → ℕ) (d : Dialler E K M) (w : Watch E M) where
  -- the dialled manager takes the place of the old one, which is closed
  abbrev pub redialled :
      (E → E × Instance D K T M)
      → Instance D K T M
      → M
      → E × Result (Option M)
      → E × Instance D K T M
  redialled rest inst old (e, ok (some m)) = (w.closes e old, record inst { rdb = some m })
  redialled rest inst old (e, ok none) = rest (w.wait e)
  redialled rest inst old (e, fail err) = rest (w.wait e)

  abbrev pub unless_ended :
      Bool → (E → E × Instance D K T M) → Instance D K T M → E → E × Instance D K T M
  unless_ended true rest inst e = (e, inst)
  unless_ended false rest inst e = rest e

  unfoldable pub redial_loop : ℕ → Instance D K T M → M → E → E × Instance D K T M
  redial_loop zero inst old e = (e, inst)
  redial_loop (suc n) inst old e =
      unless_ended (w.ended e)
        (λ e. redialled (redial_loop n inst old) inst old (d.dial e inst.k8s)) inst e

  -- only an error that is classified as transient is answered by a new connection
  abbrev pub after_ping : Instance D K T M → M → E × Option Text → E × Instance D K T M
  after_ping inst m (e, none) = (e, inst)
  after_ping inst m (e, some err) =
      let again = redial_loop 3 inst m e in
      if classify_error unicode_lower (some err) == codes "transient" then again else (e, inst)

  abbrev pub after_ensure : E × Instance D K T M × Option Text → E × Instance D K T M
  after_ensure (e, inst, err) = (e, inst)

  abbrev pub check_manager : Instance D K T M → E → Option M → E × Instance D K T M
  check_manager inst e none = after_ensure (ensure_rdb d e inst)
  check_manager inst e (some m) = after_ping inst m (w.ping e m)

  unfoldable pub monitor_tick : E → Instance D K T M → E × Instance D K T M
  monitor_tick e inst = check_manager inst e inst.rdb

  -- the instance is as it was, or has the manager of a dial that succeeded, and the old one is closed
  abbrev pub IsKept : Instance D K T M → M → E × Instance D K T M → Type 0
  IsKept inst old r =
      (r.1 ≡ inst)
      ⊎ ((m : M) × (e : E) × ((d.dial e inst.k8s).1 ≡ ok (some m))
          × (r ≡ (w.closes (d.dial e inst.k8s).0 old, record inst { rdb = some m })))

  redialled-IsKept :
      (rest : E → E × Instance D K T M) (inst : Instance D K T M) (old : M) (e : E)
      (r : E × Result (Option M))
      → d.dial e inst.k8s ≡ r
      → ((e : E) → IsKept inst old (rest e))
      → IsKept inst old (redialled rest inst old r)
  redialled-IsKept rest inst old e (e', ok (some m)) at h =
      inr (
        m,
        e,
        ap (λ r. r.1) at,
        ap (λ r. (w.closes r.0 old, record inst { rdb = some m })) (sym at),
      )
  redialled-IsKept rest inst old e (e', ok none) at h = h (w.wait e')
  redialled-IsKept rest inst old e (e', fail err) at h = h (w.wait e')

  unless_ended-IsKept :
      (b : Bool) (rest : E → E × Instance D K T M) (inst : Instance D K T M) (old : M) (e : E)
      → IsKept inst old (rest e)
      → IsKept inst old (unless_ended b rest inst e)
  unless_ended-IsKept true rest inst old e h = inl refl
  unless_ended-IsKept false rest inst old e h = h

  redial_loop-IsKept :
      (n : ℕ) (inst : Instance D K T M) (old : M) (e : E)
      → IsKept inst old (redial_loop n inst old e)
  unfolding redial_loop
  redial_loop-IsKept zero inst old e = inl refl
  redial_loop-IsKept (suc n) inst old e = unless_ended-IsKept (w.ended e) _ inst old e (
      redialled-IsKept (redial_loop n inst old) inst old e (d.dial e inst.k8s) refl
        (λ e. redial_loop-IsKept n inst old e))

  -- what a tick does to an instance with the manager `old`, by the answer of the ping
  abbrev pub IsWatched : Instance D K T M → M → E × Option Text → E × Instance D K T M → Type 0
  IsWatched inst old (e, err) r =
      (¬ IsTransient unicode_lower err → r ≡ (e, inst)) × IsKept inst old r

  after_ping-IsWatched :
      (inst : Instance D K T M) (m : M) (r : E × Option Text)
      → IsWatched inst m r (after_ping inst m r)
  after_ping-IsWatched inst m (e, none) = (λ h. refl, inl refl)
  after_ping-IsWatched inst m (e, some err) =
      elim (Bool-cases (classify_error unicode_lower (some err) == codes "transient")) [
        | inl transient ↦ (λ h. absurd (h transient), rw transient (redial_loop-IsKept 3 inst m e))
        | inr other ↦ (λ h. rw other refl, rw other (inl refl))
      ]

  -- A tick of the monitor leaves an instance whose manager answers the ping, or answers it with an
  -- error that is not transient, as it is, and dials nothing. After a transient error too the
  -- instance never loses its manager: it is as it was, or it has the manager of a dial that
  -- succeeded, and then the old one is closed.
  pub monitor_tick-IsWatched :
      (e : E) (inst : Instance D K T M) (old : M)
      → inst.rdb ≡ some old
      → IsWatched inst old (w.ping e old) (monitor_tick e inst)
  unfolding monitor_tick
  monitor_tick-IsWatched e inst old has =
      subst (λ o. IsWatched inst old (w.ping e old) (check_manager inst e o)) (sym has)
        (after_ping-IsWatched inst old (w.ping e old))
