-- ===== src/ClusterRegistry/Connect.antt =====
-- `EnsureRDB` of internal/cluster/registry.go: the manager of an instance is dialled when it is first
-- needed.
use guild_net.Prelude.{ℕ, zero, suc, Option, none, some, ◌++◌, ◌≡◌, refl, Text, codes}
use guild_net.DbManager.{Result, ok, fail}
use guild_net.ClusterRegistry.{Instance}

-- `dial` may return a nil manager without an error; `pause` waits before the next attempt, and gives
-- the context's error if the context ends first; `start_monitor` starts the monitor's goroutine.
pub record Dialler (E K M : Type 0) : Type 0 where
  pub dial : E → K → E × Result (Option M)
  pub pause : E → E × Option Text
  pub start_monitor : E → E

abbrev pub wrapped : Option Text → Text
wrapped none = codes "%!w(<nil>)"
wrapped (some e) = e

module _ {E D K T M : Type 0} (d : Dialler E K M) where
  abbrev pub after_pause :
      (E → Option Text → E × Instance D K T M × Option Text)
      → Instance D K T M
      → Option Text
      → E × Option Text
      → E × Instance D K T M × Option Text
  after_pause rest inst last (e, some ended) = (e, inst, some ended)
  after_pause rest inst last (e, none) = rest e last

  abbrev pub after_dial :
      (E → Option Text → E × Instance D K T M × Option Text)
      → Instance D K T M
      → E × Result (Option M)
      → E × Instance D K T M × Option Text
  after_dial rest inst (e, ok (some m)) = (d.start_monitor e, record inst { rdb = some m }, none)
  after_dial rest inst (e, ok none) = after_pause rest inst none (d.pause e)
  after_dial rest inst (e, fail err) = after_pause rest inst (some err) (d.pause e)

  unfoldable pub dial_loop :
      ℕ → Instance D K T M → E → Option Text → E × Instance D K T M × Option Text
  dial_loop zero inst e last =
      (e, inst, some (codes "connect rethinkdb failed after retries: " ++ wrapped last))
  dial_loop (suc n) inst e last = after_dial (dial_loop n inst) inst (d.dial e inst.k8s)

  abbrev pub unless_present : E → Instance D K T M → Option M → E × Instance D K T M × Option Text
  unless_present e inst (some m) = (e, inst, none)
  unless_present e inst none = dial_loop 5 inst e none

  unfoldable pub ensure_rdb : E → Instance D K T M → E × Instance D K T M × Option Text
  ensure_rdb e inst = unless_present e inst inst.rdb

  -- Without an error there is a manager, and with one the instance is as it was.
  abbrev pub IsEnsured : Instance D K T M → E × Instance D K T M × Option Text → Type 0
  IsEnsured inst (e, inst', none) = (m : M) × (inst'.rdb ≡ some m)
  IsEnsured inst (e, inst', some err) = inst' ≡ inst

  after_pause-IsEnsured :
      (rest : E → Option Text → E × Instance D K T M × Option Text) (inst : Instance D K T M)
      (last : Option Text) (p : E × Option Text)
      → ((e : E) (last : Option Text) → IsEnsured inst (rest e last))
      → IsEnsured inst (after_pause rest inst last p)
  after_pause-IsEnsured rest inst last (e, some ended) h = refl
  after_pause-IsEnsured rest inst last (e, none) h = h e last

  after_dial-IsEnsured :
      (rest : E → Option Text → E × Instance D K T M × Option Text) (inst : Instance D K T M)
      (r : E × Result (Option M))
      → ((e : E) (last : Option Text) → IsEnsured inst (rest e last))
      → IsEnsured inst (after_dial rest inst r)
  after_dial-IsEnsured rest inst (e, ok (some m)) h = (m, refl)
  after_dial-IsEnsured rest inst (e, ok none) h = after_pause-IsEnsured rest inst none (d.pause e) h
  after_dial-IsEnsured rest inst (e, fail err) h =
      after_pause-IsEnsured rest inst (some err) (d.pause e) h

  dial_loop-IsEnsured :
      (n : ℕ) (inst : Instance D K T M) (e : E) (last : Option Text)
      → IsEnsured inst (dial_loop n inst e last)
  unfolding dial_loop
  dial_loop-IsEnsured zero inst e last = refl
  dial_loop-IsEnsured (suc n) inst e last =
      after_dial-IsEnsured (dial_loop n inst) inst (d.dial e inst.k8s) (dial_loop-IsEnsured n inst)

  unless_present-IsEnsured :
      (e : E) (inst : Instance D K T M) (o : Option M)
      → inst.rdb ≡ o
      → IsEnsured inst (unless_present e inst o)
  unless_present-IsEnsured e inst none h = dial_loop-IsEnsured 5 inst e none
  unless_present-IsEnsured e inst (some m) h = (m, h)

  -- After EnsureRDB without an error the instance has a manager; after an error, that of the last of
  -- five attempts or of the context, the instance is as it was.
  ensure_rdb-IsEnsured : (e : E) (inst : Instance D K T M) → IsEnsured inst (ensure_rdb e inst)
  unfolding ensure_rdb
  ensure_rdb-IsEnsured e inst = unless_present-IsEnsured e inst inst.rdb refl
