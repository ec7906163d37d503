-- ===== src/Connector/Polling.antt =====
-- The wait of `Start` for the server to come up.
use guild_net.Prelude.{
  ℕ, zero, suc, ◌≤◌, ◌<◌, true, false, Bool-cases, Option, none, some, ◌≡◌, ◌≢◌, refl, inl, inr,
  ◌&&◌, not, Text, is_empty, arith,
}
use guild_net.Prelude.Strings.{trim_space}
use guild_net.DbManager.{Result, ok, fail}
use guild_net.Connector.{
  Status, Tsnet, Connector, is_up, after_wait, polled, wait_up, kept_or_closed, with_client,
  with_server, server_config, start_once, start,
}

-- The 30 seconds last for 150 pauses at most: there is a number of pauses that are left, which a
-- call of Status does not raise, and which a pause lowers while the time is not over.
pub record PollLaws {E V : Type 0} (t : Tsnet E V) : Type 0 where
  pub left : E → ℕ
  pub at_most : (e : E) → left e ≤ 150
  pub status_keeps : (e : E) (s : V) → left (t.status e s).0 ≤ left e
  pub pause_lowers : (e : E) → t.expired e ≡ false → left (t.pause e).0 < left e

module _ {E V : Type 0} {t : Tsnet E V} (laws : PollLaws t) where
  after_wait-ends :
      (rest : E → Option (E × Option Text)) (p : E × Option Text)
      → rest p.0 ≢ none
      → after_wait t rest p ≢ none
  after_wait-ends rest (e, some ended) h = λ x. cc
  after_wait-ends rest (e, none) h = h

  polled-ends :
      (rest : E → Option (E × Option Text)) (p : E × Result (Option Status))
      → (t.expired p.0 ≡ false → rest (t.pause p.0).0 ≢ none)
      → polled t rest p ≢ none
  polled-ends rest (e, st) h = elim (Bool-cases (is_up st)) [
    | inl up ↦ rw up (λ x. cc)
    | inr down ↦ elim (Bool-cases (t.expired e)) [
      | inl over ↦ rw (down, over) (λ x. cc)
      | inr waiting ↦ rw (down, waiting) (after_wait-ends rest (t.pause e) (h waiting))
    ]
  ]

  wait_up-ends : (fuel : ℕ) (s : V) (e : E) → laws.left e < fuel → wait_up t fuel s e ≢ none
  unfolding wait_up
  wait_up-ends zero s e h = elim h [ ]
  wait_up-ends (suc fuel) s e h = polled-ends (wait_up t fuel s) (t.status e s) (λ waiting.
      wait_up-ends fuel s _
        (omega (arith, laws.status_keeps e s, laws.pause_lowers (t.status e s).0 waiting)))

  kept_or_closed-ends :
      (c : Connector V) (s : V) (r : Option (E × Option Text))
      → r ≢ none
      → kept_or_closed t c s r ≢ none
  kept_or_closed-ends c s none h = absurd (h refl)
  kept_or_closed-ends c s (some (e, none)) h = λ x. cc
  kept_or_closed-ends c s (some (e, some ended)) h = λ x. cc

  with_client-ends :
      (c : Connector V) (s : V) (r : E × Option Text) → with_client t 151 c s r ≢ none
  with_client-ends c s (e, some err) = λ x. cc
  with_client-ends c s (e, none) =
      kept_or_closed-ends c s (wait_up t 151 s e)
        (wait_up-ends 151 s e (omega (arith, laws.at_most e)))

  with_server-ends : (c : Connector V) (r : E × Result V) → with_server t 151 c r ≢ none
  with_server-ends c (e, fail err) = λ x. cc
  with_server-ends c (e, ok s) = with_client-ends c s (t.local_client e s)

  start_once-ends : (e : E) (c : Connector V) → start_once t 151 e c ≢ none
  unfolding start_once
  start_once-ends e c =
      elim (Bool-cases
        (not (t.dir_exists e c.cfg.state_dir) && is_empty (trim_space c.cfg.client_auth_key))) [
          | inl no_key ↦ rw (no_key, start_once) (λ x. cc)
          | inr has_key ↦
              rw (has_key, start_once) (with_server-ends c (t.start e (server_config t c.cfg)))
        ]

  -- Start returns: where at most 150 pauses of the loop fit into its 30 seconds, 151 polls are
  -- enough for it to end, whatever tsnet answers, and though the server never comes up.
  pub start-ends : (e : E) (c : Connector V) → start t 151 e c ≢ none
  unfolding start
  start-ends e c = elim (Bool-cases c.started) [
    | inl again ↦ rw (again, start) (λ x. cc)
    | inr first ↦ rw (first, start) (start_once-ends e (record c { started = true }))
  ]
