-- ===== src/Connector/Lifecycle.antt =====
-- What any calls of Start, Stop and CloseServer make of a connector, and when Start ends.
use guild_net.Prelude.{
  ℕ, true, false, ◌&&◌, not, Bool-cases, Option, none, some, ◌≡◌, refl, sym, ap, ◌∙◌, inl, inr, [],
  ◌∷◌, Text, codes, is_empty,
}
use mathlib.Core.Path.{subst}
use guild_net.Prelude.Strings.{trim_space}
use guild_net.DbManager.{Result, ok, fail}
use guild_net.Connector.{
  Config, Tsnet, Connector, closed, close_server, stop, wait_up, kept_or_closed, with_client,
  with_server, server_config, start_server, start_once, start, on_server, with_name, named_host,
  made, in_dir, state_of, new,
}

module _ {E V : Type 0} (t : Tsnet E V) where
  -- What the calls of a connector, in any order, make of it and of its surroundings. Between two
  -- calls the surroundings become what they will.
  pub data Reach (e : E) (c : Connector V) : E → Connector V → Type 0 where
    here : Reach e c e c
    waits : {e1 : E} {c1 : Connector V} → Reach e c e1 c1 → (e2 : E) → Reach e c e2 c1
    starts :
        {e1 e2 : E} {c1 c2 : Connector V} {err : Option Text}
        → Reach e c e1 c1
        → (fuel : ℕ) → start t fuel e1 c1 ≡ some (e2, c2, err)
        → Reach e c e2 c2
    stops :
        {e1 e2 : E} {c1 c2 : Connector V} {err : Option Text}
        → Reach e c e1 c1
        → stop t e1 c1 ≡ (e2, c2, err)
        → Reach e c e2 c2
    closes :
        {e1 e2 : E} {c1 c2 : Connector V} {err : Option Text}
        → Reach e c e1 c1
        → close_server t e1 c1 ≡ (e2, c2, err)
        → Reach e c e2 c2

  -- the start is used up, and there is no server
  abbrev pub IsSpent : Connector V → Type 0
  IsSpent c = (c.started ≡ true) × (c.srv ≡ none)

  start_again :
      (fuel : ℕ) (e : E) (c : Connector V) → c.started ≡ true → start t fuel e c ≡ some (e, c, none)
  unfolding start
  start_again fuel e c s = rw s refl

  close_spent : (e : E) (c : Connector V) → IsSpent c → (close_server t e c).1 ≡ c
  unfolding close_server
  close_spent e c (s, h) = ap (λ o. (closed t c o e).1) h

  stop-IsSpent : (e : E) (c : Connector V) → IsSpent c → IsSpent (stop t e c).1
  unfolding stop
  stop-IsSpent e c (s, h) = elim (Bool-cases c.stopped) [
    | inl twice ↦ rw (twice, stop) (s, h)
    | inr once ↦
        rw (once, stop)
          (subst IsSpent (sym (close_spent e (record c { stopped = true }) (s, h))) (s, h))
  ]

  Reach-IsSpent :
      {e : E} {c : Connector V} {e' : E} {c' : Connector V}
      → IsSpent c
      → Reach e c e' c'
      → IsSpent c'
  Reach-IsSpent spent here = spent
  Reach-IsSpent spent (waits r e2) = Reach-IsSpent spent r
  Reach-IsSpent spent (starts {e1} {e2} {c1} {c2} r fuel at) =
      let again = Reach-IsSpent spent r in
      let ran : start t fuel e1 c1 ≡ some (e1, c1, none) = start_again fuel e1 c1 again.0 in
      let same : c1 ≡ c2 = cc in subst IsSpent same again
  Reach-IsSpent spent (stops {e1} {c1 = c1} r at) =
      subst IsSpent (ap (λ x. x.1) at) (stop-IsSpent e1 c1 (Reach-IsSpent spent r))
  Reach-IsSpent spent (closes {e1} {c1 = c1} r at) =
      let again = Reach-IsSpent spent r in
      subst IsSpent (sym (close_spent e1 c1 again) ∙ ap (λ x. x.1) at) again

  -- an error leaves the connector as it was
  abbrev pub IsUnchanged : Connector V → Option (E × Connector V × Option Text) → Type 0
  IsUnchanged c (some (e, c', some err)) = c' ≡ c
  IsUnchanged c _ = Unit {0}

  kept_or_closed-IsUnchanged :
      (c : Connector V) (s : V) (r : Option (E × Option Text))
      → IsUnchanged c (kept_or_closed t c s r)
  kept_or_closed-IsUnchanged c s none = tt
  kept_or_closed-IsUnchanged c s (some (e, none)) = tt
  kept_or_closed-IsUnchanged c s (some (e, some ended)) = refl

  with_client-IsUnchanged :
      (fuel : ℕ) (c : Connector V) (s : V) (r : E × Option Text)
      → IsUnchanged c (with_client t fuel c s r)
  with_client-IsUnchanged fuel c s (e, some err) = refl
  with_client-IsUnchanged fuel c s (e, none) = kept_or_closed-IsUnchanged c s (wait_up t fuel s e)

  with_server-IsUnchanged :
      (fuel : ℕ) (c : Connector V) (r : E × Result V) → IsUnchanged c (with_server t fuel c r)
  with_server-IsUnchanged fuel c (e, fail err) = refl
  with_server-IsUnchanged fuel c (e, ok s) = with_client-IsUnchanged fuel c s (t.local_client e s)

  start_once-IsUnchanged :
      (fuel : ℕ) (e : E) (c : Connector V) → IsUnchanged c (start_once t fuel e c)
  unfolding start_once
  start_once-IsUnchanged fuel e c =
      elim (Bool-cases
        (not (t.dir_exists e c.cfg.state_dir) && is_empty (trim_space c.cfg.client_auth_key))) [
          | inl no_key ↦ rw (no_key, start_once) refl
          | inr has_key ↦
              rw (has_key, start_once)
                (with_server-IsUnchanged fuel c (t.start e (server_config t c.cfg)))
        ]

  failed-IsSpent :
      (fuel : ℕ) (e e' : E) (c c' : Connector V) (err : Text)
      → c.srv ≡ none
      → start t fuel e c ≡ some (e', c', some err)
      → IsSpent c'
  unfolding start
  failed-IsSpent fuel e e' c c' err empty failed = elim (Bool-cases c.started) [
    | inl again ↦
        let ran : start t fuel e c ≡ some (e, c, none) = start_again fuel e c again in absurd (cc)
    | inr first ↦
        let ran : start_once t fuel e (record c { started = true }) ≡ some (e', c', some err) =
          (rw first at failed) in
        let same : c' ≡ record c { started = true } =
          subst (IsUnchanged (record c { started = true })) ran
            (start_once-IsUnchanged fuel e (record c { started = true })) in
        subst IsSpent (sym same) (refl, empty)
  ]

  -- After a Start that failed, whatever calls of Start, Stop and CloseServer follow and whatever the
  -- surroundings become, the connector has no server: a dial of it fails, and a further Start starts
  -- nothing and returns no error.
  pub failed_start_stays :
      (fuel fuel' : ℕ) (e : E) (c : Connector V) (e1 : E) (c1 : Connector V) (e2 : E)
      (c2 : Connector V) (err : Text) {A : Type 0} (call : V → E × Result A)
      → c.srv ≡ none
      → start t fuel e c ≡ some (e1, c1, some err)
      → Reach e1 c1 e2 c2
      → (start t fuel' e2 c2 ≡ some (e2, c2, none))
        × (on_server t call e2 c2 ≡ (e2, fail (codes "connector not started")))
  unfolding on_server
  failed_start_stays fuel fuel' e c e1 c1 e2 c2 err call empty failed calls =
      let spent = Reach-IsSpent (failed-IsSpent fuel e e1 c c1 err empty failed) calls in
      (start_again fuel' e2 c2 spent.0, rw (spent.1, on_server) refl)

-- What the package relies on: a directory that MkdirAll gave no error for is there, and neither a
-- change of its mode nor a reading of random bytes takes it away.
pub record DirLaws {E V : Type 0} (t : Tsnet E V) : Type 0 where
  pub made_there :
      (e : E) (dir : Text)
      → (t.mkdir_all e dir).1 ≡ none
      → t.dir_exists (t.mkdir_all e dir).0 dir ≡ true
  pub kept_by_chmod :
      (e : E) (dir : Text) → t.dir_exists e dir ≡ true → t.dir_exists (t.chmod e dir) dir ≡ true
  pub kept_by_random :
      (e : E) (dir : Text) → t.dir_exists e dir ≡ true → t.dir_exists (t.random e).0 dir ≡ true

module _ {E V : Type 0} {t : Tsnet E V} (laws : DirLaws t) (unicode_lower : ℕ → ℕ) where
  -- a connector that `New` made has its directory, and was not started
  abbrev HasDir : E × Result (Connector V) → Type 0
  HasDir (e, fail err) = Unit {0}
  HasDir (e, ok c) = (t.dir_exists e c.cfg.state_dir ≡ true) × (c.started ≡ false)

  named_host-there :
      (e : E) (host dir : Text)
      → t.dir_exists e dir ≡ true
      → t.dir_exists (named_host t e host).0 dir ≡ true
  named_host-there e [] dir h = laws.kept_by_random e dir h
  named_host-there e (c ∷ host) dir h = h

  with_name-HasDir :
      (cfg : Config) (id state : Text) (e : E)
      → t.dir_exists e state ≡ true
      → HasDir (with_name t unicode_lower cfg id state e)
  with_name-HasDir cfg id state e h = elim (Bool-cases (is_empty (trim_space cfg.hostname))) [
    | inl blank ↦ rw blank (named_host-there e (t.host_name e) state h, refl)
    | inr given ↦ rw given (h, refl)
  ]

  made-HasDir :
      (cfg : Config) (id state : Text) (r : E × Option Text)
      → (r.1 ≡ none → t.dir_exists r.0 state ≡ true)
      → HasDir (made t unicode_lower cfg id state r)
  made-HasDir cfg id state (e, some err) h = tt
  made-HasDir cfg id state (e, none) h =
      with_name-HasDir cfg id state (t.chmod e state) (laws.kept_by_chmod e state (h refl))

  in_dir-HasDir :
      (e : E) (cfg : Config) (id : Text) (dir : Result Text)
      → HasDir (in_dir t unicode_lower e cfg id dir)
  in_dir-HasDir e cfg id (fail err) = tt
  in_dir-HasDir e cfg id (ok state) =
      made-HasDir cfg id state (t.mkdir_all e state) (laws.made_there e state)

  new-HasDir : (e : E) (cfg : Config) → HasDir (new t unicode_lower e cfg)
  unfolding new
  new-HasDir e cfg = elim (Bool-cases (is_empty (trim_space cfg.cluster_id))) [
    | inl no_id ↦ rw (no_id, new) tt
    | inr id ↦ elim (Bool-cases (is_empty (trim_space cfg.login_server))) [
      | inl no_server ↦ rw (id, no_server, new) tt
      | inr server ↦
          rw (id, server, new)
            (in_dir-HasDir e cfg (trim_space cfg.cluster_id)
              (state_of t unicode_lower e (trim_space cfg.cluster_id) (trim_space cfg.state_dir)))
    ]
  ]

  -- The first Start of a connector that New made without an error, in the surroundings that New
  -- left, goes on to the server whatever its key is: that it asks for a key where the directory is
  -- missing never refuses it, since New has made the directory.
  pub start-new :
      (fuel : ℕ) (e e' : E) (cfg : Config) (c : Connector V)
      → new t unicode_lower e cfg ≡ (e', ok c)
      → start t fuel e' c ≡ start_server t fuel e' (record c { started = true })
  unfolding start start_once
  start-new fuel e e' cfg c at =
      let (there, fresh) = subst HasDir at (new-HasDir e cfg) in rw (fresh, there) refl
