-- ===== src/LocalDb/Handles.antt =====
-- The handles that are open after a database was opened, or was not.
use guild_net.Prelude.{
  ℕ, zero, suc, Option, none, some, List, [], ◌∷◌, ◌≡◌, refl, ap, ◌∙◌, Text, codes,
}
use guild_net.DbManager.{Result, ok, fail}
use guild_net.LocalDb.Open.{
  Files, or_dot, sqlite_schema, after_exec, exec_each, with_handle, in_state_dir, open_local,
  after_backoff, after_open, open_attempts, managed, with_dir, open_manager, LocalManager,
  close_manager,
}

-- What the code relies on: `count` is the number of open handles, which an `sql.Open` that succeeds
-- raises by one, and a Close lowers by one.
pub record Counts {E H : Type 0} (f : Files E H) (count : E → ℕ) : Type 0 where
  pub dir_made : (e : E) (dir : Text) → count (f.make_dir e dir).0 ≡ count e
  pub one_opened :
      (e e' : E) (path : Text) (h : H) → f.sql_open e path ≡ (e', ok h) → count e' ≡ suc (count e)
  pub refused :
      (e e' : E) (path err : Text) → f.sql_open e path ≡ (e', fail err) → count e' ≡ count e
  pub run : (e : E) (h : H) (s : Text) → count (f.exec e h s).0 ≡ count e
  pub one_closed : (e : E) (h : H) (n : ℕ) → count e ≡ suc n → count (f.close e h) ≡ n
  pub waited : (e : E) (ms : ℕ) → count (f.wait e ms).0 ≡ count e

module _ {E H : Type 0} {f : Files E H} {count : E → ℕ} (laws : Counts f count) (n : ℕ) where
  -- one handle more, if it is returned, and none more after an error
  abbrev pub KeepsCount : {A : Type 0} → E × Result A → Type 0
  KeepsCount (e, ok a) = count e ≡ suc n
  KeepsCount (e, fail err) = count e ≡ n

  after_exec-KeepsCount :
      (rest : E → E × Result H) (h : H) (p : E × Option Text)
      → ((e : E) → count e ≡ suc n → KeepsCount (rest e))
      → count p.0 ≡ suc n
      → KeepsCount (after_exec f rest h p)
  after_exec-KeepsCount rest h (e, some err) go at = laws.one_closed e h n at
  after_exec-KeepsCount rest h (e, none) go at = go e at

  exec_each-KeepsCount :
      (statements : List Text) (h : H) (e : E)
      → count e ≡ suc n
      → KeepsCount (exec_each f statements h e)
  unfolding exec_each
  exec_each-KeepsCount [] h e at = at
  exec_each-KeepsCount (s ∷ statements) h e at =
      after_exec-KeepsCount (exec_each f statements h) h (f.exec e h s)
        (exec_each-KeepsCount statements h) (laws.run e h s ∙ at)

  with_handle-KeepsCount :
      (e : E) (path : Text) (p : E × Result H)
      → f.sql_open e path ≡ p
      → count e ≡ n
      → KeepsCount (with_handle f p)
  with_handle-KeepsCount e path (e', fail err) h at = laws.refused e e' path err h ∙ at
  with_handle-KeepsCount e path (e', ok handle) h at = exec_each-KeepsCount sqlite_schema handle _ (
      laws.run e' handle (codes "PRAGMA journal_mode=WAL;")
      ∙ laws.one_opened e e' path handle h
      ∙ ap suc at)

  in_state_dir-KeepsCount :
      (dir : Text) (p : E × Option Text) → count p.0 ≡ n → KeepsCount (in_state_dir f dir p)
  in_state_dir-KeepsCount dir (e, some err) at = at
  in_state_dir-KeepsCount dir (e, none) at = with_handle-KeepsCount e _ _ refl at

  open_local-KeepsCount : (e : E) (dir : Text) → count e ≡ n → KeepsCount (open_local f e dir)
  unfolding open_local
  open_local-KeepsCount e dir at =
      in_state_dir-KeepsCount (or_dot dir) _ (laws.dir_made e (or_dot dir) ∙ at)

  after_backoff-KeepsCount :
      (rest : E → E × Result H) (p : E × Option Text)
      → ((e : E) → count e ≡ n → KeepsCount (rest e))
      → count p.0 ≡ n
      → KeepsCount (after_backoff f rest p)
  after_backoff-KeepsCount rest (e, some ended) go at = at
  after_backoff-KeepsCount rest (e, none) go at = go e at

  after_open-KeepsCount :
      (rest : E → Text → E × Result H) (i : ℕ) (p : E × Result H)
      → ((e : E) (last : Text) → count e ≡ n → KeepsCount (rest e last))
      → KeepsCount p
      → KeepsCount (after_open f rest i p)
  after_open-KeepsCount rest i (e, ok h) go at = at
  after_open-KeepsCount rest i (e, fail err) go at =
      after_backoff-KeepsCount (λ e. rest e err) _ (λ e. go e err) (laws.waited e _ ∙ at)

  open_attempts-KeepsCount :
      (left i : ℕ) (dir : Text) (e : E) (last : Text)
      → count e ≡ n
      → KeepsCount (open_attempts f left i dir e last)
  unfolding open_attempts
  open_attempts-KeepsCount zero i dir e last at = at
  open_attempts-KeepsCount (suc left) i dir e last at =
      after_open-KeepsCount (open_attempts f left (suc i) dir) i (open_local f e dir)
        (open_attempts-KeepsCount left (suc i) dir) (open_local-KeepsCount e dir at)

  managed-KeepsCount : (dir : Text) (p : E × Result H) → KeepsCount p → KeepsCount (managed f dir p)
  managed-KeepsCount dir (e, fail err) at = at
  managed-KeepsCount dir (e, ok h) at = at

  with_dir-KeepsCount :
      (dir : Text) (p : E × Option Text) → count p.0 ≡ n → KeepsCount (with_dir f dir p)
  with_dir-KeepsCount dir (e, some err) at = at
  with_dir-KeepsCount dir (e, none) at =
      managed-KeepsCount dir (open_attempts f 5 0 dir e [])
        (open_attempts-KeepsCount 5 0 dir e [] at)

  abbrev pub closed_again : E × Result (LocalManager H) → E
  closed_again (e, ok m) = close_manager f e (some m)
  closed_again (e, fail err) = close_manager f e none

  closed_again-count : (p : E × Result (LocalManager H)) → KeepsCount p → count (closed_again p) ≡ n
  unfolding close_manager
  closed_again-count (e, ok m) at = laws.one_closed e m.db n at
  closed_again-count (e, fail err) at = at

  -- OpenManager leaks no handle: however its attempts fail, in the directory, the driver, a statement
  -- of the schema or a wait, no more handles are open after an error than before, and one more if it
  -- succeeds, which Close gives back.
  pub open_manager-KeepsCount :
      (e : E) (state_dir cluster_id : Text)
      → count e ≡ n
      → KeepsCount (open_manager f e state_dir cluster_id)
        × (count (closed_again (open_manager f e state_dir cluster_id)) ≡ n)
  unfolding open_manager
  open_manager-KeepsCount e state_dir cluster_id at =
      let kept =
        with_dir-KeepsCount (f.join (or_dot state_dir) cluster_id) _ (laws.dir_made e _ ∙ at) in
      (kept, closed_again-count _ kept)
