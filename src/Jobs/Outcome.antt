-- ===== src/Jobs/Outcome.antt =====
-- How a job ends, and what a cancellation comes to.
use guild_net.Prelude.{
  ℕ, true, none, some, List, [], ◌∷◌, ◌≡◌, refl, ap, ◌∙◌, Text, text_eq_inst, arith, lookup, insert,
  has, Assoc,
}
use guild_net.Prelude.Maps.{lookup-insert_self}
use guild_net.Jobs.{
  running, succeeded, failed, Record, Runner, Persist, HandlerStep, progress_to, give_up, log,
  set_progress, panic, elsewhere, HandlerEnd, LogEvent, float_one, run_handler, finish, run_one,
  put, persist, record_change, with_step, fail_job, logf, cancel, publish, append, is_canceled,
}

-- What a handler's own steps come to: it returns, it has called `Fail` (the text of the last call),
-- or it panics.
pub data Verdict : Type 0 where
  returns : Verdict
  gives_up : Text → Verdict
  panics : Text → Verdict

abbrev pub verdict : {P : Type 0} → Verdict → List (HandlerStep P) → Verdict
verdict v [] = v
verdict v (give_up err ∷ steps) = verdict (gives_up err) steps
verdict v (panic t ∷ steps) = panics t
verdict v (progress_to n step msg kv ∷ steps) = verdict v steps
verdict v (log step msg kv ∷ steps) = verdict v steps
verdict v (set_progress n ∷ steps) = verdict v steps
verdict v (elsewhere f ∷ steps) = verdict v steps

module _ {P : Type 0} (p : Persist P) where
  jobs-persist : (rec : Record) (r : Runner P) → (persist p rec r).jobs ≡ r.jobs
  unfolding persist
  jobs-persist rec r = ground arith

  -- The handler's record and panic are those of the verdict.
  abbrev Fits : Verdict → Text → HandlerEnd P → Type 0
  Fits returns id end = (end.rec.id ≡ id) × (end.rec.status ≡ running) × (end.panicked ≡ none)
  Fits (gives_up err) id end =
      (end.rec.id ≡ id) × (end.rec.status ≡ failed) × (end.rec.error ≡ err) × (end.panicked ≡ none)
  Fits (panics t) id end = (end.rec.id ≡ id) × (end.panicked ≡ some t)

  abbrev Starts : Verdict → Text → Record → Type 0
  Starts returns id rec = (rec.id ≡ id) × (rec.status ≡ running)
  Starts (gives_up err) id rec = (rec.id ≡ id) × (rec.status ≡ failed) × (rec.error ≡ err)
  Starts (panics t) id rec = ⊥

  Starts-id : (v : Verdict) (id : Text) (rec : Record) → Starts v id rec → rec.id ≡ id
  Starts-id returns id rec h = h.0
  Starts-id (gives_up err) id rec h = h.0
  Starts-id (panics t) id rec h = absurd h

  -- a change of progress and time keeps the start
  Starts-progress :
      (v : Verdict) (id : Text) (rec : Record) (n t : ℕ)
      → Starts v id rec
      → Starts v id (record rec { progress = n; updated = t })
  Starts-progress returns id rec n t h = h
  Starts-progress (gives_up err) id rec n t h = h
  Starts-progress (panics e) id rec n t h = h

  Starts-set :
      (v : Verdict) (id : Text) (rec : Record) (n : ℕ)
      → Starts v id rec
      → Starts v id (record rec { progress = n })
  Starts-set returns id rec n h = h
  Starts-set (gives_up err) id rec n h = h
  Starts-set (panics e) id rec n h = h

  Fits-start :
      (v : Verdict) (id : Text) (rec : Record) (r : Runner P)
      → Starts v id rec
      → Fits v id (record { rec = rec; runner = r; panicked = none })
  Fits-start returns id rec r h = (h.0, h.1, refl)
  Fits-start (gives_up err) id rec r h = (h.0, h.1, h.2, refl)
  Fits-start (panics t) id rec r h = absurd h

  run_handler-Fits :
      (v : Verdict) (id : Text) (steps : List (HandlerStep P)) (rec : Record) (r : Runner P)
      → Starts v id rec
      → Fits (verdict v steps) id (run_handler p steps rec r)
  unfolding run_handler with_step fail_job
  run_handler-Fits v id [] rec r h = Fits-start v id rec r h
  run_handler-Fits v id (progress_to n step msg kv ∷ steps) rec r h =
      run_handler-Fits v id steps _ _ (Starts-progress v id rec n r.clock h)
  run_handler-Fits v id (give_up err ∷ steps) rec r h =
      run_handler-Fits (gives_up err) id steps _ _ (Starts-id v id rec h, refl, refl)
  run_handler-Fits v id (log step msg kv ∷ steps) rec r h = run_handler-Fits v id steps _ _ h
  run_handler-Fits v id (set_progress n ∷ steps) rec r h =
      run_handler-Fits v id steps _ _ (Starts-set v id rec n h)
  run_handler-Fits v id (panic t ∷ steps) rec r h = (Starts-id v id rec h, refl)
  run_handler-Fits v id (elsewhere f ∷ steps) rec r h = run_handler-Fits v id steps _ _ h

  -- How the runner stands after a job with that verdict: the handler's `end` is what it left.
  abbrev pub Ended : Verdict → Text → HandlerEnd P → Runner P → Type 0
  Ended returns id end r =
      (rec : Record) × (lookup id r.jobs ≡ some rec)
      × (rec.status ≡ succeeded)
      × (rec.progress ≡ float_one)
  Ended (gives_up err) id end r =
      (r ≡ end.runner) × (end.rec.status ≡ failed) × (end.rec.error ≡ err)
  Ended (panics t) id end r =
      (rec : Record) × (lookup id r.jobs ≡ some rec) × (rec.status ≡ failed) × (rec.error ≡ t)

  lookup-record_change :
      (rec : Record) (r : Runner P) → lookup rec.id (record_change p rec r).jobs ≡ some rec
  unfolding put
  lookup-record_change rec r = rw jobs-persist (lookup-insert_self rec.id rec r.jobs)

  finish-Ended :
      (v : Verdict) (id : Text) (end : HandlerEnd P) → Fits v id end → Ended v id end (finish p end)
  unfolding finish
  finish-Ended returns id end h =
      let rec : Record = record (end.rec) {
        status = succeeded;
        progress = float_one;
        updated = end.runner.clock;
      } in
      (rec, ground (arith, lookup-record_change rec end.runner), refl, refl)
  finish-Ended (gives_up err) id end h = (ground arith, h.1, h.2)
  finish-Ended (panics t) id end h =
      let rec : Record = record (end.rec) {
        status = failed;
        error = t;
        updated = end.runner.clock;
      } in
      (rec, ground (arith, lookup-record_change rec end.runner), refl, refl)

  -- A job whose handler returns without a call of `Fail` is stored as succeeded with progress 1; one
  -- whose handler panics is stored as failed with the panic's text; after a call of `Fail` the end
  -- of the job changes nothing more, and its record has the last error. This holds whatever other
  -- goroutines do to the runner while the handler runs.
  pub run_one_end :
      (steps : List (HandlerStep P)) (rec : Record) (r : Runner P)
      → let start : Record = record rec { status = running; updated = r.clock } in
        Ended
          (verdict returns steps)
          rec.id
          (run_handler p steps start (record_change p start r))
          (run_one p steps rec r)
  unfolding run_one
  run_one_end steps rec r =
      finish-Ended (verdict returns steps) rec.id _
        (run_handler-Fits returns rec.id steps _ _ (refl, refl))

  -- Only the handler changes the runner.
  abbrev pub IsQuiet : List (HandlerStep P) → Type 0
  IsQuiet [] = Unit
  IsQuiet (elsewhere f ∷ steps) = ⊥
  IsQuiet (panic t ∷ steps) = IsQuiet steps
  IsQuiet (give_up err ∷ steps) = IsQuiet steps
  IsQuiet (progress_to n step msg kv ∷ steps) = IsQuiet steps
  IsQuiet (log step msg kv ∷ steps) = IsQuiet steps
  IsQuiet (set_progress n ∷ steps) = IsQuiet steps

  canceled-persist : (rec : Record) (r : Runner P) → (persist p rec r).canceled ≡ r.canceled
  unfolding persist
  canceled-persist rec r = ground arith

  canceled-record_change :
      (rec : Record) (r : Runner P) → (record_change p rec r).canceled ≡ r.canceled
  unfolding put
  canceled-record_change rec r = canceled-persist rec (put rec r)

  canceled-append : (e : LogEvent) (r : Runner P) → (append p e r).canceled ≡ r.canceled
  unfolding append
  canceled-append e r = ground arith

  canceled-publish :
      (job : Text) (e : LogEvent) (r : Runner P) → (publish job e r).canceled ≡ r.canceled
  unfolding publish
  canceled-publish job e r = ground arith

  canceled-run_handler :
      (steps : List (HandlerStep P)) (rec : Record) (r : Runner P)
      → IsQuiet steps
      → (run_handler p steps rec r).runner.canceled ≡ r.canceled
  unfolding run_handler with_step fail_job logf
  canceled-run_handler [] rec r h = refl
  canceled-run_handler (progress_to n step msg kv ∷ steps) rec r h =
      canceled-run_handler steps _ _ h
      ∙ (canceled-append _ _ ∙ (canceled-publish _ _ _ ∙ canceled-record_change _ r))
  canceled-run_handler (give_up err ∷ steps) rec r h =
      canceled-run_handler steps _ _ h ∙ (canceled-publish _ _ _ ∙ canceled-record_change _ r)
  canceled-run_handler (log step msg kv ∷ steps) rec r h =
      canceled-run_handler steps _ _ h ∙ (canceled-append _ _ ∙ canceled-publish _ _ r)
  canceled-run_handler (set_progress n ∷ steps) rec r h = canceled-run_handler steps _ r h
  canceled-run_handler (panic t ∷ steps) rec r h = refl
  canceled-run_handler (elsewhere f ∷ steps) rec r h = absurd h

  canceled-finish : (end : HandlerEnd P) → (finish p end).canceled ≡ end.runner.canceled
  unfolding finish put persist
  canceled-finish end = ground arith

  canceled-cancel : (id : Text) (r : Runner P) → (cancel p id r).canceled ≡ insert id tt r.canceled
  unfolding cancel persist
  canceled-cancel id r = ground arith

  has-insert_self : (id : Text) (m : Assoc Text (Unit {0})) → has id (insert id tt m) ≡ true
  unfolding has
  has-insert_self id m = rw (lookup-insert_self id tt m, has)

  canceled-run_one :
      (steps : List (HandlerStep P)) (rec : Record) (r : Runner P)
      → IsQuiet steps
      → (run_one p (elsewhere (cancel p rec.id) ∷ steps) rec r).canceled
        ≡ insert rec.id tt r.canceled
  unfolding run_one run_handler
  canceled-run_one steps rec r q =
      canceled-finish _
      ∙ (canceled-run_handler steps _ _ q
          ∙ (canceled-cancel rec.id _ ∙ ap (insert rec.id tt) (canceled-record_change _ r)))

  succeeds :
      (v : Verdict) (id : Text) (end : HandlerEnd P) (r : Runner P)
      → v ≡ returns
      → Ended v id end r
      → (rec : Record) × (lookup id r.jobs ≡ some rec) × (rec.status ≡ succeeded)
  succeeds returns id end r e h = (h.0, h.1, h.2)
  succeeds (gives_up err) id end r e h = cc
  succeeds (panics t) id end r e h = cc

  -- A cancellation while the handler runs is overwritten: whatever the handler does without a
  -- panic, without a call of `Fail` and without another goroutine, the job ends as succeeded,
  -- though `IsCanceled` still answers true.
  cancel_overwritten :
      (steps : List (HandlerStep P)) (rec : Record) (r : Runner P)
      → IsQuiet steps
      → verdict returns steps ≡ returns
      → let r' = run_one p (elsewhere (cancel p rec.id) ∷ steps) rec r in
        (is_canceled rec.id r' ≡ true)
        × ((end : Record) × (lookup rec.id r'.jobs ≡ some end) × (end.status ≡ succeeded))
  unfolding is_canceled
  cancel_overwritten steps rec r q v =
      let steps' = elsewhere (cancel p rec.id) ∷ steps in
      (
        rw (canceled-run_one steps rec r q) (has-insert_self rec.id r.canceled),
        succeeds (verdict returns steps) rec.id _ _ v (run_one_end steps' rec r),
      )
