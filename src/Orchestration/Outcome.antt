-- ===== src/Orchestration/Outcome.antt =====
-- How the jobs of the orchestration end.
use guild_net.Prelude.{
  ℕ, Bool, true, false, Option, none, some, List, [], ◌∷◌, ◌++◌, ◌≡◌, ◌≢◌, refl, ◌∙◌, Text, codes,
  text_eq_inst, if◌then◌else◌, lookup,
}
use guild_net.Json.{Json, Row}
use guild_net.DbManager.{Result, ok, fail}
use guild_net.LocalDb.{Sql, get_value}
use guild_net.Jobs.{
  Runner, Persist, Record, HandlerStep, progress_to, give_up, log, set_progress, panic, elsewhere,
  succeeded, float_one, run_one,
}
use guild_net.Jobs.Outcome.{Verdict, returns, gives_up, panics, verdict, Ended, run_one_end}
use guild_net.Headscale.{Ambient, change_state, after_get, destroy}
use guild_net.Orchestration.{guarded, edit_cluster, if_present, cluster_destroy, handler_for}

-- The second list of steps, with the steps of other goroutines between them.
pub data Woven {S : Type 0} : List (HandlerStep S) → List (HandlerStep S) → Type 0 where
  done : Woven [] []
  own :
      {all steps : List (HandlerStep S)} (x : HandlerStep S)
      → Woven all steps
      → Woven (x ∷ all) (x ∷ steps)
  other :
      {all steps : List (HandlerStep S)} (f : Runner S → Runner S)
      → Woven all steps
      → Woven (elsewhere f ∷ all) steps

module _ {S : Type 0} where
  pub Woven-refl : (steps : List (HandlerStep S)) → Woven steps steps
  Woven-refl [] = done
  Woven-refl (x ∷ steps) = own x (Woven-refl steps)

  verdict-Woven :
      (v : Verdict) (all steps : List (HandlerStep S))
      → Woven all steps
      → verdict v all ≡ verdict v steps
  verdict-Woven v _ _ done = refl
  verdict-Woven v _ _ (own (progress_to n step msg kv) w) = verdict-Woven v _ _ w
  verdict-Woven v _ _ (own (give_up err) w) = verdict-Woven (gives_up err) _ _ w
  verdict-Woven v _ _ (own (log step msg kv) w) = verdict-Woven v _ _ w
  verdict-Woven v _ _ (own (set_progress n) w) = verdict-Woven v _ _ w
  verdict-Woven v _ _ (own (panic t) w) = refl
  verdict-Woven v _ _ (own (elsewhere f) w) = verdict-Woven v _ _ w
  verdict-Woven v _ _ (other f w) = verdict-Woven v _ _ w

  -- steps after which the handler returns
  Returns : List (HandlerStep S) → Type 0
  Returns steps = verdict returns steps ≡ returns

  Returns-append :
      (v : Verdict) (n : ℕ) (steps : List (HandlerStep S))
      → verdict v steps ≡ returns
      → verdict v (steps ++ set_progress n ∷ []) ≡ returns
  Returns-append v n [] h = h
  Returns-append v n (progress_to k step msg kv ∷ steps) h = Returns-append v n steps h
  Returns-append v n (give_up err ∷ steps) h = Returns-append (gives_up err) n steps h
  Returns-append v n (log step msg kv ∷ steps) h = Returns-append v n steps h
  Returns-append v n (set_progress k ∷ steps) h = Returns-append v n steps h
  Returns-append v n (panic t ∷ steps) h = h
  Returns-append v n (elsewhere f ∷ steps) h = Returns-append v n steps h

  guarded-Returns :
      (id : Text) (steps : List (HandlerStep S)) → Returns steps → Returns (guarded id steps)
  unfolding guarded Returns
  guarded-Returns [] steps h = refl
  guarded-Returns (c ∷ id) steps h = Returns-append returns float_one steps h

  if-Returns :
      (b : Bool) (xs ys : List (HandlerStep S))
      → Returns xs
      → Returns ys
      → Returns (if b then xs else ys)
  if-Returns true xs ys hx hy = hx
  if-Returns false xs ys hx hy = hy

noop-Returns :
    (S : Type 0) (step msg : Text) (kv : Row)
    → Returns {S = S} (log step msg kv ∷ set_progress float_one ∷ [])
unfolding Returns
noop-Returns S step msg kv = refl

module _ {S B : Type 0} (sql : Sql S B) (marshal : Row → Result B)
    (unmarshal : B → Result (Option Row)) (now : Ambient) (decode : Text → Row)
    (print : Json → Text) where
  -- no record that can be read is the `null` of a nil map
  abbrev pub NoNull : Option S → Type 0
  NoNull none = Unit
  NoNull (some s) = (c k : Text) → get_value sql unmarshal s c k ≢ ok none

  after_get-Returns :
      (action msg state id : Text) (got : Result (Option Row))
      → got ≢ ok none
      → Returns (after_get sql marshal unmarshal now action msg state id got).0
  unfolding Returns
  after_get-Returns action msg state id (fail e) h = refl
  after_get-Returns action msg state id (ok none) h = absurd (h refl)
  after_get-Returns action msg state id (ok (some rec)) h = refl

  change_state-Returns :
      (action msg state id : Text) (db : Option S)
      → NoNull db
      → Returns (change_state sql marshal unmarshal now action msg state db id).0
  unfolding Returns
  change_state-Returns action msg state id none h = refl
  change_state-Returns action msg state id (some s) h =
      after_get-Returns action msg state id (get_value sql unmarshal s (codes "headscales") id)
        (h (codes "headscales") id)

  destroy-Returns :
      (id : Text) (db : Option S) → Returns (destroy sql marshal unmarshal now db id).0
  unfolding Returns
  destroy-Returns id none = refl
  destroy-Returns id (some s) = refl

  edit_cluster-Returns :
      (id : Text) (change : Row → Row) (got : Result (Option Row))
      → got ≢ ok none
      → Returns (edit_cluster sql marshal unmarshal now decode print id change got)
  unfolding Returns
  edit_cluster-Returns id change (fail e) h = refl
  edit_cluster-Returns id change (ok none) h = absurd (h refl)
  edit_cluster-Returns id change (ok (some rec)) h = refl

  if_present-Returns :
      (id : Text) (change : Row → Row) (db : Option S)
      → NoNull db
      → Returns (if_present sql marshal unmarshal now decode print id change db)
  unfolding Returns
  if_present-Returns id change none h = refl
  if_present-Returns id change (some s) h =
      edit_cluster-Returns id change (get_value sql unmarshal s (codes "clusters") id)
        (h (codes "clusters") id)

  noted-Returns :
      (step msg : Text) (kv : Row) (steps : List (HandlerStep S))
      → Returns steps
      → Returns (log step msg kv ∷ steps)
  unfolding Returns
  noted-Returns step msg kv steps h = h

  cluster_destroy-Returns :
      (id : Text) (db : Option S)
      → Returns (cluster_destroy sql marshal unmarshal now decode print id db)
  unfolding Returns
  cluster_destroy-Returns id none = refl
  cluster_destroy-Returns id (some s) = refl

  handler_for-Returns :
      (kind spec_json : Text) (db : Option S)
      → NoNull db
      → Returns (handler_for sql marshal unmarshal now decode print kind db spec_json)
  unfolding handler_for
  handler_for-Returns kind spec_json db h =
      search
        (
          if-Returns, guarded-Returns, change_state-Returns, destroy-Returns, if_present-Returns,
          cluster_destroy-Returns, noted-Returns, noop-Returns,
        )
        depth 14 fits 4000

  Ended-returns :
      (p : Persist S) (v : Verdict) (id : Text) (end : _) (r : Runner S)
      → v ≡ returns
      → Ended p v id end r
      → (rec : Record) × (lookup id r.jobs ≡ some rec)
        × (rec.status ≡ succeeded)
        × (rec.progress ≡ float_one)
  Ended-returns p returns id end r e h = h
  Ended-returns p (gives_up err) id end r e h = cc
  Ended-returns p (panics t) id end r e h = cc

  -- Every job of the orchestration ends as succeeded with progress 1: whatever its kind and its spec
  -- are, whether the database is there, holds the record and stores what is written, and whatever
  -- other goroutines do meanwhile. The condition is that no record that is read is the JSON null.
  pub run_one-handler_for :
      (p : Persist S) (db : Option S) (rec : Record) (r : Runner S) (steps : List (HandlerStep S))
      → NoNull db
      → Woven steps (handler_for sql marshal unmarshal now decode print rec.kind db rec.spec_json)
      → (end : Record) × (lookup rec.id (run_one p steps rec r).jobs ≡ some end)
        × (end.status ≡ succeeded)
        × (end.progress ≡ float_one)
  unfolding Returns
  run_one-handler_for p db rec r steps h woven =
      Ended-returns p (verdict returns steps) rec.id _ _
        (verdict-Woven returns steps _ woven ∙ handler_for-Returns rec.kind rec.spec_json db h)
        (run_one_end p steps rec r)
