-- ===== src/Jobs/Listing.antt =====
-- `Submit`, and `List` against `Get`.
use guild_net.Prelude.{
  Option-cases, ◌+◌, true, false, Option, none, some, List, [], ◌∷◌, ◌++◌, ◌≡◌, refl, Text,
  text_eq_inst, text_eq_iff, ◌==◌, if◌then◌else◌, arith, lookup, All, Assoc, Bool-cases, inl, inr,
}
use guild_net.Prelude.Maps.{lookup-insert_self}
use guild_net.DbManager.{ok}
use guild_net.Jobs.{
  queued, Record, Runner, Persist, values, seen, unseen, merge, list, get, put, persist, submit,
  queue_of, float_zero, workers_of,
}

-- The first record of a list with that id.
abbrev pub find_record : Text → List Record → Option Record
find_record id [] = none
find_record id (rec ∷ recs) = if rec.id == id then some rec else find_record id recs

-- Every record of the map stands under its own id.
abbrev pub IsKeyed : Assoc Text Record → Type 0
IsKeyed m = All (λ (entry : Text × Record). entry.1.id ≡ entry.0) m

find_record-values :
    (id : Text) (m : Assoc Text Record) → IsKeyed m → find_record id (values m) ≡ lookup id m
unfolding lookup
find_record-values id [] h = refl
find_record-values id ((k, rec) ∷ m) h = simp (h.0, find_record-values id m h.1)

abbrev or_else : Option Record → Option Record → Option Record
or_else none o = o
or_else (some rec) o = some rec

find_record-append :
    (id : Text) (xs ys : List Record)
    → find_record id (xs ++ ys) ≡ or_else (find_record id xs) (find_record id ys)
find_record-append id [] ys = refl
find_record-append id (x ∷ xs) ys = ground (arith, find_record-append id xs ys)

find_record-unseen :
    (id : Text) (out ps : List Record)
    → find_record id (unseen out ps) ≡ (if seen id out then none else find_record id ps)
find_record-unseen id out [] = ground arith
find_record-unseen id out (x ∷ ps) =
    ground (arith, find_record-unseen id out ps, text_eq_iff x.id id)

seen-false : (id : Text) (recs : List Record) → seen id recs ≡ false → find_record id recs ≡ none
seen-false id [] h = refl
seen-false id (x ∷ recs) h = ground (arith, seen-false id recs)

seen-true :
    (id : Text) (recs : List Record)
    → seen id recs ≡ true
    → (rec : Record) × (find_record id recs ≡ some rec)
seen-true id [] h = cc
seen-true id (x ∷ recs) h = elim (Bool-cases (x.id == id)) [
  | inl same ↦ (x, rw same)
  | inr other ↦ let (rec, found) = seen-true id recs (rw other at h) in (rec, rw other found)
]

find_record-merge :
    (id : Text) (out ps : List Record)
    → find_record id (merge out (ok ps)) ≡ or_else (find_record id out) (find_record id ps)
find_record-merge id out ps = elim (Bool-cases (seen id out)) [
  | inl old ↦
      let (rec, found) = seen-true id out old in
      rw (find_record-append id out (unseen out ps), found)
  | inr new ↦ ground (
    arith,
    find_record-append id out (unseen out ps),
    find_record-unseen id out ps,
    seen-false id out,
  )
]

module _ {P : Type 0} (p : Persist P) where
  -- What a store promises to the runner: a record is got exactly if it is listed.
  pub record ListsWhatItGets : Type 0 where
    pub listed :
        (s : P)
        → (ps : List Record) × (p.list_jobs s ≡ ok ps)
          × ((id : Text) → p.get_job s id ≡ find_record id ps)

  -- `List` and `Get` agree: over a store that lists exactly the records that it gets, the first
  -- record with an id on the list is the one that `Get` returns, and an id that `Get` does not find
  -- is not on the list. The runner's own record comes before the stored one.
  pub list-get_agree :
      (r : Runner P) (id : Text)
      → IsKeyed r.jobs
      → ListsWhatItGets
      → find_record id (list p r) ≡ get p id r
  unfolding list get
  list-get_agree r id keyed law = elim (Option-cases r.store) [
    | inl nil ↦ ground (arith, find_record-values id r.jobs keyed)
    | inr (s, some_store) ↦
        let (ps, listed, gets) = law.listed s in
        ground (
          arith,
          find_record-values id r.jobs keyed,
          listed,
          gets id,
          find_record-merge id (values r.jobs) ps,
        )
  ]

  -- After a `Submit` that does not block, the job is stored as queued, its id stands at the end of
  -- the queue of its kind, and one more worker serves that kind, however many there were before.
  pub submit_enqueues :
      (id kind spec_json : Text) (r r' : Runner P)
      → submit p id kind spec_json r ≡ (r', true)
      → ((rec : Record) × (lookup id r'.jobs ≡ some rec)
          × (rec.status ≡ queued)
          × (rec.kind ≡ kind))
        × (queue_of kind r' ≡ queue_of kind r ++ id ∷ [])
        × (workers_of kind r' ≡ workers_of kind r + 1)
  unfolding submit put persist
  submit_enqueues id kind spec_json r r' h =
      let rec : Record = record {
        id = id;
        kind = kind;
        spec_json = spec_json;
        status = queued;
        progress = float_zero;
        created = r.clock;
        updated = r.clock;
        result = [];
        error = [];
      } in
      (
        (rec, ground (arith, lookup-insert_self id rec r.jobs), refl, refl),
        ground (arith, lookup-insert_self kind (queue_of kind r ++ id ∷ []) r.queues),
        ground (arith, lookup-insert_self kind (workers_of kind r + 1) r.workers),
      )
