-- ===== src/Jobs.antt =====
-- internal/jobs/runner.go: the job runner. The mutex makes each method one step on the runner; the
-- map holds records by value, since no pointer into it leaves the runner. `time.Now()` reads
-- `clock`, and `uuid.NewString()` is an argument of `submit`.
pub mod Outcome
pub mod Listing
pub mod Logs
pub mod LocalPersist
pub mod SavedJobs
use guild_net.Prelude.{
  ℕ, zero, suc, ◌+◌, ◌-◌, ◌<◌, Bool, true, false, Option, none, some, List, [], ◌∷◌, ◌++◌, Text,
  codes, text_eq_inst, nat_eq, ◌==◌, if◌then◌else◌, ltb, length, Assoc, lookup, insert, has,
}
use guild_net.Json.{Row}
use guild_net.DbManager.{Result, ok, fail}

pub data Status : Type 0 where
  queued running succeeded failed canceled : Status
  named : Text → Status

pub record LogEvent : Type 0 where
  pub ts : ℕ
  pub job : Text
  pub step : Text
  pub msg : Text
  pub kv : Row
  pub err : Text

-- `progress` is a float64, kept as its IEEE 754 bit pattern.
pub record Record : Type 0 where
  pub id : Text
  pub kind : Text
  pub spec_json : Text
  pub status : Status
  pub progress : ℕ
  pub created : ℕ
  pub updated : ℕ
  pub result : Text
  pub error : Text

abbrev pub float_zero : ℕ
float_zero = 0

abbrev pub float_one : ℕ
float_one = 0x3ff0_0000_0000_0000

-- `Persist`, over the state `P` of its implementation; the runner drops the errors of the writes.
pub record Persist (P : Type 0) : Type 0 where
  pub save_job : P → Record → P × Option Text
  pub append_log : P → Text → LogEvent → P × Option Text
  pub list_jobs : P → Result (List Record)
  pub get_job : P → Text → Option Record

-- A subscriber's channel: what it has buffered, the oldest first.
pub record Channel : Type 0 where
  pub chan_id : ℕ
  pub buffered : List LogEvent

-- `workers` counts the goroutines that serve the queue of a kind, and `next_chan` names the next
-- channel that is made.
pub record Runner (P : Type 0) : Type 0 where
  pub jobs : Assoc Text Record
  pub queues : Assoc Text (List Text)
  pub workers : Assoc Text ℕ
  pub log_subs : Assoc Text (List Channel)
  pub store : Option P
  pub canceled : Assoc Text (Unit {0})
  pub clock : ℕ
  pub next_chan : ℕ

abbrev pub queue_cap : ℕ
queue_cap = 64

abbrev pub channel_cap : ℕ
channel_cap = 128

-- one non-blocking send: a full channel misses the event
unfoldable pub offer : LogEvent → Channel → Channel
offer e ch =
    if ltb (length ch.buffered) channel_cap
    then record ch { buffered = ch.buffered ++ e ∷ [] }
    else ch

abbrev pub offer_all : LogEvent → List Channel → List Channel
offer_all e [] = []
offer_all e (ch ∷ arr) = offer e ch ∷ offer_all e arr

abbrev pub drop_channel : ℕ → List Channel → List Channel
drop_channel n [] = []
drop_channel n (ch ∷ arr) = if ch.chan_id == n then arr else ch ∷ drop_channel n arr

-- the map's records, the ids that a list has, and the records that a list lacks
abbrev pub values : Assoc Text Record → List Record
values [] = []
values ((id, rec) ∷ m) = rec ∷ values m

abbrev pub seen : Text → List Record → Bool
seen id [] = false
seen id (rec ∷ recs) = if rec.id == id then true else seen id recs

abbrev pub unseen : List Record → List Record → List Record
unseen out [] = []
unseen out (rec ∷ persisted) =
    if seen rec.id out then unseen out persisted else rec ∷ unseen out persisted

abbrev pub merge : List Record → Result (List Record) → List Record
merge out (fail e) = out
merge out (ok persisted) = out ++ unseen out persisted

module _ {P : Type 0} where
  unfoldable pub new : Option P → ℕ → Runner P
  new store clock = record {
    jobs = [];
    queues = [];
    workers = [];
    log_subs = [];
    store = store;
    canceled = [];
    clock = clock;
    next_chan = 0;
  }

  unfoldable pub put : Record → Runner P → Runner P
  put rec r = record r { jobs = insert rec.id rec r.jobs }

  -- `r.queues[kind]`, empty when `ensureQueue` makes it
  abbrev pub queue_of : Text → Runner P → List Text
  queue_of kind r = elim (lookup kind r.queues) [ some q ↦ q | none ↦ [] ]

  abbrev pub workers_of : Text → Runner P → ℕ
  workers_of kind r = elim (lookup kind r.workers) [ some n ↦ n | none ↦ 0 ]

  abbrev pub subs_of : Text → Runner P → List Channel
  subs_of job r = elim (lookup job r.log_subs) [ some arr ↦ arr | none ↦ [] ]

  -- a job without subscribers has no entry in the map, and gets none
  unfoldable pub publish : Text → LogEvent → Runner P → Runner P
  publish job e r = elim (lookup job r.log_subs) [
    | none ↦ r
    | some arr ↦ record r { log_subs = insert job (offer_all e arr) r.log_subs }
  ]

  -- `SubscribeLogs`, and the `cancel` that it returns
  unfoldable pub subscribe_logs : Text → Runner P → Runner P × ℕ
  subscribe_logs job r =
      let ch : Channel = record { chan_id = r.next_chan; buffered = [] } in
      (
        record r {
          log_subs = insert job (subs_of job r ++ ch ∷ []) r.log_subs;
          next_chan = r.next_chan + 1;
        },
        r.next_chan,
      )

  unfoldable pub cancel_sub : Text → ℕ → Runner P → Runner P
  cancel_sub job n r = record r {
    log_subs = insert job (drop_channel n (subs_of job r)) r.log_subs;
  }

  -- `IsCanceled`
  unfoldable pub is_canceled : Text → Runner P → Bool
  is_canceled id r = has id r.canceled

module _ {P : Type 0} (p : Persist P) where
  unfoldable pub persist : Record → Runner P → Runner P
  persist rec r = elim r.store [
    | none ↦ r
    | some s ↦ record r { store = some (p.save_job s rec).0 }
  ]

  unfoldable pub append : LogEvent → Runner P → Runner P
  append e r = elim r.store [
    | none ↦ r
    | some s ↦ record r { store = some (p.append_log s e.job e).0 }
  ]

  -- a record is put into the map and then saved
  abbrev pub record_change : Record → Runner P → Runner P
  record_change rec r = persist rec (put rec r)

  -- `Submit`, and whether `q <- id` was possible: on a full queue it blocks, with the record stored
  -- and the worker started. Every call starts a worker.
  unfoldable pub submit : Text → Text → Text → Runner P → Runner P × Bool
  submit id kind spec_json r =
      let rec : Record = record {
        id = id;
        kind = kind;
        spec_json = spec_json;
        status = queued;
        progress = float_zero;
        created = r.clock;
        updated = r.clock;
        result = [];
        error = [];
      } in
      let r1 = record_change rec r in
      let r2 : Runner P = record r1 { workers = insert kind (workers_of kind r1 + 1) r1.workers } in
      if ltb (length (queue_of kind r2)) queue_cap
      then (record r2 { queues = insert kind (queue_of kind r2 ++ id ∷ []) r2.queues }, true)
      else (r2, false)

  -- `Get`
  unfoldable pub get : Text → Runner P → Option Record
  get id r = elim (lookup id r.jobs) [
    | some rec ↦ some rec
    | none ↦ elim r.store [ some s ↦ p.get_job s id | none ↦ none ]
  ]

  -- `List`: the map's records, and those of the store that the map does not have
  unfoldable pub list : Runner P → List Record
  list r = elim r.store [ none ↦ values r.jobs | some s ↦ merge (values r.jobs) (p.list_jobs s) ]

  -- `WithStep` and `Fail` change the caller's record too, which comes back first
  unfoldable pub with_step : ℕ → Text → Text → Row → Record → Runner P → Record × Runner P
  with_step progress step msg kv rec r =
      let rec' : Record = record rec { progress = progress; updated = r.clock } in
      let e : LogEvent = record {
        ts = r.clock;
        job = rec.id;
        step = step;
        msg = msg;
        kv = kv;
        err = [];
      } in
      (rec', append e (publish rec.id e (record_change rec' r)))

  unfoldable pub fail_job : Text → Record → Runner P → Record × Runner P
  fail_job err rec r =
      let rec' : Record = record rec { status = failed; error = err; updated = r.clock } in
      (
        rec',
        publish rec.id
            (record {
              ts = r.clock;
              job = rec.id;
              step = [];
              msg = codes "failed";
              kv = [];
              err = err;
            })
            (record_change rec' r),
      )

  -- the `logf` that a handler is given
  unfoldable pub logf : Text → Text → Row → Record → Runner P → Runner P
  logf step msg kv rec r =
      let e : LogEvent = record {
        ts = r.clock;
        job = rec.id;
        step = step;
        msg = msg;
        kv = kv;
        err = [];
      } in
      append e (publish rec.id e r)

  unfoldable pub cancel : Text → Runner P → Runner P
  cancel id r =
      let r' : Runner P = record r { canceled = insert id tt r.canceled } in
      elim (lookup id r.jobs) [
        | none ↦ r'
        | some rec ↦
            (let rec' : Record = record rec { status = Status.canceled; updated = r.clock } in
              persist rec' (record r' { jobs = insert id rec' r.jobs }))
      ]

-- What a handler does between its start and its end. `elsewhere` is a change that other goroutines
-- make to the runner meanwhile: a cancellation, a submission, the passing of time.
pub data HandlerStep (P : Type 0) : Type 0 where
  progress_to : ℕ → Text → Text → Row → HandlerStep P
  give_up : Text → HandlerStep P
  log : Text → Text → Row → HandlerStep P
  set_progress : ℕ → HandlerStep P
  panic : Text → HandlerStep P
  elsewhere : (Runner P → Runner P) → HandlerStep P

-- The handler's record and the runner when it returns, and the text of its panic, if it panicked.
pub record HandlerEnd (P : Type 0) : Type 0 where
  pub rec : Record
  pub runner : Runner P
  pub panicked : Option Text

module _ {P : Type 0} (p : Persist P) where
  unfoldable pub run_handler : List (HandlerStep P) → Record → Runner P → HandlerEnd P
  run_handler [] rec r = record { rec = rec; runner = r; panicked = none }
  run_handler (progress_to n step msg kv ∷ steps) rec r =
      let (rec', r') = with_step p n step msg kv rec r in run_handler steps rec' r'
  run_handler (give_up err ∷ steps) rec r =
      let (rec', r') = fail_job p err rec r in run_handler steps rec' r'
  run_handler (log step msg kv ∷ steps) rec r = run_handler steps rec (logf p step msg kv rec r)
  run_handler (set_progress n ∷ steps) rec r = run_handler steps (record rec { progress = n }) r
  run_handler (panic v ∷ steps) rec r = record { rec = rec; runner = r; panicked = some v }
  run_handler (elsewhere f ∷ steps) rec r = run_handler steps rec (f r)

  abbrev pub is_running : Status → Bool
  is_running running = true
  is_running _ = false

  -- `runOne` behind the handler's call: the deferred recovery, or the end of a running job
  unfoldable pub finish : HandlerEnd P → Runner P
  finish end = elim end.panicked [
    | some v ↦
        record_change p
          (record (end.rec) { status = failed; error = v; updated = end.runner.clock }) end.runner
    | none ↦
        if is_running end.rec.status
        then record_change p
            (record (end.rec) {
              status = succeeded;
              progress = float_one;
              updated = end.runner.clock;
            })
            end.runner
        else end.runner
  ]

  unfoldable pub run_one : List (HandlerStep P) → Record → Runner P → Runner P
  run_one steps rec r =
      let rec' : Record = record rec { status = running; updated = r.clock } in
      finish (run_handler steps rec' (record_change p rec' r))

  -- a worker's turn: the next id of the queue, skipped if no record is found
  unfoldable pub work : List (HandlerStep P) → Text → Runner P → Runner P
  work steps kind r = elim (queue_of kind r) [
    | [] ↦ r
    | id ∷ q ↦
        (let r' : Runner P = record r { queues = insert kind q r.queues } in
          elim (get p id r') [ none ↦ r' | some rec ↦ run_one steps rec r' ])
  ]
