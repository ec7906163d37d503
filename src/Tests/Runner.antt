-- ===== src/Tests/Runner.antt =====
-- The job runner at concrete jobs.
use guild_net.Prelude.{
  ℕ, Bool, true, false, Option, none, some, List, [], ◌∷◌, ◌++◌, ◌≡◌, refl, ◌+◌, ◌≤◌, Text, codes,
  text_eq, lookup, insert, if◌then◌else◌, arith, map, ◌==◌, text_eq_inst,
}
use guild_net.DbManager.{ok}
use guild_net.Jobs.{
  queued, running, Record, LogEvent, Channel, Runner, Persist, set_progress, panic, put, persist,
  submit, subs_of, run_handler, record_change, run_one, channel_cap,
}
use guild_net.Jobs.Outcome.{Ended, panics, run_one_end}
use guild_net.Jobs.Listing.{find_record}
use guild_net.Jobs.Logs.{publish_each, receive, publish_keeps_oldest}

-- a store that keeps the saved records in a list
abbrev records : Persist (List Record)
records = record {
  save_job = λ s rec. (rec ∷ s, none);
  append_log = λ s job e. (s, none);
  list_jobs = λ s. ok s;
  get_job = λ s id. find_record id s;
}

abbrev backup : Record
backup = record {
  id = codes "j1";
  kind = codes "backup";
  spec_json = [];
  status = queued;
  progress = 0;
  created = 0;
  updated = 0;
  result = [];
  error = [];
}

abbrev idle : Runner (List Record)
idle = record {
  jobs = [];
  queues = [];
  workers = [];
  log_subs = (codes "j1", record { chan_id = 0; buffered = [] } ∷ []) ∷ [];
  store = some [];
  canceled = [];
  clock = 7;
  next_chan = 1;
}

abbrev started : Record
started = record backup { status = running; updated = 7 }

run_one_end_example :
    Ended records
      (panics (codes "boom"))
      (codes "j1")
      (run_handler records
        (set_progress 1 ∷ panic (codes "boom") ∷ [])
        started
        (record_change records started idle))
      (run_one records (set_progress 1 ∷ panic (codes "boom") ∷ []) backup idle)
run_one_end_example = run_one_end records (set_progress 1 ∷ panic (codes "boom") ∷ []) backup idle

abbrev after_submit : Runner (List Record)
after_submit = record idle {
  jobs = (codes "j1", record backup { created = 7; updated = 7 }) ∷ [];
  queues = (codes "backup", codes "j1" ∷ []) ∷ [];
  workers = (codes "backup", 1) ∷ [];
  store = some (record backup { created = 7; updated = 7 } ∷ []);
}

submitted : submit records (codes "j1") (codes "backup") [] idle ≡ (after_submit, true)
unfolding submit persist put insert lookup text_eq
submitted = refl

abbrev note : LogEvent
note = record { ts = 7; job = codes "j1"; step = []; msg = codes "hello"; kv = []; err = [] }

one_bounded :
    guild_net.Prelude.All
      (λ (ch : Channel). guild_net.Prelude.length ch.buffered ≤ channel_cap)
      (subs_of (codes "j1") idle)
unfolding lookup text_eq
one_bounded = (omega arith, tt)

publish_keeps_oldest_example :
    subs_of (codes "j1") (publish_each (codes "j1") (note ∷ note ∷ []) idle)
    ≡ map (receive (note ∷ note ∷ [])) (subs_of (codes "j1") idle)
publish_keeps_oldest_example = publish_keeps_oldest (codes "j1") (note ∷ note ∷ []) idle one_bounded
