-- ===== src/Tests/Lifecycle.antt =====
-- The jobs of the orchestration over a local database in memory.
use guild_net.Prelude.{
  Option, none, some, List, [], ◌∷◌, ◌≡◌, ◌≢◌, Text, codes, text_eq_inst, lookup,
}
use guild_net.Prelude.Equality.{pair_eq}
use guild_net.Json.{Row, str}
use guild_net.DbManager.{Result, ok}
use guild_net.LocalDb.{selected, scan_value, get_value}
use guild_net.Jobs.{
  Persist, Runner, Record, HandlerStep, queued, succeeded, elsewhere, cancel, run_one, float_one,
}
use guild_net.Jobs.LocalPersist.{local_persist}
use guild_net.Headscale.{Ambient}
use guild_net.Orchestration.{handler_for}
use guild_net.Orchestration.Outcome.{Woven-refl, other, run_one-handler_for}
use guild_net.Tests.Storage.{Tables, memory_sql, same_row, one_char, first_char}

abbrev pub some_row : Row → Result (Option Row)
some_row row = ok (some row)

abbrev pub noon : Ambient
noon = record { stamp = codes "12:00"; stamp_nano = codes "12:00:00.0"; uuid = codes "u1" }

-- the database holds a headscale that is ready
abbrev pub with_headscale : Tables
with_headscale =
    (((codes "headscales", codes "h1"), (codes "state", str (codes "ready")) ∷ []) ∷ [], [])

never_null : (o : Option Row) → scan_value some_row (selected o) ≢ ok none
unfolding scan_value
never_null none h = cc
never_null (some row) h = cc

abbrev stop_job : Record
stop_job = record {
  id = codes "j1";
  kind = codes "headscale.stop";
  spec_json = codes "spec";
  status = queued;
  progress = 0;
  created = 0;
  updated = 0;
  result = [];
  error = [];
}

abbrev pub stop_runner : Runner Tables
stop_runner = record {
  jobs = [];
  queues = [];
  workers = [];
  log_subs = [];
  store = some with_headscale;
  canceled = [];
  clock = 7;
  next_chan = 0;
}

abbrev pub decode_h1 : Text → Row
decode_h1 t = (codes "id", str (codes "h1")) ∷ []

abbrev pub job_store : Persist Tables
job_store = local_persist one_char first_char memory_sql same_row (λ bs. ok bs) (λ e. e.msg)

-- the steps of the handler, behind a cancellation
abbrev canceled_steps : List (HandlerStep Tables)
canceled_steps =
    elsewhere (cancel job_store (codes "j1"))
    ∷ handler_for memory_sql same_row.marshal some_row noon decode_h1 (λ v. [])
        (codes "headscale.stop") (some with_headscale) (codes "spec")

run_one-handler_for_example :
    (end : Record) × (lookup
        (codes "j1")
        (run_one job_store canceled_steps stop_job stop_runner).jobs
      ≡ some end)
    × (end.status ≡ succeeded)
    × (end.progress ≡ float_one)
unfolding get_value
run_one-handler_for_example =
    run_one-handler_for memory_sql same_row.marshal some_row noon decode_h1 (λ v. []) job_store
      (some with_headscale) stop_job stop_runner canceled_steps
      (λ c k. never_null (lookup (c, k) with_headscale.0))
      (other (cancel job_store (codes "j1")) (Woven-refl _))
