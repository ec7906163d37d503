-- ===== src/Jobs/LocalPersist.antt =====
-- internal/jobs/persist_localdb.go: the store of jobs in the local database. `format` and `parse` are
-- time.Format and time.Parse at RFC3339Nano, which refuses the empty text, and `event_line` is
-- json.Marshal of a log event.
use guild_net.Prelude.{
  ℕ, Option, none, some, List, [], ◌∷◌, ◌++◌, Text, codes, ◌==◌, text_eq_inst, if◌then◌else◌,
}
use guild_net.Json.{Json, str, num, Row}
use guild_net.DbManager.{Result, ok, fail}
use guild_net.LocalDb.{Sql, newline, put_value, get_value, list_values, append_log}
use guild_net.Settings.Values.{Codec, index}
use guild_net.Jobs.{
  Status, queued, running, succeeded, failed, canceled, named, LogEvent, Record, Persist,
}

abbrev pub status_text : Status → Text
status_text queued = codes "queued"
status_text running = codes "running"
status_text succeeded = codes "succeeded"
status_text failed = codes "failed"
status_text canceled = codes "canceled"
status_text (named t) = t

unfoldable pub status_of : Text → Status
status_of t =
    if t == codes "queued"
    then queued
    else (if t == codes "running"
        then running
        else (if t == codes "succeeded"
            then succeeded
            else (if t == codes "failed"
                then failed
                else (if t == codes "canceled" then canceled else named t))))

abbrev pub jobs_bucket : Text
jobs_bucket = codes "jobs"

abbrev pub joblogs_bucket : Text
joblogs_bucket = codes "joblogs"

-- `v, _ := m[k].(string)`: the zero value of the record's field is the empty text too
abbrev pub text_field : Json → Text
text_field (str t) = t
text_field v = []

-- `v, ok := m[k].(float64)`
abbrev pub num_field : Json → ℕ
num_field (num n) = n
num_field v = 0

-- What a time that is absent or cannot be parsed reads as: the zero time, here the clock's 0.
abbrev pub time_field : (Text → Option ℕ) → Text → ℕ
time_field parse t = elim (parse t) [ some n ↦ n | none ↦ 0 ]

module _ (format : ℕ → Text) (parse : Text → Option ℕ) where
  abbrev pub job_row : Record → Row
  job_row rec =
      (codes "id", str rec.id)
      ∷ (codes "kind", str rec.kind)
      ∷ (codes "specJSON", str rec.spec_json)
      ∷ (codes "status", str (status_text rec.status))
      ∷ (codes "progress", num rec.progress)
      ∷ (codes "created", str (format rec.created))
      ∷ (codes "updated", str (format rec.updated))
      ∷ (codes "result", str rec.result)
      ∷ (codes "error", str rec.error)
      ∷ []

  -- one round of the loop of `ListJobs`, before the test of the id
  abbrev pub read_record : (Text → Json) → Record
  read_record m = record {
    id = text_field (m (codes "id"));
    kind = text_field (m (codes "kind"));
    spec_json = text_field (m (codes "specJSON"));
    status = status_of (text_field (m (codes "status")));
    progress = num_field (m (codes "progress"));
    created = time_field parse (text_field (m (codes "created")));
    updated = time_field parse (text_field (m (codes "updated")));
    result = text_field (m (codes "result"));
    error = text_field (m (codes "error"));
  }

  -- a record without an id is left out
  abbrev pub with_id : Record → List Record → List Record
  with_id rec out = elim rec.id [ [] ↦ out | c ∷ s ↦ rec ∷ out ]

  unfoldable pub records_of : List Row → List Record
  records_of [] = []
  records_of (m ∷ arr) = with_id (read_record (index m)) (records_of arr)

  abbrev pub first_with : Text → List Record → Option Record
  first_with id [] = none
  first_with id (rec ∷ recs) = if rec.id == id then some rec else first_with id recs

  module _ {S B : Type 0} (sql : Sql S B) (codec : Codec B) (rows_of : List B → Result (List Row))
      (event_line : LogEvent → Text) where
    unfoldable pub save_job : S → Record → S × Option Text
    save_job s rec = put_value sql codec.marshal s jobs_bucket rec.id (job_row rec)

    unfoldable pub append_job_log : S → Text → LogEvent → S × Option Text
    append_job_log s job_id e =
        append_log sql s joblogs_bucket job_id (event_line e ++ newline ∷ [])

    abbrev pub listed : Result (List Row) → Result (List Record)
    listed (fail e) = fail e
    listed (ok arr) = ok (records_of arr)

    unfoldable pub list_jobs : S → Result (List Record)
    list_jobs s = listed (list_values sql rows_of s jobs_bucket)

    abbrev pub found_in : Text → Result (List Record) → Option Record
    found_in id (fail e) = none
    found_in id (ok recs) = first_with id recs

    abbrev pub if_stored : Text → S → Result Row → Option Record
    if_stored id s (fail e) = none
    if_stored id s (ok m) = found_in id (list_jobs s)

    -- the row is read first, and only its presence matters
    unfoldable pub get_job : S → Text → Option Record
    get_job s id = if_stored id s (get_value sql codec.unmarshal s jobs_bucket id)

    -- `LocalPersist` as the runner's store
    abbrev pub local_persist : Persist S
    local_persist = record {
      save_job = save_job;
      append_log = append_job_log;
      list_jobs = list_jobs;
      get_job = get_job;
    }
