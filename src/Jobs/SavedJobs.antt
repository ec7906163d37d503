-- ===== src/Jobs/SavedJobs.antt =====
-- The round trip of a job through the local database.
use guild_net.Prelude.{
  ℕ, Bool, true, false, ◌&&◌, not, Option, none, some, List, [], ◌∷◌, ◌≡◌, refl, ap, ◌∙◌, inl, inr,
  ◌/◌, ◌%◌, ◌^◌, Text, ◌==◌, text_eq, text_eq_inst, nat_eq, lookup,
}
use guild_net.Json.{str, num, Row}
use guild_net.DbManager.{Result, ok}
use guild_net.LocalDb.{Sql, SqlLaws, get_value}
use guild_net.LocalDb.Reads.{IsBroken, get_value-put_value}
use guild_net.Settings.Values.{Codec, index}
use guild_net.Settings.RoundTrip.{index_ext}
use guild_net.Jobs.{Status, queued, running, succeeded, failed, canceled, named, LogEvent, Record}
use guild_net.Jobs.LocalPersist.{
  status_text, status_of, time_field, job_row, read_record, jobs_bucket, save_job,
}

-- a finite float64: json.Marshal refuses the others
abbrev pub is_finite : ℕ → Bool
is_finite n = not ((n / 2 ^ 52) % 2 ^ 11 == 2047)

-- texts and finite numbers, which encoding/json gives back as they were
abbrev pub all_scalar : Row → Bool
all_scalar [] = true
all_scalar ((k, str t) ∷ row) = all_scalar row
all_scalar ((k, num n) ∷ row) = is_finite n && all_scalar row
all_scalar ((k, v) ∷ row) = false

pub record ScalarLaws {B : Type 0} (codec : Codec B) : Type 0 where
  pub round_trip :
      (row : Row) (b : B)
      → all_scalar row ≡ true
      → codec.marshal row ≡ ok b
      → (row' : Row) × (codec.unmarshal b ≡ ok row') × ((k : Text) → lookup k row' ≡ lookup k row)

-- one of the statuses that the runner sets
abbrev pub IsKnown : Status → Type 0
IsKnown (named t) = ⊥
IsKnown _ = Unit

status_of-status_text : (st : Status) → IsKnown st → status_of (status_text st) ≡ st
unfolding status_of text_eq
status_of-status_text queued h = refl
status_of-status_text running h = refl
status_of-status_text succeeded h = refl
status_of-status_text failed h = refl
status_of-status_text canceled h = refl
status_of-status_text (named t) h = absurd h

module _ (format : ℕ → Text) (parse : Text → Option ℕ)
    (times : (t : ℕ) → parse (format t) ≡ some t) where
  time_field-format : (t : ℕ) → time_field parse (format t) ≡ t
  time_field-format t = rw (times t, time_field) refl

  read_record-job_row :
      (rec : Record)
      → IsKnown rec.status
      → read_record format parse (index (job_row format parse rec)) ≡ rec
  unfolding index lookup text_eq
  read_record-job_row rec known = simp (
    time_field-format rec.created,
    time_field-format rec.updated,
    status_of-status_text rec.status known,
  )

  all_scalar-job_row :
      (rec : Record) → is_finite rec.progress ≡ true → all_scalar (job_row format parse rec) ≡ true
  all_scalar-job_row rec finite = rw finite refl

  module _ {S B : Type 0} {sql : Sql S B} (laws : SqlLaws sql) {codec : Codec B}
      (scalar : ScalarLaws codec) (rows_of : List B → Result (List Row))
      (event_line : LogEvent → Text) where
    -- After SaveJob without an error, and unless the query fails, what stands under the job's id is
    -- read back as the record: every field of it, if its status is one that the runner sets and its
    -- progress is finite.
    pub read_record-save_job :
        (s s' : S) (rec : Record)
        → IsKnown rec.status
        → is_finite rec.progress ≡ true
        → save_job format parse sql codec rows_of event_line s rec ≡ (s', none)
        → ¬ IsBroken (sql.select_kv s' jobs_bucket rec.id)
        → (row : Row) × (get_value sql codec.unmarshal s' jobs_bucket rec.id ≡ ok row)
          × (read_record format parse (index row) ≡ rec)
    unfolding save_job
    read_record-save_job s s' rec known finite saved readable =
        let row = job_row format parse rec in
        elim (get_value-put_value laws codec.marshal codec.unmarshal s s' jobs_bucket rec.id row
          saved) [
            | inr broken ↦ absurd (readable broken)
            | inl (b, encoded, got) ↦
                (let (row', decoded, same) =
                    scalar.round_trip row b (all_scalar-job_row rec finite) encoded in
                  (
                    row',
                    got ∙ decoded,
                    ap (read_record format parse) (index_ext row row' same)
                        ∙ read_record-job_row rec known,
                  ))
          ]
