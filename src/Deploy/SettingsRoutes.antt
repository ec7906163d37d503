-- ===== src/Deploy/SettingsRoutes.antt =====
-- internal/api/router.go: the routes of the settings of Tailscale, of the database and of the host.
use guild_net.Prelude.{Option, none, some, ◌≡◌, ap, ◌∙◌, Text, codes, text_eq_inst}
use guild_net.LocalDb.{Sql, SqlLaws}
use guild_net.LocalDb.Reads.{IsBroken}
use guild_net.Settings.Values.{
  Tailscale, Database, Global, Codec, bucket, key_ts, key_db, key_global,
}
use guild_net.Settings.{
  get_tailscale, put_tailscale, get_database, put_database, get_global, put_global,
}
use guild_net.Settings.RoundTrip.{
  CodecLaws, trimmed_tailscale, trimmed_database, normal_global, get_tailscale-put_tailscale,
  get_database-put_database, get_global-put_global,
}
use guild_net.Deploy.{Verb, get_verb, put_verb, ApiRequest}

pub data SettingsKind : Type 0 where
  tailscale_kind database_kind global_kind : SettingsKind

pub data Setting : Type 0 where
  tailscale : Tailscale → Setting
  database : Database → Setting
  global : Global → Setting

-- `saved` has the name that `OnSettingsChanged` is called with.
pub data SettingsReply : Type 0 where
  unavailable not_allowed : SettingsReply
  shown : Setting → SettingsReply
  saved : Text → SettingsReply

-- what json.Decoder leaves in each of the structures
pub record Decoders : Type 0 where
  pub decode_tailscale : Text → Tailscale
  pub decode_database : Text → Database
  pub decode_global : Text → Global

abbrev pub decode_setting : Decoders → SettingsKind → Text → Setting
decode_setting d tailscale_kind body = tailscale (d.decode_tailscale body)
decode_setting d database_kind body = database (d.decode_database body)
decode_setting d global_kind body = global (d.decode_global body)

abbrev pub kind_name : SettingsKind → Text
kind_name tailscale_kind = codes "tailscale"
kind_name database_kind = codes "database"
kind_name global_kind = codes "global"

module _ {S B : Type 0} (sql : Sql S B) (codec : Codec B) (d : Decoders) where
  abbrev pub get_setting : SettingsKind → S → Setting
  get_setting tailscale_kind s = tailscale (get_tailscale sql codec s).0
  get_setting database_kind s = database (get_database sql codec s).0
  get_setting global_kind s = global (get_global sql codec s).0

  abbrev pub put_setting : S → Setting → S × Option Text
  put_setting s (tailscale ts) = put_tailscale sql codec s ts
  put_setting s (database db) = put_database sql codec s db
  put_setting s (global g) = put_global sql codec s g

  abbrev pub settings_verb : Verb → SettingsKind → Text → S → S × SettingsReply
  settings_verb get_verb kind body s = (s, shown (get_setting kind s))
  settings_verb put_verb kind body s =
      ((put_setting s (decode_setting d kind body)).0, saved (kind_name kind))
  settings_verb _ kind body s = (s, not_allowed)

  abbrev pub with_db : Option S → (S → S × SettingsReply) → Option S × SettingsReply
  with_db none serve = (none, unavailable)
  with_db (some s) serve = (some (serve s).0, (serve s).1)

  -- the routes do not ask for the authorisation of the request
  unfoldable pub handle_settings : SettingsKind → ApiRequest → Option S → Option S × SettingsReply
  handle_settings kind req db = with_db db (settings_verb req.verb kind req.body)

-- what a GET shows of a setting: the texts are trimmed, and a blank listen address is the default one
abbrev pub normal_setting : Setting → Setting
normal_setting (tailscale ts) = tailscale (trimmed_tailscale ts)
normal_setting (database db) = database (trimmed_database db)
normal_setting (global g) = global (normal_global g)

abbrev pub key_of : SettingsKind → Text
key_of tailscale_kind = key_ts
key_of database_kind = key_db
key_of global_kind = key_global

module _ {S B : Type 0} {sql : Sql S B} (laws : SqlLaws sql) {codec : Codec B}
    (codec_laws : CodecLaws codec) (d : Decoders) where
  get_setting-put_setting :
      (kind : SettingsKind) (body : Text) (s s' : S)
      → put_setting sql codec d s (decode_setting d kind body) ≡ (s', none)
      → ¬ IsBroken (sql.select_kv s' bucket (key_of kind))
      → get_setting sql codec d kind s' ≡ normal_setting (decode_setting d kind body)
  get_setting-put_setting tailscale_kind body s s' put readable =
      ap (λ p. tailscale p.0)
        (get_tailscale-put_tailscale laws codec_laws s s' (d.decode_tailscale body) put readable)
  get_setting-put_setting database_kind body s s' put readable =
      ap (λ p. database p.0)
        (get_database-put_database laws codec_laws s s' (d.decode_database body) put readable)
  get_setting-put_setting global_kind body s s' put readable =
      ap (λ p. global p.0)
        (get_global-put_global laws codec_laws s s' (d.decode_global body) put readable)

  settings_verb-put :
      (v : Verb) (kind : SettingsKind) (body : Text) (s : S)
      → v ≡ put_verb
      → settings_verb sql codec d v kind body s
        ≡ ((put_setting sql codec d s (decode_setting d kind body)).0, saved (kind_name kind))
  settings_verb-put v kind body s e = ap (λ v. settings_verb sql codec d v kind body s) e

  -- A PUT of the settings stores what its body decodes to, whatever address, token and authorisation
  -- the request has, and the next GET of anyone shows it with each text trimmed, and a listen address
  -- of the host that is blank as 127.0.0.1:8090, if the statement makes no error and the query does
  -- not fail.
  pub handle_settings-handle_settings :
      (kind : SettingsKind) (put_req get_req : ApiRequest) (s s' : S)
      → put_req.verb ≡ put_verb
      → get_req.verb ≡ get_verb
      → put_setting sql codec d s (decode_setting d kind put_req.body) ≡ (s', none)
      → ¬ IsBroken (sql.select_kv s' bucket (key_of kind))
      → (handle_settings sql codec d kind put_req (some s) ≡ (some s', saved (kind_name kind)))
        × (handle_settings sql codec d kind get_req (some s')
            ≡ (some s', shown (normal_setting (decode_setting d kind put_req.body))))
  unfolding handle_settings
  handle_settings-handle_settings kind put_req get_req s s' puts gets put readable = (
    ap (λ v. with_db sql codec d (some s) (settings_verb sql codec d v kind put_req.body)) puts
        ∙ ap (λ p. (some p.0, saved (kind_name kind))) put,
    ap (λ v. with_db sql codec d (some s') (settings_verb sql codec d v kind get_req.body)) gets
        ∙ ap (λ set. (some s', shown set))
            (get_setting-put_setting kind put_req.body s s' put readable),
  )
