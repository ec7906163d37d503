-- ===== src/Tests/Deploys.antt =====
-- The routes of the deployments at concrete requests.
use guild_net.Prelude.{
  ℕ, true, false, none, some, [], ◌∷◌, ◌≡◌, refl, Text, codes, lookup, text_eq, text_eq_inst,
}
use guild_net.Prelude.Strings.{trim_space, trim_left, trim_right, is_space, strip_prefix}
use guild_net.Json.{str, Row}
use guild_net.DbManager.{ok}
use guild_net.Jobs.{log, set_progress, float_one}
use guild_net.Orchestration.{handler_for}
use guild_net.Deploy.{
  get_verb, put_verb, post_verb, delete_verb, ApiRequest, Outside, json, submitted, job_id, auth_ok,
}
use guild_net.Deploy.Headscales.{handle_headscale}
use guild_net.Deploy.Actions.{handle_headscale-path_action}
use guild_net.Prelude.Equality.{pair_eq}
use guild_net.LocalDb.{put_value}
use guild_net.Settings.{put_tailscale}
use guild_net.Settings.Values.{no_database, no_global}
use guild_net.Deploy.SettingsRoutes.{
  Decoders, decode_setting, tailscale_kind, kind_name, put_setting, shown, saved, handle_settings,
  normal_setting, handle_settings-handle_settings,
}
use guild_net.Tests.Storage.{
  Tables, same_row, same_row_laws, memory_laws, never-IsBroken, memory_sql,
}
use guild_net.Tests.Lifecycle.{some_row, noon, stop_runner, job_store, decode_h1, with_headscale}

abbrev pub outside : Outside Row
outside = record {
  marshal = λ row. ok row;
  unmarshal = some_row;
  rows_of = λ rows. ok rows;
  decode = decode_h1;
  decode_job = λ t. (t, []);
  encode = λ row. [];
  print = λ v. [];
  stamp = codes "12:00";
  name_uuid = codes "n1";
  uuid = codes "u1";
  job_uuid = codes "j2";
  encrypt = none;
  parse_url = λ t. none;
  dial = λ t. none;
}

abbrev pub same : ℕ → ℕ
same c = c

abbrev pub secret : Text
secret = codes "s3cret"

-- a deletion with the wrong token
abbrev pub delete_h1 : ApiRequest
delete_h1 = record {
  verb = delete_verb;
  path = codes "/api/deploy/headscale/h1";
  query = λ k. [];
  body = [];
  loopback = true;
  authorization = [];
  api_token = codes "guess";
}

-- the stop of h1, with the action in the path
abbrev stop_h1 : ApiRequest
stop_h1 = record delete_h1 {
  verb = post_verb;
  path = codes "/api/deploy/headscale/h1/stop";
  api_token = secret;
}

handle_headscale-path_action_example :
    (handle_headscale memory_sql job_store outside same secret stop_h1 stop_runner
      ≡ submitted memory_sql job_store outside same secret
          (codes "headscale.")
          ((codes "id", str (codes "h1/stop")) ∷ [])
          (json 202 (job_id memory_sql job_store outside same secret))
          stop_runner)
    × (handler_for memory_sql outside.marshal outside.unmarshal noon outside.decode outside.print
          (codes "headscale.")
          (some with_headscale)
          (codes "spec")
        ≡ log
            (codes "noop")
            (codes "unhandled job kind")
            ((codes "kind", str (codes "headscale.")) ∷ [])
          ∷ set_progress float_one
          ∷ [])
unfolding auth_ok trim_space trim_left trim_right is_space strip_prefix text_eq
handle_headscale-path_action_example =
    handle_headscale-path_action memory_sql job_store outside same secret noon (some with_headscale)
      (codes "spec") (codes "h1/stop") stop_h1 stop_runner refl refl refl refl refl

abbrev decoders : Decoders
decoders = record {
  decode_tailscale =
      λ body. record { login_server = body; preauth_key = body; hostname = codes " node " };
  decode_database = λ body. no_database;
  decode_global = λ body. no_global;
}

-- a PUT from another host without a token
abbrev put_settings : ApiRequest
put_settings = record delete_h1 {
  verb = put_verb;
  path = codes "/settings/tailscale";
  body = codes "k1";
  loopback = false;
  api_token = [];
}

abbrev get_settings : ApiRequest
get_settings = record put_settings { verb = get_verb; body = [] }

abbrev stored_settings : Tables
stored_settings =
    (put_setting memory_sql same_row decoders with_headscale
      (decode_setting decoders tailscale_kind (codes "k1"))).0

handle_settings-handle_settings_example :
    (handle_settings memory_sql same_row decoders tailscale_kind put_settings (some with_headscale)
      ≡ (some stored_settings, saved (kind_name tailscale_kind)))
    × (handle_settings memory_sql same_row decoders tailscale_kind get_settings
          (some stored_settings)
        ≡ (
          some stored_settings,
          shown (normal_setting (decode_setting decoders tailscale_kind (codes "k1"))),
        ))
unfolding put_tailscale put_value
handle_settings-handle_settings_example =
    handle_settings-handle_settings memory_laws same_row_laws decoders tailscale_kind put_settings
      get_settings with_headscale stored_settings refl refl refl
      (never-IsBroken (lookup (codes "settings", codes "tailscale") stored_settings.0))
