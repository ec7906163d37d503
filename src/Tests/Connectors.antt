-- ===== src/Tests/Connectors.antt =====
-- Connectors over a tsnet that counts what is asked of it: one whose server comes up at once, and one
-- that cannot start a server.
use guild_net.Prelude.{
  ℕ, suc, ◌-◌, ◌<◌, ◌≡◌, ◌≢◌, refl, true, false, none, some, [], ◌++◌, codes, arith, ltb,
  if◌then◌else◌, nat_eq,
}
use guild_net.Prelude.Strings.{trim_space, trim_left, trim_right, is_space, lower_char}
use guild_net.DbManager.{Result, ok, fail}
use guild_net.Connector.{
  Config, Tsnet, Connector, close_server, start, start_once, start_server, on_server, new,
  sanitize_id, sanitized_runes, sanitized_rune, trim_left_dash, trim_right_dash,
}
use guild_net.Connector.Lifecycle.{here, waits, closes, failed_start_stays, DirLaws, start-new}
use guild_net.Connector.Polling.{PollLaws, start-ends}

abbrev same : ℕ → ℕ
same c = c

-- the state is the number of pauses, at most 150 of them before the time is over
abbrev slow : Result ℕ → Tsnet ℕ ℕ
slow server = record {
  home = λ e. codes "/root";
  join = λ dir name. dir ++ (codes "/" ++ name);
  mkdir_all = λ e dir. (e, none);
  chmod = λ e dir. e;
  dir_exists = λ e dir. true;
  host_name = λ e. codes "Host.1";
  random = λ e. (e, codes "0a0b0c0d");
  start = λ e cfg. (e, server);
  local_client = λ e s. (e, none);
  status = λ e s. (e, fail (codes "starting"));
  expired = λ e. if ltb e 150 then false else true;
  pause = λ e. (suc e, none);
  close = λ e s. (e, none);
}

abbrev working : Tsnet ℕ ℕ
working = slow (ok 7)

abbrev failing : Tsnet ℕ ℕ
failing = slow (fail (codes "no control server"))

abbrev cfg : Config
cfg = record {
  cluster_id = codes " Prod.EU ";
  login_server = codes "https://headscale";
  client_auth_key = [];
  state_dir = codes "/var/ts";
  hostname = [];
}

abbrev fresh : Connector ℕ
fresh = record {
  cfg = record cfg { state_dir = codes "/var/ts"; hostname = codes "guildnet-prod-eu-host-1" };
  srv = none;
  started = false;
  stopped = false;
}

new_ready : new working same 0 cfg ≡ (0, ok fresh)
unfolding new sanitize_id sanitized_runes sanitized_rune trim_left_dash trim_right_dash trim_space
    trim_left trim_right is_space lower_char
new_ready = refl

abbrev spent : Connector ℕ
spent = record fresh { started = true }

failed_start :
    start failing 3 0 fresh ≡ some (0, spent, some (codes "tsnet start: no control server"))
unfolding start start_once start_server
failed_start = refl

closed_spent : close_server failing 9 spent ≡ (9, spent, none)
unfolding close_server
closed_spent = refl

failed_start_stays_example :
    (start failing 5 9 spent ≡ some (9, spent, none))
    × (on_server failing (λ s. (4, ok s)) 9 spent ≡ (9, fail (codes "connector not started")))
failed_start_stays_example =
    failed_start_stays failing 3 5 0 fresh 0 spent 9 spent (codes "tsnet start: no control server")
      (λ s. (4, ok s)) refl failed_start (closes (waits here 9) closed_spent)

abbrev there : DirLaws working
there = record {
  made_there = λ e dir h. refl;
  kept_by_chmod = λ e dir h. refl;
  kept_by_random = λ e dir h. refl;
}

start-new_example : start working 151 0 fresh ≡ start_server working 151 0 spent
start-new_example = start-new there same 151 0 0 cfg fresh new_ready

waiting : (e : ℕ) → (if ltb e 150 then false else true) ≡ false → 150 - suc e < 150 - e
waiting e h = ground arith

abbrev in_time : PollLaws working
in_time = record {
  left = λ e. 150 - e;
  at_most = λ e. omega arith;
  status_keeps = λ e s. omega arith;
  pause_lowers = waiting;
}

start-ends_example : start working 151 0 fresh ≢ none
start-ends_example = start-ends in_time 0 fresh
