-- ===== src/Model/Servers.antt =====
-- internal/model/types.go: the structs of the servers and of the agents.
use guild_net.Prelude.{Option, List, Text, Assoc}
use guild_net.Prelude.Numbers.{ℤ}

pub record Port : Type 0 where
  pub port : ℤ
  pub name : Text

pub record Resources : Type 0 where
  pub cpu : Text
  pub memory : Text

pub record Event : Type 0 where
  pub t : Text
  pub type_name : Text
  pub message : Text
  pub status : Text

pub record Server : Type 0 where
  pub id : Text
  pub name : Text
  pub image : Text
  pub status : Text
  pub node : Text
  pub created_at : Text
  pub updated_at : Text
  pub ports : List Port
  pub resources : Option Resources
  pub args : List Text
  pub env : Assoc Text Text
  pub events : List Event
  pub url : Text

pub record LogLine : Type 0 where
  pub t : Text
  pub lvl : Text
  pub msg : Text

pub record AgentRecord : Type 0 where
  pub id : Text
  pub org : Text
  pub hostname : Text
  pub ip : Text
  pub ports : Assoc Text ℤ
  pub capabilities : List Text
  pub version : Text
  pub last_seen : Text
