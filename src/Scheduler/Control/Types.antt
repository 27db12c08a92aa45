-- ===== src/Scheduler/Control/Types.antt =====
-- The messages, events and errors of the control service of scheduler/src/server.rs.
use blaze_net.Common.{ℕ, Bool, List}
use blaze_net.Scheduler.Db.Records.{Text, codes, AddrRecord}

pub data Status : Type 0 where
  invalid_argument not_found internal : Status

pub record Task : Type 0 where
  pub id : ℕ
  pub game_id : ℕ
  pub version : ℕ
  pub kind : ℕ
  pub assigned_chunks : List (List ℕ)

-- What is sent to the subscribers of the event channel.
pub data Event : Type 0 where
  task_created : ℕ → ℕ → ℕ → Event
  task_status : ℕ → Text → Event

pub record RegisterRequest : Type 0 where
  pub node_type : Text
  pub endpoint_id : Text
  pub addrs : List AddrRecord

pub record RegisterReply : Type 0 where
  pub node_id : ℕ
  pub token : Text
  pub initial_tasks : List Task

pub record HeartbeatReply : Type 0 where
  pub server_time : ℕ
  pub task_ids : List ℕ

pub record Peer : Type 0 where
  pub node_id : ℕ
  pub endpoint_id : Text
  pub addrs : List AddrRecord
  pub direct_only : Bool

pub record VersionInfo : Type 0 where
  pub found : Bool
  pub version : ℕ
  pub manifest : List ℕ

abbrev pub online : Text
online = codes "online"

abbrev pub queued : Text
queued = codes "queued"

abbrev pub cafe : Text
cafe = codes "cafe"
