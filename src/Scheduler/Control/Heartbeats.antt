-- ===== src/Scheduler/Control/Heartbeats.antt =====
-- The heartbeats of scheduler/src/server.rs.
use blaze_net.Common.{bytes_eq, nat_eq, ok, ℕ, ◌≡◌, refl, ◌≢◌, Option, some}
use blaze_net.Scheduler.Db.Records.{NodeRecord, Backend}
use blaze_net.Scheduler.Db.Tables.{insert_node, get_node}
use blaze_net.Scheduler.Db.Laws.{get_record-insert, get_record-insert_ne}
use blaze_net.Scheduler.Control.Defs.{ControlService, beat, heartbeat}
use blaze_net.Scheduler.Control.Types.{online}

module _ (b : Backend) where
  beat-db :
      (node_id beat_ms reply_ms : ℕ) (s : ControlService b) (node : NodeRecord)
      → (beat b node_id beat_ms reply_ms s (some node)).1.db
        ≡ insert_node b (record node { last_heartbeat_ms = beat_ms; status = online }) s.db
  unfolding beat
  beat-db node_id beat_ms reply_ms s node = refl

  heartbeat-beat :
      (node_id beat_ms reply_ms : ℕ) (s : ControlService b) (found : Option NodeRecord)
      → get_node b node_id s.db ≡ ok found
      → heartbeat b node_id beat_ms reply_ms s ≡ beat b node_id beat_ms reply_ms s found
  unfolding heartbeat
  heartbeat-beat node_id beat_ms reply_ms s found known = rw (heartbeat, known) refl

  -- The heartbeat of a node that is stored under its own id sets its time and makes it online; it
  -- changes no other node.
  pub get_node-heartbeat :
      (beat_ms reply_ms other : ℕ) (s : ControlService b) (node : NodeRecord)
      → get_node b node.id s.db ≡ ok (some node)
      → node.id ≢ other
      → (get_node b node.id (heartbeat b node.id beat_ms reply_ms s).1.db
          ≡ ok (some (record node { last_heartbeat_ms = beat_ms; status = online })))
        × (get_node b other (heartbeat b node.id beat_ms reply_ms s).1.db ≡ get_node b other s.db)
  unfolding get_node insert_node
  get_node-heartbeat beat_ms reply_ms other s node known far =
      let after : NodeRecord = record node { last_heartbeat_ms = beat_ms; status = online } in
      rw
        (
          heartbeat-beat node.id beat_ms reply_ms s (some node) known,
          beat-db node.id beat_ms reply_ms s node,
        )
        (
          get_record-insert b b.node_json s.db.nodes node.id after,
          get_record-insert_ne b b.node_json s.db.nodes node.id other (b.node_json.encode after)
              far,
        )
