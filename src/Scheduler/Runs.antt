-- ===== src/Scheduler/Runs.antt =====
-- Runs of the handlers of scheduler/src/server.rs and scheduler/src/http.rs, from an empty store.
use blaze_net.Common.Redb.{entries, without}
use blaze_net.Storage.Defs.{hex, hex_u64, hex_digit}
use blaze_net.Common.{
  leb, bytes_eq, nat_eq, ok, assoc_table, keep, Nodup, IsSorted, replicate, contains, ℕ, none, ◌≡◌,
  ◌↔◌, refl, true, some, List, [], ◌∷◌, arith,
}
use blaze_net.Scheduler.Db.Records.{codes, NodeRecord, TaskRecord, digits, decimal}
use blaze_net.Scheduler.Db.Tables.{
  parse, parse_all, chunk_key, version_key, next_id, next_node_id, insert_node, get_record,
  get_node, insert_task, update_task_status, list_tasks, tasks_for_node, holders_or_none,
  record_chunk_holder, chunk_holders, add_audit,
}
use blaze_net.Scheduler.Db.Accounts.{places_of_user}
use blaze_net.Scheduler.Db.Places.{Sees, places_of_user-bind_all}
use blaze_net.Scheduler.Db.Bindings.{Binding, user_place, user_group, group_place}
use blaze_net.Scheduler.Db.Bound.{bind_all}
use blaze_net.Scheduler.Db.Memory.{
  addr, node_json, task_json, game_json, audit_json, memory, empty_db,
}
use blaze_net.Scheduler.Db.Codec.{
  get_number, put_both, get_both, both, put_each, get_each, get_many, many, read_json, json_of,
}
use blaze_net.Scheduler.Control.Defs.{
  valid_node_type, task_kind, to_proto_task, or_internal, ControlService, with_queue, is_queued,
  push_task, drain_tasks, register, beat, heartbeat, report_chunk, peers_of, query_peers,
  get_version_info, publish_version,
}
use blaze_net.Scheduler.Control.Types.{Peer, online, queued, cafe}
use blaze_net.Scheduler.Control.Versions.{get_version_info-publish_version}
use blaze_net.Scheduler.Control.Heartbeats.{get_node-heartbeat}
use blaze_net.Scheduler.Control.Peers.{IsAnswer, query_peers_sound}
use blaze_net.Scheduler.Admin.Defs.{audit}
use blaze_net.Scheduler.Admin.Removal.{
  find_task, cancel_updated, cancel_found, cancel_listed, cancel_task,
}
use blaze_net.Scheduler.Admin.Cancel.{drain_tasks-cancel_task, cancel_task_only_queued}

abbrev start : ControlService memory
start = record { db = empty_db; pending = []; events = [] }

abbrev hash : List ℕ
hash = replicate 32 7

-- A cafe registers and reports a chunk.
abbrev with_cafe : ControlService memory
with_cafe =
    report_chunk memory 1 3 hash
      (register memory 0 1000 (record { node_type = cafe; endpoint_id = codes "e"; addrs = [] })
        start).1

-- A user of one group, which has a place, and another user with a place; 1 is a prefix of 12.
abbrev three_bindings : List Binding
three_bindings = (user_place, (12, 5)) ∷ (user_group, (1, 7)) ∷ (group_place, (7, 20)) ∷ []

no_bindings : (key : List ℕ) → memory.counts.get empty_db.bindings key ≡ none
unfolding memory assoc_table
no_bindings key = refl

places_of_user-bind_all_example :
    ((p : ℕ)
      → (contains p (places_of_user memory 1 (bind_all memory three_bindings empty_db)) ≡ true)
        ↔ Sees memory 1 p three_bindings)
    × Nodup (places_of_user memory 1 (bind_all memory three_bindings empty_db))
    × IsSorted leb (places_of_user memory 1 (bind_all memory three_bindings empty_db))
places_of_user-bind_all_example =
    places_of_user-bind_all memory 1 three_bindings empty_db no_bindings
      ((omega arith, omega arith), ((omega arith, omega arith), ((omega arith, omega arith), tt)))
      (omega arith)

get_version_info-publish_version_example :
    ((publish_version memory 3 1 (1 ∷ 2 ∷ []) start).0 ≡ ok tt)
    × (get_version_info memory 3 1 (publish_version memory 3 1 (1 ∷ 2 ∷ []) start).1
        ≡ ok (record { found = true; version = 1; manifest = 1 ∷ 2 ∷ [] }))
get_version_info-publish_version_example =
    get_version_info-publish_version memory 3 1 (1 ∷ 2 ∷ []) start (omega arith) (omega arith)
      (λ e. cc)

-- A task for the cafe, which is queued and then cancelled.
abbrev task : TaskRecord
task = record {
  id = 1;
  node_id = 1;
  game_id = 3;
  version = 1;
  kind = codes "UPDATE";
  assigned_chunks = [];
  status = queued;
  error = [];
}

abbrev with_task : ControlService memory
with_task = push_task memory task start

drain_tasks-cancel_task_example :
    (drain_tasks memory 1 (cancel_task memory 5000 1 with_task).1).0
    ≡ (drain_tasks memory 1 with_task).0
drain_tasks-cancel_task_example = drain_tasks-cancel_task memory 5000 1 1 with_task

cancelled_ok : (cancel_task memory 5000 1 with_task).0 ≡ ok tt
unfolding memory assoc_table entries without chunk_key version_key hex hex_u64 hex_digit decimal
    digits node_json task_json game_json audit_json json_of read_json both put_both get_both many
    put_each get_each get_many get_number addr parse parse_all next_id next_node_id insert_node
    get_record get_node insert_task list_tasks update_task_status tasks_for_node holders_or_none
    record_chunk_holder chunk_holders add_audit or_internal beat report_chunk register push_task
    with_queue valid_node_type task_kind to_proto_task is_queued keep peers_of query_peers audit
    find_task cancel_found cancel_listed cancel_task cancel_updated
cancelled_ok = refl

cancel_task_only_queued_example :
    (tasks : List TaskRecord) × (t : TaskRecord) × (list_tasks memory with_task.db ≡ ok tasks)
    × (find_task memory 1 tasks ≡ some t)
    × (t.status ≡ queued)
cancel_task_only_queued_example = cancel_task_only_queued memory 5000 1 with_task cancelled_ok

abbrev the_cafe : Peer
the_cafe = record { node_id = 1; endpoint_id = codes "e"; addrs = []; direct_only = true }

cafe_found : query_peers memory 3 hash 0 with_cafe ≡ ok (the_cafe ∷ [])
unfolding memory assoc_table entries without chunk_key version_key hex hex_u64 hex_digit decimal
    digits node_json task_json game_json audit_json json_of read_json both put_both get_both many
    put_each get_each get_many get_number addr parse parse_all next_id next_node_id insert_node
    get_record get_node insert_task list_tasks update_task_status tasks_for_node holders_or_none
    record_chunk_holder chunk_holders add_audit or_internal beat report_chunk register push_task
    with_queue valid_node_type task_kind to_proto_task is_queued keep peers_of query_peers audit
    find_task cancel_found cancel_listed cancel_task cancel_updated
cafe_found = refl

query_peers_sound_example :
    (holders : List ℕ) × (chunk_holders memory 3 hash with_cafe.db ≡ ok holders)
    × IsAnswer memory with_cafe.db holders (the_cafe ∷ [])
query_peers_sound_example = query_peers_sound memory 3 0 hash with_cafe (the_cafe ∷ []) cafe_found

abbrev cafe_node : NodeRecord
cafe_node = record {
  id = 1;
  node_type = cafe;
  endpoint_id = codes "e";
  token = codes "0-1";
  addrs = [];
  status = online;
  last_heartbeat_ms = 1000;
}

cafe_known : get_node memory 1 with_cafe.db ≡ ok (some cafe_node)
unfolding memory assoc_table entries without chunk_key version_key hex hex_u64 hex_digit decimal
    digits node_json task_json game_json audit_json json_of read_json both put_both get_both many
    put_each get_each get_many get_number addr parse parse_all next_id next_node_id insert_node
    get_record get_node insert_task list_tasks update_task_status tasks_for_node holders_or_none
    record_chunk_holder chunk_holders add_audit or_internal beat report_chunk register push_task
    with_queue valid_node_type task_kind to_proto_task is_queued keep peers_of query_peers audit
    find_task cancel_found cancel_listed cancel_task cancel_updated
cafe_known = refl

get_node-heartbeat_example :
    (get_node memory 1 (heartbeat memory 1 9000 9001 with_cafe).1.db
      ≡ ok (some (record cafe_node { last_heartbeat_ms = 9000; status = online })))
    × (get_node memory 2 (heartbeat memory 1 9000 9001 with_cafe).1.db
        ≡ get_node memory 2 with_cafe.db)
get_node-heartbeat_example =
    get_node-heartbeat memory 9000 9001 2 with_cafe cafe_node cafe_known (λ e. omega arith)
