-- ===== src/Scheduler/Admin/Runs.antt =====
-- A run of `assign_idc_chunks` of scheduler/src/http.rs on a version of one chunk that nobody holds.
use blaze_net.Common.{bytes_eq, nat_eq, ok, assoc_table, ◌≡◌, refl, none, some, [], arith}
use blaze_net.Manifest.Defs.{encode}
use blaze_net.Manifest.Runs.{small_index}
use blaze_net.Scheduler.Db.Records.{codes, Db}
use blaze_net.Scheduler.Db.Tables.{
  next_id, next_game_id, get_record, insert_game, get_game, save_version, add_audit,
}
use blaze_net.Scheduler.Db.Memory.{memory, empty_db}
use blaze_net.Scheduler.Admin.Defs.{audit, store_game, create_game}
use blaze_net.Scheduler.Control.Defs.{ControlService}
use blaze_net.Scheduler.Admin.Ids.{create_game_same_id}

abbrev published : Db memory
published = save_version memory 3 1 (encode small_index) empty_db

-- One game was created, so the next automatic id is 2.
abbrev one_game : ControlService memory
one_game =
    (create_game memory 1000 (record { name = codes "a"; wanted_id = none })
      (record { db = empty_db; pending = []; events = [] })).1

counter_at_1 : memory.counts.get one_game.db.counters (codes "next_game_id") ≡ some 1
unfolding memory assoc_table create_game store_game next_game_id next_id insert_game audit add_audit
    get_game get_record
counter_at_1 = refl

two_is_free : get_game memory 2 one_game.db ≡ ok none
unfolding memory assoc_table create_game store_game next_game_id next_id insert_game audit add_audit
    get_game get_record
two_is_free = refl

create_game_same_id_example :
    (create_game memory 3000
      (record { name = codes "c"; wanted_id = none })
      (create_game memory 3000 (record { name = codes "b"; wanted_id = some 2 }) one_game).1).0
    ≡ ok (record {
      id = 2;
      name = codes "c";
      status = codes "uploading";
      current_version = 0;
      latest_version = 0;
    })
create_game_same_id_example =
    create_game_same_id memory 3000 1 (codes "b") (codes "c") one_game (λ e. cc) (λ e. cc)
      (omega arith) counter_at_1 two_is_free
