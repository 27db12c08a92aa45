-- ===== src/Scheduler/Db/Memory.antt =====
-- A concrete backend of scheduler/src/db.rs for the runs: tables that are lists, and records that are
-- written as numbers.
use blaze_net.Common.{nat_eq, bytes_eq, assoc_table, ℕ, ◌≡◌, refl, ap, some, List, [], ◌∷◌, map}
use blaze_net.Scheduler.Db.Records.{
  Text, AddrRecord, NodeRecord, TaskRecord, UserRecord, PlaceRecord, GroupRecord, GameRecord,
  AuditRecord, Json, Backend, Db,
}
use blaze_net.Scheduler.Db.Codec.{Codec, number, both, many, json_of}

abbrev pub text : Codec (List ℕ)
text = many number

unfoldable pub addr : Codec (Text × (Text × Text))
addr = both text (both text text)

abbrev pub split_addr : AddrRecord → Text × (Text × Text)
split_addr r = (r.addr, (r.kind, r.link))

abbrev pub join_addr : Text × (Text × Text) → AddrRecord
join_addr p = record { addr = p.0; kind = p.1.0; link = p.1.1 }

pub map-split_addr : (rs : List AddrRecord) → map join_addr (map split_addr rs) ≡ rs
map-split_addr [] = refl
map-split_addr (r ∷ rs) = ap (λ t. r ∷ t) (map-split_addr rs)

unfoldable pub node_json : Json NodeRecord
unfolding addr
node_json =
    json_of (both number (both text (both text (both text (both (many addr) (both text number))))))
      (λ n. (
        n.id,
        (
          n.node_type,
          (n.endpoint_id, (n.token, (map split_addr n.addrs, (n.status, n.last_heartbeat_ms)))),
        ),
      ))
      (λ p. record {
        id = p.0;
        node_type = p.1.0;
        endpoint_id = p.1.1.0;
        token = p.1.1.1.0;
        addrs = map join_addr p.1.1.1.1.0;
        status = p.1.1.1.1.1.0;
        last_heartbeat_ms = p.1.1.1.1.1.1;
      })
      (λ n. ap (λ rs. record n { addrs = rs }) (map-split_addr n.addrs))

unfoldable pub task_json : Json TaskRecord
task_json =
    json_of
      (both number
        (both number (both number (both number (both text (both (many text) (both text text)))))))
      (λ t. (
        t.id,
        (t.node_id, (t.game_id, (t.version, (t.kind, (t.assigned_chunks, (t.status, t.error)))))),
      ))
      (λ p. record {
        id = p.0;
        node_id = p.1.0;
        game_id = p.1.1.0;
        version = p.1.1.1.0;
        kind = p.1.1.1.1.0;
        assigned_chunks = p.1.1.1.1.1.0;
        status = p.1.1.1.1.1.1.0;
        error = p.1.1.1.1.1.1.1;
      })
      (λ t. refl)

unfoldable pub user_json : Json UserRecord
user_json =
    json_of (both number (both text (both text text)))
      (λ u. (u.id, (u.username, (u.password_hash, u.salt))))
      (λ p. record { id = p.0; username = p.1.0; password_hash = p.1.1.0; salt = p.1.1.1 })
      (λ u. refl)

unfoldable pub place_json : Json PlaceRecord
place_json =
    json_of (both number (both text text)) (λ p. (p.id, (p.name, p.region)))
      (λ p. record { id = p.0; name = p.1.0; region = p.1.1 }) (λ p. refl)

unfoldable pub group_json : Json GroupRecord
group_json =
    json_of (both number text) (λ g. (g.id, g.name)) (λ p. record { id = p.0; name = p.1 })
      (λ g. refl)

unfoldable pub game_json : Json GameRecord
game_json =
    json_of (both number (both text (both text (both number number))))
      (λ g. (g.id, (g.name, (g.status, (g.current_version, g.latest_version)))))
      (λ p. record {
        id = p.0;
        name = p.1.0;
        status = p.1.1.0;
        current_version = p.1.1.1.0;
        latest_version = p.1.1.1.1;
      })
      (λ g. refl)

unfoldable pub audit_json : Json AuditRecord
audit_json =
    json_of (both number (both number (both text (both text text))))
      (λ a. (a.id, (a.time_ms, (a.actor, (a.action, a.detail)))))
      (λ p. record {
        id = p.0;
        time_ms = p.1.0;
        actor = p.1.1.0;
        action = p.1.1.1.0;
        detail = p.1.1.1.1;
      })
      (λ a. refl)

abbrev list_json : Json (List ℕ)
list_json = record { encode = λ t. t; decode = λ t. some t; decode-encode = λ t. refl }

unfoldable pub memory : Backend
memory = record {
  records = assoc_table;
  texts = assoc_table;
  counts = assoc_table;
  node_json = node_json;
  task_json = task_json;
  user_json = user_json;
  place_json = place_json;
  group_json = group_json;
  game_json = game_json;
  audit_json = audit_json;
  holders_json = list_json;
  bytes_json = list_json;
}

abbrev pub empty_db : Db memory
unfolding memory
empty_db = record {
  nodes = memory.records.empty;
  tasks = memory.records.empty;
  counters = memory.counts.empty;
  chunks = memory.texts.empty;
  heat = memory.counts.empty;
  users = memory.records.empty;
  places = memory.records.empty;
  groups = memory.records.empty;
  bindings = memory.counts.empty;
  games = memory.records.empty;
  versions = memory.texts.empty;
  audits = memory.records.empty;
}
