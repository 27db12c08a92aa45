-- ===== src/Scheduler/Admin/Accounts.antt =====
-- The handlers of scheduler/src/http.rs for the login, accounts, places, groups and bindings, and the
-- lists that the administration interface shows.
use blaze_net.Common.{
  if◌then◌else◌, ◌==◌, bytes_eq, nat_eq, Result, ok, err, ◌>>=◌, ℕ, Bool, not, ◌||◌, Option, none,
  some, List, [], ◌++◌, map,
}
use blaze_net.Manifest.Defs.{Blake3}
use blaze_net.Scheduler.Db.Records.{
  Text, codes, AddrRecord, NodeRecord, TaskRecord, UserRecord, PlaceRecord, GroupRecord, GameRecord,
  AuditRecord, Backend, Db, decimal,
}
use blaze_net.Scheduler.Db.Tables.{list_nodes, list_tasks}
use blaze_net.Scheduler.Db.Accounts.{
  hash_password, next_user_id, next_place_id, next_group_id, insert_user, list_users, delete_user,
  insert_place, list_places, delete_place, insert_group, list_groups, delete_group, list_games,
  list_audits, bind, places_of_user,
}
use blaze_net.Scheduler.Control.Defs.{ControlService}
use blaze_net.Scheduler.Admin.Defs.{HttpError, bad_request, missing, or_server_error, Answer, audit}

pub record LoginRequest : Type 0 where
  pub username : Text
  pub password : Text

pub record CreateUserRequest : Type 0 where
  pub username : Text
  pub password : Text

pub record CreatePlaceRequest : Type 0 where
  pub name : Text
  pub region : Text

pub record CreateGroupRequest : Type 0 where
  pub name : Text

pub record BindRequest : Type 0 where
  pub kind : Text
  pub a : ℕ
  pub b : ℕ

pub record NodeView : Type 0 where
  pub id : ℕ
  pub node_type : Text
  pub endpoint_id : Text
  pub addrs : List AddrRecord
  pub status : Text
  pub last_heartbeat_ms : ℕ

-- `NodeView::from`: all of the node but its token.
unfoldable pub node_view : NodeRecord → NodeView
node_view node = record {
  id = node.id;
  node_type = node.node_type;
  endpoint_id = node.endpoint_id;
  addrs = node.addrs;
  status = node.status;
  last_heartbeat_ms = node.last_heartbeat_ms;
}

-- `login` against the configured name and password; `none` is the answer 401.
unfoldable pub login : Text → Text → LoginRequest → Option Text
login admin_user admin_password request =
    if not (request.username == admin_user) || not (request.password == admin_password)
    then none
    else some (codes "dev-token")

unfoldable pub valid_binding : Text → Bool
valid_binding kind =
    kind == codes "user_place" || kind == codes "user_group" || kind == codes "group_place"

module _ (b : Backend) where
  -- The clock is read for the salt and for the audit.
  unfoldable pub create_user :
      Blake3 → ℕ → ℕ → CreateUserRequest → ControlService b → Answer b UserRecord
  unfolding next_user_id insert_user audit hash_password
  create_user blake3 salt_ms now request s =
      if request.username == [] || request.password == []
      then (err bad_request, s)
      else let (id, db') = next_user_id b s.db in
        let salt = decimal salt_ms in
        let user : UserRecord = record {
          id = id;
          username = request.username;
          password_hash = hash_password blake3 request.password salt;
          salt = salt;
        } in
        (
          ok user,
          audit b now (codes "创建账号") (codes "账号 ID " ++ decimal id)
              (record s { db = insert_user b user db' }),
        )

  -- The end of a deletion, after the store has answered.
  unfoldable pub deleted : ℕ → Text → Text → ControlService b → Bool × Db b → Answer b (Unit {0})
  unfolding audit
  deleted now action detail s (found, db') =
      if not found
      then (err missing, record s { db = db' })
      else (ok tt, audit b now action detail (record s { db = db' }))

  unfoldable pub remove_user : ℕ → ℕ → ControlService b → Answer b (Unit {0})
  unfolding delete_user deleted
  remove_user now id s =
      deleted now (codes "删除账号") (codes "账号 ID " ++ decimal id) s (delete_user b id s.db)

  unfoldable pub create_place : ℕ → CreatePlaceRequest → ControlService b → Answer b PlaceRecord
  unfolding next_place_id insert_place audit
  create_place now request s =
      if request.name == []
      then (err bad_request, s)
      else let (id, db') = next_place_id b s.db in
        let place : PlaceRecord = record {
          id = id;
          name = request.name;
          region = request.region;
        } in
        (
          ok place,
          audit b now (codes "创建场所") (codes "场所 ID " ++ decimal id)
              (record s { db = insert_place b place db' }),
        )

  unfoldable pub remove_place : ℕ → ℕ → ControlService b → Answer b (Unit {0})
  unfolding delete_place deleted
  remove_place now id s =
      deleted now (codes "删除场所") (codes "场所 ID " ++ decimal id) s (delete_place b id s.db)

  unfoldable pub create_group : ℕ → CreateGroupRequest → ControlService b → Answer b GroupRecord
  unfolding next_group_id insert_group audit
  create_group now request s =
      if request.name == []
      then (err bad_request, s)
      else let (id, db') = next_group_id b s.db in
        let group : GroupRecord = record { id = id; name = request.name } in
        (
          ok group,
          audit b now (codes "创建分组") (codes "分组 ID " ++ decimal id)
              (record s { db = insert_group b group db' }),
        )

  unfoldable pub remove_group : ℕ → ℕ → ControlService b → Answer b (Unit {0})
  unfolding delete_group deleted
  remove_group now id s =
      deleted now (codes "删除分组") (codes "分组 ID " ++ decimal id) s (delete_group b id s.db)

  unfoldable pub bind_request : ℕ → BindRequest → ControlService b → Answer b (Unit {0})
  unfolding bind valid_binding audit
  bind_request now request s = if not (valid_binding request.kind) then (err bad_request, s) else (
    ok tt,
    audit b now (codes "建立绑定")
        (request.kind ++ codes " " ++ decimal request.a ++ codes "/" ++ decimal request.b)
        (record s { db = bind b request.kind request.a request.b s.db }),
  )

  unfoldable pub user_places : ℕ → ControlService b → Result HttpError (List ℕ)
  unfolding places_of_user
  user_places id s = ok (places_of_user b id s.db)

  unfoldable pub show_users : ControlService b → Result HttpError (List UserRecord)
  unfolding list_users or_server_error
  show_users s = or_server_error (list_users b s.db)

  unfoldable pub show_places : ControlService b → Result HttpError (List PlaceRecord)
  unfolding list_places or_server_error
  show_places s = or_server_error (list_places b s.db)

  unfoldable pub show_groups : ControlService b → Result HttpError (List GroupRecord)
  unfolding list_groups or_server_error
  show_groups s = or_server_error (list_groups b s.db)

  unfoldable pub show_nodes : ControlService b → Result HttpError (List NodeView)
  unfolding list_nodes or_server_error node_view
  show_nodes s = or_server_error (list_nodes b s.db) >>= λ nodes. ok (map node_view nodes)

  unfoldable pub show_tasks : ControlService b → Result HttpError (List TaskRecord)
  unfolding list_tasks or_server_error
  show_tasks s = or_server_error (list_tasks b s.db)

  unfoldable pub show_games : ControlService b → Result HttpError (List GameRecord)
  unfolding list_games or_server_error
  show_games s = or_server_error (list_games b s.db)

  unfoldable pub show_audits : ControlService b → Result HttpError (List AuditRecord)
  unfolding list_audits or_server_error
  show_audits s = or_server_error (list_audits b s.db)
