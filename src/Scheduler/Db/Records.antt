-- ===== src/Scheduler/Db/Records.antt =====
-- The records of scheduler/src/db.rs, and what it takes from other crates: the tables of redb and
-- the JSON of serde_json. A text is its characters, as code points.
use blaze_net.Common.{
  ltb, if◌then◌else◌, nat_eq, bytes_eq, Table, ℕ, zero, suc, ◌+◌, ◌/◌, ◌%◌, ◌^◌, ◌≡◌, Option, some,
  List, [], ◌∷◌, ◌++◌,
}
use Prim.Native.Char.{code}
use Prim.Native.String.{String}

abbrev pub Text : Type 0
Text = List ℕ

abbrev pub codes : String → Text
codes String.[] = []
codes (String.◌∷◌ c s) = code c ∷ codes s

pub record AddrRecord : Type 0 where
  pub addr : Text
  pub kind : Text
  pub link : Text

pub record NodeRecord : Type 0 where
  pub id : ℕ
  pub node_type : Text
  pub endpoint_id : Text
  pub token : Text
  pub addrs : List AddrRecord
  pub status : Text
  pub last_heartbeat_ms : ℕ

pub record TaskRecord : Type 0 where
  pub id : ℕ
  pub node_id : ℕ
  pub game_id : ℕ
  pub version : ℕ
  pub kind : Text
  pub assigned_chunks : List (List ℕ)
  pub status : Text
  pub error : Text

pub record UserRecord : Type 0 where
  pub id : ℕ
  pub username : Text
  pub password_hash : Text
  pub salt : Text

pub record PlaceRecord : Type 0 where
  pub id : ℕ
  pub name : Text
  pub region : Text

pub record GroupRecord : Type 0 where
  pub id : ℕ
  pub name : Text

pub record GameRecord : Type 0 where
  pub id : ℕ
  pub name : Text
  pub status : Text
  pub current_version : ℕ
  pub latest_version : ℕ

pub record AuditRecord : Type 0 where
  pub id : ℕ
  pub time_ms : ℕ
  pub actor : Text
  pub action : Text
  pub detail : Text

-- `serde_json::to_string` and `from_str` for one type: what was written is read back.
pub record Json (A : Type 0) : Type 0 where
  pub encode : A → Text
  pub decode : Text → Option A
  pub decode-encode : (a : A) → decode (encode a) ≡ some a

pub record Backend : Type 1 where
  pub records : Table ℕ Text
  pub texts : Table Text Text
  pub counts : Table Text ℕ
  pub node_json : Json NodeRecord
  pub task_json : Json TaskRecord
  pub user_json : Json UserRecord
  pub place_json : Json PlaceRecord
  pub group_json : Json GroupRecord
  pub game_json : Json GameRecord
  pub audit_json : Json AuditRecord
  pub holders_json : Json (List ℕ)
  pub bytes_json : Json (List ℕ)

-- The tables that the modelled operations use.
pub record Db (b : Backend) : Type 0 where
  pub nodes : b.records.T
  pub tasks : b.records.T
  pub counters : b.counts.T
  pub chunks : b.texts.T
  pub heat : b.counts.T
  pub users : b.records.T
  pub places : b.records.T
  pub groups : b.records.T
  pub bindings : b.counts.T
  pub games : b.records.T
  pub versions : b.texts.T
  pub audits : b.records.T

-- The only error that is modelled: a stored text that cannot be read as a value of its type.
pub data DbError : Type 0 where
  bad_record : DbError

abbrev pub u64_mod : ℕ
u64_mod = 2 ^ 64

-- Decimal digits of a u64, at most 20 of them.
unfoldable pub digits : ℕ → ℕ → Text
digits zero n = []
digits (suc fuel) n =
    let more = digits fuel (n / 10) in
    if ltb n 10 then (0x30 + n) ∷ [] else more ++ (0x30 + n % 10) ∷ []

unfoldable pub decimal : ℕ → Text
unfolding digits
decimal = digits 20
