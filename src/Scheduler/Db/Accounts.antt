-- ===== src/Scheduler/Db/Accounts.antt =====
-- The operations of `Store` in scheduler/src/db.rs on accounts, places, groups, their bindings, and
-- the order of the games by launches.
use blaze_net.Common.{
  ltb, leb, if◌then◌else◌, ◌==◌, bytes_eq, nat_eq, Result, ok, err, ◌>>=◌, set_insert, to_set, sort,
  take, ℕ, ◌+◌, ◌-◌, ◌*◌, ◌/◌, ◌%◌, Bool, true, false, ◌||◌, Option, none, some, List, [], ◌∷◌,
  ◌++◌, map,
}
use blaze_net.Manifest.Defs.{Blake3}
use blaze_net.Storage.Defs.{hex}
use blaze_net.Scheduler.Db.Records.{
  Text, codes, UserRecord, PlaceRecord, GroupRecord, GameRecord, AuditRecord, Backend, Db, DbError,
  bad_record, u64_mod, decimal,
}
use blaze_net.Scheduler.Db.Tables.{parse_all, next_id, get_record}

-- `strip_prefix`
unfoldable pub strip_prefix : Text → Text → Option Text
strip_prefix [] text = some text
strip_prefix (c ∷ cs) [] = none
strip_prefix (c ∷ cs) (d ∷ ds) = let rest = strip_prefix cs ds in if c == d then rest else none

-- The digits of a number that is read, after those that stand before.
unfoldable pub parse_digits : ℕ → Text → Option ℕ
parse_digits before [] = some before
parse_digits before (c ∷ cs) =
    let rest = parse_digits (before * 10 + (c - 0x30)) cs in
    if ltb c 0x30 || ltb 0x39 c then none else rest

-- `parse` of a u64: at least one digit behind an optional plus sign, and no overflow.
unfoldable pub parse_u64 : Text → Option ℕ
unfolding parse_digits
parse_u64 text =
    let digits_of : Text = elim (strip_prefix (codes "+") text) [
      | none ↦ text
      | some rest ↦ rest
    ] in
    if digits_of == [] then none else elim (parse_digits 0 digits_of) [
      | none ↦ none
      | some n ↦ if ltb n u64_mod then some n else none
    ]

-- The UTF-8 bytes of a text.
unfoldable pub utf8 : Text → List ℕ
utf8 [] = []
utf8 (c ∷ cs) =
    let rest = utf8 cs in
    if ltb c 0x80
    then c ∷ rest
    else if ltb c 0x800
    then (0xc0 + c / 64) ∷ (0x80 + c % 64) ∷ rest
    else if ltb c 0x10000
    then (0xe0 + c / 4096) ∷ (0x80 + c / 64 % 64) ∷ (0x80 + c % 64) ∷ rest
    else (0xf0 + c / 262144)
      ∷ (0x80 + c / 4096 % 64)
      ∷ (0x80 + c / 64 % 64)
      ∷ (0x80 + c % 64)
      ∷ rest

unfoldable pub hash_password : Blake3 → Text → Text → Text
unfolding utf8
hash_password blake3 password salt = hex (blake3.digest (utf8 (salt ++ codes ":" ++ password)))

-- The keys of the table of bindings.
unfoldable pub binding_key : Text → ℕ → ℕ → Text
binding_key kind a c = kind ++ codes "/" ++ decimal a ++ codes "/" ++ decimal c

unfoldable pub ids_behind : Text → List (Text × ℕ) → List ℕ
unfolding strip_prefix parse_u64
ids_behind prefix [] = []
ids_behind prefix ((k, v) ∷ m) =
    let rest = ids_behind prefix m in
    elim (strip_prefix prefix k) [
      | none ↦ rest
      | some tail ↦ elim (parse_u64 tail) [ none ↦ rest | some id ↦ id ∷ rest ]
    ]

unfoldable pub parse_heat : List (Text × ℕ) → Result DbError (List (ℕ × ℕ))
unfolding parse_u64
parse_heat [] = ok []
parse_heat ((k, v) ∷ m) = elim (parse_u64 k) [
  | none ↦ err bad_record
  | some id ↦ parse_heat m >>= λ rest. ok ((id, v) ∷ rest)
]

-- Insertions into a `HashSet`, one after the other.
unfoldable pub add_places : List ℕ → List ℕ → List ℕ
add_places places [] = places
add_places places (p ∷ ps) = add_places (set_insert p places) ps

module _ (b : Backend) where
  unfoldable pub next_user_id : Db b → ℕ × Db b
  unfolding next_id
  next_user_id = next_id b (codes "next_user_id")

  unfoldable pub next_place_id : Db b → ℕ × Db b
  unfolding next_id
  next_place_id = next_id b (codes "next_place_id")

  unfoldable pub next_group_id : Db b → ℕ × Db b
  unfolding next_id
  next_group_id = next_id b (codes "next_group_id")

  unfoldable pub insert_user : UserRecord → Db b → Db b
  insert_user user db = record db {
    users = b.records.insert db.users user.id (b.user_json.encode user);
  }

  unfoldable pub get_user : ℕ → Db b → Result DbError (Option UserRecord)
  unfolding get_record
  get_user id db = get_record b b.user_json db.users id

  unfoldable pub list_users : Db b → Result DbError (List UserRecord)
  unfolding parse_all
  list_users db = parse_all b.user_json (b.records.iter db.users)

  -- `delete_json` of a table: whether there was a record.
  unfoldable pub delete_record : b.records.T → ℕ → Bool × b.records.T
  delete_record table id =
      (elim (b.records.get table id) [ none ↦ false | some text ↦ true ], b.records.remove table id)

  unfoldable pub delete_user : ℕ → Db b → Bool × Db b
  unfolding delete_record
  delete_user id db =
      let (found, rest) = delete_record db.users id in (found, record db { users = rest })

  unfoldable pub insert_place : PlaceRecord → Db b → Db b
  insert_place place db = record db {
    places = b.records.insert db.places place.id (b.place_json.encode place);
  }

  unfoldable pub get_place : ℕ → Db b → Result DbError (Option PlaceRecord)
  unfolding get_record
  get_place id db = get_record b b.place_json db.places id

  unfoldable pub list_places : Db b → Result DbError (List PlaceRecord)
  unfolding parse_all
  list_places db = parse_all b.place_json (b.records.iter db.places)

  unfoldable pub delete_place : ℕ → Db b → Bool × Db b
  unfolding delete_record
  delete_place id db =
      let (found, rest) = delete_record db.places id in (found, record db { places = rest })

  unfoldable pub insert_group : GroupRecord → Db b → Db b
  insert_group group db = record db {
    groups = b.records.insert db.groups group.id (b.group_json.encode group);
  }

  unfoldable pub get_group : ℕ → Db b → Result DbError (Option GroupRecord)
  unfolding get_record
  get_group id db = get_record b b.group_json db.groups id

  unfoldable pub list_groups : Db b → Result DbError (List GroupRecord)
  unfolding parse_all
  list_groups db = parse_all b.group_json (b.records.iter db.groups)

  unfoldable pub delete_group : ℕ → Db b → Bool × Db b
  unfolding delete_record
  delete_group id db =
      let (found, rest) = delete_record db.groups id in (found, record db { groups = rest })

  unfoldable pub list_games : Db b → Result DbError (List GameRecord)
  unfolding parse_all
  list_games db = parse_all b.game_json (b.records.iter db.games)

  unfoldable pub list_audits : Db b → Result DbError (List AuditRecord)
  unfolding parse_all
  list_audits db = parse_all b.audit_json (b.records.iter db.audits)

  unfoldable pub bind : Text → ℕ → ℕ → Db b → Db b
  unfolding binding_key
  bind kind a c db = record db { bindings = b.counts.insert db.bindings (binding_key kind a c) 1 }

  unfoldable pub binding_ids : Text → ℕ → Db b → List ℕ
  unfolding ids_behind
  binding_ids kind a db =
      ids_behind (kind ++ codes "/" ++ decimal a ++ codes "/") (b.counts.iter db.bindings)

  -- The two nested loops over the groups of the user and their places.
  unfoldable pub add_group_places : List ℕ → List ℕ → Db b → List ℕ
  unfolding binding_ids add_places
  add_group_places places [] db = places
  add_group_places places (group ∷ groups) db =
      add_group_places (add_places places (binding_ids (codes "group_place") group db)) groups db

  unfoldable pub places_of_user : ℕ → Db b → List ℕ
  unfolding binding_ids add_group_places
  places_of_user user_id db = sort leb (
      add_group_places (to_set (binding_ids (codes "user_place") user_id db))
        (binding_ids (codes "user_group") user_id db) db)

  -- `top_games`: the ids of the games with the most launches.
  unfoldable pub top_games : ℕ → Db b → Result DbError (List ℕ)
  unfolding parse_heat
  top_games limit db = do
    games ← parse_heat (b.counts.iter db.heat)
    ok (map (λ p. p.0) (take limit (sort (λ p q. leb q.1 p.1) games)))
