-- ===== src/Scheduler/Admin/Ids.antt =====
-- The ids of new games in scheduler/src/http.rs.
use blaze_net.Common.{
  nat_beq, Bool-cases, ◌==◌, bytes_beq_iff, bytes_eq, nat_eq, ok, ℕ, ◌+◌, ◌%◌, ◌^◌, ◌<◌, ◌≡◌, refl,
  ◌∙◌, ◌≢◌, inl, inr, false, none, some, [], arith,
}
use blaze_net.Scheduler.Db.Records.{Text, codes, Backend, u64_mod}
use blaze_net.Scheduler.Db.Tables.{next_id, next_game_id, insert_game, get_game, add_audit}
use blaze_net.Scheduler.Control.Defs.{ControlService}
use blaze_net.Scheduler.Admin.Defs.{audit, store_game, create_game}

module _ (b : Backend) where
  store_game-counter :
      (now id : ℕ) (name : Text) (s : ControlService b)
      → b.counts.get (store_game b now name s id).1.db.counters (codes "next_game_id")
        ≡ b.counts.get s.db.counters (codes "next_game_id")
  unfolding store_game insert_game audit add_audit next_id
  store_game-counter now id name s =
      rw (b.counts.get-insert s.db.counters (codes "next_audit_id") _ (codes "next_game_id")) refl

  create_game-chosen :
      (now id : ℕ) (name : Text) (s : ControlService b)
      → name ≢ []
      → 0 < id
      → get_game b id s.db ≡ ok none
      → create_game b now (record { name = name; wanted_id = some id }) s
        ≡ store_game b now name s id
  unfolding create_game
  create_game-chosen now id name s given h free = elim (Bool-cases (name == [])) [
    | inl empty ↦ absurd (given ((bytes_beq_iff name []).0 empty))
    | inr full ↦
        let positive : nat_beq id 0 ≡ false = ground arith in
        rw (create_game, full, positive, free) refl
  ]

  create_game-counted :
      (now c : ℕ) (name : Text) (s : ControlService b)
      → name ≢ []
      → c + 1 < 2 ^ 64
      → b.counts.get s.db.counters (codes "next_game_id") ≡ some c
      → (create_game b now (record { name = name; wanted_id = none }) s).0
        ≡ ok (record {
          id = c + 1;
          name = name;
          status = codes "uploading";
          current_version = 0;
          latest_version = 0;
        })
  unfolding create_game store_game next_game_id next_id
  create_game-counted now c name s given h known = elim (Bool-cases (name == [])) [
    | inl empty ↦ absurd (given ((bytes_beq_iff name []).0 empty))
    | inr full ↦
        let fits : (c + 1) % u64_mod ≡ c + 1 = omega (arith, h) in
        rw (create_game, full, known, fits) refl
  ]

  -- A game id that a request chooses is not reserved: if it is free and the one behind the counter
  -- (a u64), the next game that is created without an id gets it too, both names not being empty.
  pub create_game_same_id :
      (now c : ℕ) (first second : Text) (s : ControlService b)
      → first ≢ []
      → second ≢ []
      → c + 1 < 2 ^ 64
      → b.counts.get s.db.counters (codes "next_game_id") ≡ some c
      → get_game b (c + 1) s.db ≡ ok none
      → (create_game b now
          (record { name = second; wanted_id = none })
          (create_game b now (record { name = first; wanted_id = some (c + 1) }) s).1).0
        ≡ ok (record {
          id = c + 1;
          name = second;
          status = codes "uploading";
          current_version = 0;
          latest_version = 0;
        })
  create_game_same_id now c first second s f g h known free =
      rw (create_game-chosen now (c + 1) first s f (omega arith) free) (
        create_game-counted now c second (store_game b now first s (c + 1)).1 g h
          (store_game-counter now (c + 1) first s ∙ known))
