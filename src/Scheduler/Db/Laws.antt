-- ===== src/Scheduler/Db/Laws.antt =====
-- What the tables of scheduler/src/db.rs give back after a write.
use blaze_net.Common.{
  nat_beq, Bool-cases, nat_beq_iff, nat_eq, bytes_eq, beq_refl, ok, ℕ, ◌≡◌, refl, inl, inr, some,
}
use blaze_net.Scheduler.Db.Records.{Text, Json, Backend}
use blaze_net.Scheduler.Db.Tables.{parse, get_record}

-- A record that was written is read back.
pub parse-encode : {A : Type 0} (json : Json A) (a : A) → parse json (json.encode a) ≡ ok a
unfolding parse
parse-encode json a = rw (parse, json.decode-encode a) refl

module _ (b : Backend) where
  pub get_record-insert :
      {A : Type 0} (json : Json A) (t : b.records.T) (id : ℕ) (a : A)
      → get_record b json (b.records.insert t id (json.encode a)) id ≡ ok (some a)
  unfolding get_record
  get_record-insert json t id a =
      rw
        (get_record, b.records.get-insert t id (json.encode a) id, beq_refl id, parse-encode json a)
        refl

  pub get_record-insert_ne :
      {A : Type 0} (json : Json A) (t : b.records.T) (id other : ℕ) (text : Text)
      → ¬ (id ≡ other)
      → get_record b json (b.records.insert t id text) other ≡ get_record b json t other
  unfolding get_record
  get_record-insert_ne json t id other text ne = elim (Bool-cases (nat_beq id other)) [
    | inl same ↦ absurd (ne ((nat_beq_iff id other).0 same))
    | inr far ↦ rw (get_record, b.records.get-insert t id text other, far) refl
  ]
