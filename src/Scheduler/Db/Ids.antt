-- ===== src/Scheduler/Db/Ids.antt =====
-- The ids that `binding_ids` of scheduler/src/db.rs reads out of the keys of a table.
use blaze_net.Common.{
  Bool-cases, ◌==◌, beq_refl, nat_beq_iff, bytes_beq, bytes_beq_iff, bytes_eq, nat_eq, keys,
  contains, lookup, ℕ, ◌≡◌, ◌≢◌, refl, sym, inl, inr, true, Option, none, some, List, [], ◌∷◌,
}
use blaze_net.Scheduler.Db.Records.{Text}
use blaze_net.Scheduler.Db.Accounts.{strip_prefix, parse_u64, ids_behind}
use blaze_net.Scheduler.Db.Decimals.{none_apart}
use blaze_net.Scheduler.Db.Bindings.{or_true}

-- A key of the table that gives the id behind the prefix.
abbrev pub Found : Text → ℕ → List (Text × ℕ) → Type 0
Found prefix c m =
    (k : Text) × (tail : Text) × (contains k (keys m) ≡ true)
    × (strip_prefix prefix k ≡ some tail)
    × (parse_u64 tail ≡ some c)

carry_over :
    (prefix : Text) (c : ℕ) (k : Text) (v : ℕ) (m : List (Text × ℕ))
    → Found prefix c m
    → Found prefix c ((k, v) ∷ m)
carry_over prefix c k v m (j, tail, inside, stripped, read) =
    (j, tail, rw inside (or_true (k == j)), stripped, read)

-- What one entry adds to the ids: the text behind the prefix, and the number there.
data Step (prefix : Text) (k : Text) : Type 0 where
  unmatched : strip_prefix prefix k ≡ none → Step prefix k
  unread : (tail : Text) → strip_prefix prefix k ≡ some tail → parse_u64 tail ≡ none → Step prefix k
  id_read :
      (tail : Text) (id : ℕ)
      → strip_prefix prefix k ≡ some tail
      → parse_u64 tail ≡ some id
      → Step prefix k

classify_number :
    (prefix k tail : Text) (o : Option ℕ)
    → strip_prefix prefix k ≡ some tail
    → parse_u64 tail ≡ o
    → Step prefix k
classify_number prefix k tail none stripped e = unread tail stripped e
classify_number prefix k tail (some id) stripped e = id_read tail id stripped e

classify_key : (prefix k : Text) (o : Option Text) → strip_prefix prefix k ≡ o → Step prefix k
classify_key prefix k none e = unmatched e
classify_key prefix k (some tail) e = classify_number prefix k tail (parse_u64 tail) e refl

entry_Found :
    (prefix : Text) (c : ℕ) (k : Text) (v : ℕ) (m : List (Text × ℕ))
    → Step prefix k
    → (contains c (ids_behind prefix m) ≡ true → Found prefix c m)
    → contains c (ids_behind prefix ((k, v) ∷ m)) ≡ true
    → Found prefix c ((k, v) ∷ m)
unfolding ids_behind
entry_Found prefix c k v m (unmatched e) later h =
    carry_over prefix c k v m (later (rw (ids_behind, e) at h))
entry_Found prefix c k v m (unread tail e e') later h =
    carry_over prefix c k v m (later (rw (ids_behind, e, e') at h))
entry_Found prefix c k v m (id_read tail id e e') later h = elim (Bool-cases (id == c)) [
  | inl same ↦ (k, tail, rw (beq_refl k) refl, e, rw ((nat_beq_iff id c).0 same) at e')
  | inr other ↦ carry_over prefix c k v m (later (rw (ids_behind, e, e', other) at h))
]

pub ids_behind-Found :
    (prefix : Text) (c : ℕ) (m : List (Text × ℕ))
    → contains c (ids_behind prefix m) ≡ true
    → Found prefix c m
unfolding ids_behind
ids_behind-Found prefix c [] h = cc
ids_behind-Found prefix c ((k, v) ∷ m) h =
    entry_Found prefix c k v m (classify_key prefix k (strip_prefix prefix k) refl)
      (ids_behind-Found prefix c m) h

contains-later :
    (prefix : Text) (c : ℕ) (k : Text) (v : ℕ) (m : List (Text × ℕ))
    → Step prefix k
    → contains c (ids_behind prefix m) ≡ true
    → contains c (ids_behind prefix ((k, v) ∷ m)) ≡ true
unfolding ids_behind
contains-later prefix c k v m (unmatched e) h = rw (ids_behind, e) h
contains-later prefix c k v m (unread tail e e') h = rw (ids_behind, e, e') h
contains-later prefix c k v m (id_read tail id e e') h =
    rw (ids_behind, e, e', h) (or_true (id == c))

pub ids_behind-lookup :
    (prefix k tail : Text) (c v : ℕ) (m : List (Text × ℕ))
    → lookup k m ≡ some v
    → strip_prefix prefix k ≡ some tail
    → parse_u64 tail ≡ some c
    → contains c (ids_behind prefix m) ≡ true
unfolding ids_behind
ids_behind-lookup prefix k tail c v [] found stripped read = cc
ids_behind-lookup prefix k tail c v ((j, w) ∷ m) found stripped read =
    elim (Bool-cases (bytes_beq j k)) [
      | inl same ↦
          rw (ids_behind, (bytes_beq_iff j k).0 same, stripped, read) (rw (beq_refl c) refl)
      | inr far ↦
          contains-later prefix c j w m (classify_key prefix j (strip_prefix prefix j) refl)
            (ids_behind-lookup prefix k tail c v m (rw far at found) stripped read)
    ]

pub lookup-keys : (k : Text) (m : List (Text × ℕ)) → contains k (keys m) ≡ true → lookup k m ≢ none
lookup-keys k [] h e = cc
lookup-keys k ((j, v) ∷ m) h e = elim (Bool-cases (bytes_beq j k)) [
  | inl same ↦ none_apart (sym (rw same at e))
  | inr far ↦ lookup-keys k m (rw far at h) (rw far at e)
]
