-- ===== src/Scheduler/Db/Codec.antt =====
-- A concrete stand-in for the JSON and the tables that scheduler/src/db.rs takes from other crates:
-- a record is written as its numbers, a list behind its length. It shows that the laws that
-- `Backend` asks for can hold.
use blaze_net.Common.{
  nat_eq, bytes_eq, length, ℕ, zero, suc, ◌≡◌, refl, Option, none, some, List, [], ◌∷◌, ◌++◌,
  append-nil, append_assoc,
}
use blaze_net.Scheduler.Db.Records.{Text, Json}

pub record Codec (A : Type 0) : Type 0 where
  pub put : A → List ℕ
  pub get : List ℕ → Option (A × List ℕ)
  pub get-put : (a : A) (rest : List ℕ) → get (put a ++ rest) ≡ some (a, rest)

unfoldable pub get_number : List ℕ → Option (ℕ × List ℕ)
get_number [] = none
get_number (n ∷ rest) = some (n, rest)

abbrev pub number : Codec ℕ
unfolding get_number
number = record { put = λ n. n ∷ []; get = get_number; get-put = λ n rest. refl }

-- Two values, one behind the other.
module _ {A B : Type 0} (first : Codec A) (second : Codec B) where
  unfoldable pub put_both : A × B → List ℕ
  put_both (a, b) = first.put a ++ second.put b

  unfoldable pub get_both : List ℕ → Option ((A × B) × List ℕ)
  get_both t = elim (first.get t) [
    | none ↦ none
    | some p ↦ elim (second.get p.1) [ none ↦ none | some q ↦ some ((p.0, q.0), q.1) ]
  ]

  pub get-put_both : (p : A × B) (rest : List ℕ) → get_both (put_both p ++ rest) ≡ some (p, rest)
  unfolding get_both put_both
  get-put_both (a, b) rest =
      rw (append_assoc, get_both, first.get-put a (second.put b ++ rest), second.get-put b rest)
        refl

  unfoldable pub both : Codec (A × B)
  both = record { put = put_both; get = get_both; get-put = get-put_both }

-- A list behind its length.
module _ {A : Type 0} (each : Codec A) where
  unfoldable pub put_each : List A → List ℕ
  put_each [] = []
  put_each (a ∷ xs) = each.put a ++ put_each xs

  unfoldable pub get_each : ℕ → List ℕ → Option (List A × List ℕ)
  get_each zero t = some ([], t)
  get_each (suc n) t = elim (each.get t) [
    | none ↦ none
    | some p ↦ elim (get_each n p.1) [ none ↦ none | some q ↦ some (p.0 ∷ q.0, q.1) ]
  ]

  get-put_each :
      (xs : List A) (rest : List ℕ) → get_each (length xs) (put_each xs ++ rest) ≡ some (xs, rest)
  unfolding get_each put_each
  get-put_each [] rest = refl
  get-put_each (a ∷ xs) rest =
      rw (append_assoc, get_each, each.get-put a (put_each xs ++ rest), get-put_each xs rest) refl

  unfoldable pub get_many : List ℕ → Option (List A × List ℕ)
  unfolding get_each
  get_many [] = none
  get_many (n ∷ t) = get_each n t

  pub get-put_many :
      (xs : List A) (rest : List ℕ) → get_many ((length xs ∷ put_each xs) ++ rest) ≡ some (xs, rest)
  unfolding get_many
  get-put_many xs rest = get-put_each xs rest

  unfoldable pub many : Codec (List A)
  many = record { put = λ xs. length xs ∷ put_each xs; get = get_many; get-put = get-put_many }

-- The JSON of a type that has the parts of another.
module _ {A B : Type 0} (parts : Codec B) (split : A → B) (join : B → A)
    (same : (a : A) → join (split a) ≡ a) where
  unfoldable pub read_json : Text → Option A
  read_json t = elim (parts.get t) [ none ↦ none | some p ↦ some (join p.0) ]

  pub read_json-put : (a : A) → read_json (parts.put (split a)) ≡ some a
  unfolding read_json
  read_json-put a =
      let whole = rw (append-nil (parts.put (split a))) at (parts.get-put (split a) []) in
      rw (read_json, whole, same a) refl

  unfoldable pub json_of : Json A
  json_of = record {
    encode = λ a. parts.put (split a);
    decode = read_json;
    decode-encode = read_json-put;
  }
