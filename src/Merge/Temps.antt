-- ===== src/Merge/Temps.antt =====
-- The plan of an update from the directory of temporary chunks, agent/src/update.rs. A name is its
-- bytes in UTF-8; that the directory cannot be read is left out.
use blaze_net.Common.{
  if◌then◌else◌, ◌==◌, ltb, leb, nat_eq, bytes_eq, Result, ok, err, length, take, drop, set_insert,
  ℕ, ◌+◌, ◌-◌, ◌*◌, Bool, false, ◌&&◌, Option, none, some, List, [], ◌∷◌,
}
use blaze_net.Manifest.Defs.{Hash, GameIndex, Blake3, DecodeError, decode}
use blaze_net.Plan.Defs.{UpdatePlan, compute}

pub data Parsed : Type 0 where
  panicked no_hash : Parsed
  parsed : Hash → Parsed

unfoldable pub digit_of : ℕ → Option ℕ
digit_of c =
    if leb 0x30 c && leb c 0x39
    then some (c - 0x30)
    else if leb 0x61 c && leb c 0x66
    then some (c - 0x57)
    else if leb 0x41 c && leb c 0x46
    then some (c - 0x37)
    else none

unfoldable pub two_digits : Option ℕ → Option ℕ → Option ℕ
two_digits (some a) (some b) = some (a * 16 + b)
two_digits (some a) none = none
two_digits none o = none

-- `u8::from_str_radix` of two bytes, which takes a plus sign.
unfoldable pub from_str_radix : ℕ → ℕ → Option ℕ
unfolding digit_of two_digits
from_str_radix a b = if a == 0x2b then digit_of b else two_digits (digit_of a) (digit_of b)

-- A slice that ends inside a character panics.
unfoldable pub starts_inside : List ℕ → Bool
starts_inside [] = false
starts_inside (c ∷ cs) = leb 0x80 c && ltb c 0xc0

unfoldable pub put_byte : Option ℕ → Parsed → Parsed
put_byte none more = no_hash
put_byte (some b) (parsed bs) = parsed (b ∷ bs)
put_byte (some b) no_hash = no_hash
put_byte (some b) panicked = panicked

unfoldable pub parse_pairs : List ℕ → Parsed
unfolding from_str_radix starts_inside put_byte
parse_pairs [] = parsed []
parse_pairs (a ∷ []) = panicked
parse_pairs (a ∷ b ∷ cs) =
    let more = parse_pairs cs in
    if starts_inside cs then panicked else put_byte (from_str_radix a b) more

unfoldable pub parse_hex : List ℕ → Parsed
unfolding parse_pairs
parse_hex text = if length text == 64 then parse_pairs text else no_hash

abbrev pub blk : List ℕ
blk = 0x2e ∷ 0x62 ∷ 0x6c ∷ 0x6b ∷ []

unfoldable pub strip_blk : List ℕ → Option (List ℕ)
strip_blk name =
    let at = length name - 4 in if drop at name == blk then some (take at name) else none

unfoldable pub parse_name : List ℕ → Parsed
unfolding parse_hex strip_blk
parse_name name = elim (strip_blk name) [ none ↦ no_hash | some stem ↦ parse_hex stem ]

unfoldable pub add_parsed : Parsed → Option (List Hash) → Option (List Hash)
add_parsed panicked hashes = none
add_parsed no_hash hashes = hashes
add_parsed (parsed h) none = none
add_parsed (parsed h) (some hashes) = some (set_insert h hashes)

-- `none` if a name makes the scan panic.
unfoldable pub collect_temp_hashes : List (List ℕ) → Option (List Hash)
unfolding parse_name add_parsed
collect_temp_hashes [] = some []
collect_temp_hashes (name ∷ names) = add_parsed (parse_name name) (collect_temp_hashes names)

pub data PlanError : Type 0 where
  bad_new_manifest bad_old_manifest : DecodeError → PlanError
  scan_panicked : PlanError

unfoldable pub decode_old : Blake3 → Option (List ℕ) → Result DecodeError (Option GameIndex)
decode_old blake3 none = ok none
decode_old blake3 (some manifest) = elim (decode blake3 manifest) [
  | err e ↦ err e
  | ok index ↦ ok (some index)
]

unfoldable pub plan_update :
    Blake3 → List ℕ → Option (List ℕ) → List (List ℕ) → Result PlanError UpdatePlan
unfolding decode_old
plan_update blake3 new_manifest old_manifest names = elim (decode blake3 new_manifest) [
  | err e ↦ err (bad_new_manifest e)
  | ok new ↦ elim (decode_old blake3 old_manifest) [
    | err e ↦ err (bad_old_manifest e)
    | ok old ↦ elim (collect_temp_hashes names) [
      | none ↦ err scan_panicked
      | some temp ↦ ok (compute new old temp)
    ]
  ]
]
