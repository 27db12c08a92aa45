-- ===== src/Merge/Scanned.antt =====
-- The plan of agent/src/update.rs and the chunks that are already in the temporary directory.
use blaze_net.Common.{
  Bool-cases, ◌==◌, beq_refl, bytes_beq, bytes_beq_iff, bytes_eq, ok, All, contains, set_insert,
  contains-set_insert, ℕ, ◌≡◌, ◌≢◌, refl, sym, ap, ◌∙◌, ◌⊎◌, inl, inr, Bool, true, false, ◌&&◌,
  ◌||◌, Option, none, some, List, [], ◌∷◌,
}
use blaze_net.Manifest.Defs.{Hash, IsHash, GameIndex, Blake3, decode}
use blaze_net.Plan.Defs.{compute}
use blaze_net.Plan.Chunks.{chunks_to_download_exact}
use blaze_net.Merge.Temps.{
  Parsed, panicked, no_hash, parsed, parse_name, add_parsed, collect_temp_hashes, decode_old,
  plan_update,
}
use blaze_net.Merge.Hexes.{blk_name, IsAscii, parse_name-blk_name, parse_name-calm}

-- The scan ends, and has found the hashes whose chunks are stored.
abbrev Scanned : List (List ℕ) → Option (List Hash) → Type 0
Scanned names o =
    (temp : List Hash) × (o ≡ some temp)
    × ((h : Hash) → IsHash h → contains (blk_name h) names ≡ true → contains h temp ≡ true)

or_true : (b : Bool) → b || true ≡ true
or_true true = refl
or_true false = refl

and_false : (a b : Bool) → a && (b && false) ≡ false
and_false true true = refl
and_false true false = refl
and_false false b = refl

listed_cases :
    (n name : List ℕ) (names : List (List ℕ))
    → contains n (name ∷ names) ≡ true
    → (name ≡ n) ⊎ (contains n names ≡ true)
listed_cases n name names listed = elim (Bool-cases (bytes_beq name n)) [
  | inl same ↦ inl ((bytes_beq_iff name n).0 same)
  | inr other ↦ inr (rw other at listed)
]

parsed-no_hash : {h : Hash} → parsed h ≢ no_hash
parsed-no_hash e = cc

parsed_injective : {h j : Hash} → parsed h ≡ parsed j → h ≡ j
parsed_injective e = cc

some_apart : {temp : List Hash} → ◌≡◌ {A = Option (List Hash)} none (some temp) → ⊥
some_apart e = cc

some_injective : {a b : List Hash} → some a ≡ some b → a ≡ b
some_injective e = cc

same_name :
    (name : List ℕ) (h : Hash) (p : Parsed)
    → IsHash h
    → parse_name name ≡ p
    → name ≡ blk_name h
    → parsed h ≡ p
same_name name h p ok_h e same = sym (parse_name-blk_name h ok_h) ∙ ap parse_name (sym same) ∙ e

add_parsed-Scanned :
    (name : List ℕ) (names : List (List ℕ)) (p : Parsed) (o : Option (List Hash))
    → parse_name name ≡ p
    → p ≢ panicked
    → Scanned names o
    → Scanned (name ∷ names) (add_parsed p o)
unfolding add_parsed
add_parsed-Scanned name names panicked o e calm scanned = absurd (calm refl)
add_parsed-Scanned name names no_hash o e calm (temp, done, found) = (
  temp,
  done,
  λ h ok_h listed. elim (listed_cases (blk_name h) name names listed) [
    | inl same ↦ absurd (parsed-no_hash (same_name name h no_hash ok_h e same))
    | inr before ↦ found h ok_h before
  ],
)
add_parsed-Scanned name names (parsed j) none e calm (temp, done, found) = absurd (some_apart done)
add_parsed-Scanned name names (parsed j) (some hs) e calm (temp, done, found) = (
  set_insert j hs,
  refl,
  λ h ok_h listed.
      rw (contains-set_insert h j hs) (elim (listed_cases (blk_name h) name names listed) [
        | inl same ↦
            rw (parsed_injective (same_name name h (parsed j) ok_h e same), beq_refl j) refl
        | inr before ↦ rw (some_injective done, found h ok_h before) (or_true (j == h))
      ]),
)

collect_temp_hashes-Scanned :
    (names : List (List ℕ)) → All IsAscii names → Scanned names (collect_temp_hashes names)
unfolding collect_temp_hashes
collect_temp_hashes-Scanned [] h = ([], refl, λ h ok_h listed. listed)
collect_temp_hashes-Scanned (name ∷ names) (here, later) =
    add_parsed-Scanned name names (parse_name name) (collect_temp_hashes names) refl
      (parse_name-calm name here) (collect_temp_hashes-Scanned names later)

-- If the manifests given decode and all names of the temporary directory are in ASCII, then a plan is
-- made, by `compute` for some temporary hashes, and it does not download a chunk that is stored in the
-- directory under its name.
pub plan_update-stored :
    (blake3 : Blake3) (new_manifest : List ℕ) (old_manifest : Option (List ℕ))
    (names : List (List ℕ)) (new : GameIndex) (old : Option GameIndex)
    → decode blake3 new_manifest ≡ ok new
    → decode_old blake3 old_manifest ≡ ok old
    → All IsAscii names
    → (temp : List Hash) × (plan_update blake3 new_manifest old_manifest names
        ≡ ok (compute new old temp))
      × ((h : Hash)
          → IsHash h
          → contains (blk_name h) names ≡ true
          → contains h (compute new old temp).chunks_to_download ≡ false)
unfolding plan_update
plan_update-stored blake3 new_manifest old_manifest names new old is_new is_old ascii =
    let (temp, done, found) = collect_temp_hashes-Scanned names ascii in
    (
      temp,
      rw (plan_update, is_new, is_old, done) refl,
      λ h ok_h listed.
          rw (chunks_to_download_exact new old temp h, found h ok_h listed) (and_false _ _),
    )
