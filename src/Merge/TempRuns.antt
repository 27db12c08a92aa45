-- ===== src/Merge/TempRuns.antt =====
-- A run of the plan of an update with one chunk in the temporary directory.
use blaze_net.Common.{
  ltb, nat_eq, bytes_eq, ok, All, contains, ℕ, ◌≡◌, refl, Bool, true, false, ◌&&◌, none, List, [],
  ◌∷◌, arith,
}
use blaze_net.Manifest.Defs.{Hash, IsHash, encode}
use blaze_net.Manifest.Runs.{small_index, no_digest, decode-small_index}
use blaze_net.Plan.Defs.{compute}
use blaze_net.Storage.Defs.{hex_digit, hex}
use blaze_net.Transfer.Runs.{seven}
use blaze_net.Merge.Temps.{decode_old, plan_update}
use blaze_net.Merge.Hexes.{blk_name, IsAscii}
use blaze_net.Merge.Scanned.{plan_update-stored}

-- A test of bytes that computes.
abbrev are_ascii : List ℕ → Bool
are_ascii [] = true
are_ascii (c ∷ cs) = ltb c 0x80 && are_ascii cs

are_ascii-IsAscii : (cs : List ℕ) → are_ascii cs ≡ true → IsAscii cs
are_ascii-IsAscii [] h = tt
are_ascii-IsAscii (c ∷ cs) h = (ground arith, are_ascii-IsAscii cs (ground arith))

abbrev temp_names : List (List ℕ)
temp_names = blk_name seven ∷ []

temp_names-IsAscii : All IsAscii temp_names
unfolding hex hex_digit
temp_names-IsAscii = (are_ascii-IsAscii (blk_name seven) refl, tt)

plan_update-stored_example :
    (temp : List Hash) × (plan_update no_digest (encode small_index) none temp_names
      ≡ ok (compute small_index none temp))
    × ((h : Hash)
        → IsHash h
        → contains (blk_name h) temp_names ≡ true
        → contains h (compute small_index none temp).chunks_to_download ≡ false)
plan_update-stored_example =
    plan_update-stored no_digest (encode small_index) none temp_names small_index none
      decode-small_index (unfold decode_old in refl) temp_names-IsAscii
