-- ===== src/Merge/Hexes.antt =====
-- The names of the temporary chunks of agent/src/update.rs.
use blaze_net.Common.{
  Bool-cases, ◌==◌, nat_beq_iff, bytes_beq, ltb, leb, nat_eq, bytes_eq, IsByte, length,
  length-append, take, drop, take-append, drop-append, All, All-take, ℕ, zero, suc, ◌+◌, ◌-◌, ◌*◌,
  ◌/◌, ◌%◌, ◌<◌, ◌≡◌, ◌≢◌, refl, sym, inl, inr, false, Option, none, some, List, [], ◌∷◌, ◌++◌,
  arith,
}
use blaze_net.Manifest.Defs.{Hash, IsHash}
use blaze_net.Storage.Defs.{hex_digit, hex}
use blaze_net.Merge.Temps.{
  Parsed, panicked, no_hash, parsed, digit_of, two_digits, from_str_radix, starts_inside, put_byte,
  parse_pairs, parse_hex, blk, strip_blk, parse_name,
}

digit_of-hex_digit : (d : ℕ) → d < 16 → digit_of (hex_digit d) ≡ some d
unfolding digit_of hex_digit
digit_of-hex_digit d h = elim (Bool-cases (ltb d 10)) [
  | inl small ↦ rw (digit_of, hex_digit, small) (ground arith)
  | inr large ↦ rw (digit_of, hex_digit, large) (ground arith)
]

hex_digit-plain :
    (d : ℕ) → d < 16 → ((hex_digit d == 0x2b) ≡ false) × (leb 0x80 (hex_digit d) ≡ false)
unfolding hex_digit
hex_digit-plain d h = (ground arith, ground arith)

from_str_radix-hex_digit :
    (b : ℕ) → b < 256 → from_str_radix (hex_digit (b / 16)) (hex_digit (b % 16)) ≡ some b
unfolding from_str_radix two_digits
from_str_radix-hex_digit b h =
    let low : b % 16 < 16 = omega arith in
    let high : b / 16 < 16 = omega arith in
    let whole : b / 16 * 16 + b % 16 ≡ b = omega arith in
    rw
      (
        (hex_digit-plain (b / 16) high).0,
        digit_of-hex_digit (b / 16) high,
        digit_of-hex_digit (b % 16) low,
        whole,
      )
      refl

starts_inside-hex : (bs : List ℕ) → All IsByte bs → starts_inside (hex bs) ≡ false
unfolding starts_inside hex
starts_inside-hex [] h = refl
starts_inside-hex (b ∷ bs) h =
    rw (hex_digit-plain (b / 16) (let e : b < 256 = h.0 in omega arith)).1 refl

parse_pairs-hex : (bs : List ℕ) → All IsByte bs → parse_pairs (hex bs) ≡ parsed bs
unfolding parse_pairs hex put_byte
parse_pairs-hex [] h = refl
parse_pairs-hex (b ∷ bs) (small, h) =
    rw (starts_inside-hex bs h, from_str_radix-hex_digit b small, parse_pairs-hex bs h) refl

length-hex : (bs : List ℕ) → length (hex bs) ≡ 2 * length bs
unfolding hex
length-hex [] = refl
length-hex (b ∷ bs) = omega (arith, length-hex bs)

-- The name under which a chunk is stored.
abbrev pub blk_name : Hash → List ℕ
blk_name h = hex h ++ blk

strip_blk-append : (stem : List ℕ) → strip_blk (stem ++ blk) ≡ some stem
unfolding strip_blk
strip_blk-append stem =
    let at : length stem ≡ length (stem ++ blk) - 4 = omega (arith, length-append stem blk) in
    rw
      (
        strip_blk,
        sym at,
        take-append stem blk (length stem) refl,
        drop-append stem blk (length stem) refl,
      )
      refl

parse_hex-hex : (h : Hash) → IsHash h → parse_hex (hex h) ≡ parsed h
unfolding parse_hex
parse_hex-hex h (bytes, size) =
    let long : length (hex h) ≡ 64 = omega (arith, length-hex h) in
    rw (parse_hex, long) (parse_pairs-hex h bytes)

pub parse_name-blk_name : (h : Hash) → IsHash h → parse_name (blk_name h) ≡ parsed h
unfolding parse_name
parse_name-blk_name h ok_h = rw (parse_name, strip_blk-append (hex h)) (parse_hex-hex h ok_h)

-- Names in ASCII never make the scan panic.
abbrev pub IsAscii : List ℕ → Type 0
IsAscii name = All (λ c. c < 0x80) name

put_byte-calm : (o : Option ℕ) (p : Parsed) → p ≢ panicked → put_byte o p ≢ panicked
unfolding put_byte
put_byte-calm none p calm e = cc
put_byte-calm (some b) (parsed bs) calm e = cc
put_byte-calm (some b) no_hash calm e = cc
put_byte-calm (some b) panicked calm e = calm refl

starts_inside-ascii : (cs : List ℕ) → IsAscii cs → starts_inside cs ≡ false
unfolding starts_inside
starts_inside-ascii [] h = refl
starts_inside-ascii (c ∷ cs) (small, h) = let low : leb 0x80 c ≡ false = ground arith in rw low refl

-- A text of an even number of bytes.
abbrev Even : List ℕ → Type 0
Even [] = Unit
Even (a ∷ []) = ⊥
Even (a ∷ b ∷ cs) = Even cs

parse_pairs-calm : (cs : List ℕ) → IsAscii cs → Even cs → parse_pairs cs ≢ panicked
unfolding parse_pairs
parse_pairs-calm [] h ev e = cc
parse_pairs-calm (a ∷ []) h ev e = absurd ev
parse_pairs-calm (a ∷ b ∷ cs) (ha, (hb, h)) ev e =
    put_byte-calm (from_str_radix a b) (parse_pairs cs) (parse_pairs-calm cs h ev)
      (rw (parse_pairs, starts_inside-ascii cs h) at e)

length-Even : (n : ℕ) (cs : List ℕ) → length cs ≡ n + n → Even cs
length-Even n [] h = tt
length-Even n (a ∷ []) h = absurd (omega arith)
length-Even zero (a ∷ b ∷ cs) h = absurd (omega arith)
length-Even (suc n) (a ∷ b ∷ cs) h = length-Even n cs (omega arith)

parse_hex-calm : (cs : List ℕ) → IsAscii cs → parse_hex cs ≢ panicked
unfolding parse_hex
parse_hex-calm cs h = elim (Bool-cases (length cs == 64)) [
  | inl long ↦
      rw (parse_hex, long)
        (parse_pairs-calm cs h (length-Even 32 cs ((nat_beq_iff (length cs) 64).0 long)))
  | inr other ↦ rw (parse_hex, other) (λ e. cc)
]

pub parse_name-calm : (name : List ℕ) → IsAscii name → parse_name name ≢ panicked
unfolding parse_name strip_blk
parse_name-calm name h =
    let at = length name - 4 in
    elim (Bool-cases (bytes_beq (drop at name) blk)) [
      | inl blk_file ↦
          rw (parse_name, strip_blk, blk_file)
            (parse_hex-calm (take at name) (All-take (λ c. c < 0x80) at name h))
      | inr other ↦ rw (parse_name, strip_blk, other) (λ e. cc)
    ]
