-- ===== src/Storage/Keys.antt =====
-- The keys and the packed values of the index in origin/src/storage.rs.
use blaze_net.Common.{
  nat_eq, bytes_eq, All, IsByte, ℕ, ◌+◌, ◌*◌, ◌/◌, ◌%◌, ◌^◌, ◌<◌, ◌≡◌, refl, ap, ◌∙◌, List, [], ◌∷◌,
  ◌++◌, arith,
}
use blaze_net.Storage.Defs.{u64_mod, hex_digit, hex, hex_u64, key, pack, unpack}
use blaze_net.Manifest.Defs.{Hash, IsHash}
use blaze_net.Common.Words.{bit_and-mask, bit_or-join}
use Prim.Native.Nat.{bit_or}

pub hex_digit-injective : (a b : ℕ) → a < 16 → b < 16 → hex_digit a ≡ hex_digit b → a ≡ b
unfolding hex_digit
hex_digit-injective a b h k e = ground arith

pub hex-injective : (xs ys : List ℕ) → All IsByte xs → All IsByte ys → hex xs ≡ hex ys → xs ≡ ys
unfolding hex
hex-injective [] [] h k e = refl
hex-injective [] (y ∷ ys) h k e = cc
hex-injective (x ∷ xs) [] h k e = cc
hex-injective (x ∷ xs) (y ∷ ys) h k e =
    let high =
      hex_digit-injective (x / 16) (y / 16) (omega (arith, h.0)) (omega (arith, k.0)) (cc) in
    let low = hex_digit-injective (x % 16) (y % 16) (omega arith) (omega arith) (cc) in
    let same : x ≡ y = omega (arith, high, low) in cc (same, hex-injective xs ys h.1 k.1 (cc))

pub append-cancel : (xs ys zs : List ℕ) → xs ++ ys ≡ xs ++ zs → ys ≡ zs
append-cancel [] ys zs e = e
append-cancel (x ∷ xs) ys zs e = append-cancel xs ys zs (cc)

-- Two hashes of one game share a key only if they are the same.
pub key-injective :
    (game_id : ℕ) (g h : Hash) → IsHash g → IsHash h → key game_id g ≡ key game_id h → g ≡ h
unfolding key
key-injective game_id g h p q e =
    hex-injective g h p.0 q.0 (append-cancel (hex_u64 16 game_id) (hex g) (hex h) e)

-- What the index gives back for a position: the length, and the offset modulo 2 ^ 32.
pub unpack-pack :
    (offset len : ℕ) → len < 2 ^ 32 → unpack (pack offset len) ≡ (offset % 2 ^ 32, len)
unfolding unpack pack
unpack-pack offset len h =
    let high : offset * 2 ^ 32 % u64_mod ≡ offset % 2 ^ 32 * 2 ^ 32 = omega arith in
    let joined = bit_or-join 32 (offset % 2 ^ 32) len h in
    let value : bit_or (offset * 2 ^ 32 % u64_mod) len ≡ offset % 2 ^ 32 * 2 ^ 32 + len =
      ap (λ t. bit_or t len) high ∙ joined in
    rw value (rw (bit_and-mask (offset % 2 ^ 32 * 2 ^ 32 + len) 32) (ground (arith, h)))
