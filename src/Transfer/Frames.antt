-- ===== src/Transfer/Frames.antt =====
-- The integers and buffers of a stream, as `read_u32`, `write_u64` and `read_exact` of the crate tokio
-- treat them: the highest byte first.
use blaze_net.Common.{
  ltb, if◌then◌else◌, bytes_eq, nat_eq, Result, ok, err, ◌>>=◌, length, length-append, take, drop,
  take-append, drop-append, le_bytes, from_le, length-le_bytes, from_le-le_bytes, ℕ, ◌+◌, ◌^◌, ◌<◌,
  ◌≡◌, refl, ap, ◌∙◌, List, [], ◌∷◌, ◌++◌, append-nil, arith,
}

pub data NetError : Type 0 where
  closed no_address bad_relay_url no_connection : NetError

unfoldable pub be_rev : List ℕ → List ℕ → List ℕ
be_rev [] acc = acc
be_rev (b ∷ bs) acc = be_rev bs (b ∷ acc)

-- `to_be_bytes`
unfoldable pub be_bytes : ℕ → ℕ → List ℕ
unfolding be_rev
be_bytes w n = be_rev (le_bytes w n) []

unfoldable pub from_be : List ℕ → ℕ
unfolding be_rev
from_be bytes = from_le (be_rev bytes [])

-- `read_exact` into a buffer of n bytes, given the bytes that are still to come.
unfoldable pub recv_exact : ℕ → List ℕ → Result NetError (List ℕ × List ℕ)
recv_exact n rest = if ltb (length rest) n then err closed else ok (take n rest, drop n rest)

unfoldable pub recv_int : ℕ → List ℕ → Result NetError (ℕ × List ℕ)
unfolding recv_exact from_be
recv_int w rest = do (buf, rest') ← recv_exact w rest; ok (from_be buf, rest')

be_rev-rev : (xs acc acc' : List ℕ) → be_rev (be_rev xs acc) acc' ≡ be_rev acc (xs ++ acc')
unfolding be_rev
be_rev-rev [] acc acc' = refl
be_rev-rev (x ∷ xs) acc acc' = be_rev-rev xs (x ∷ acc) acc'

length-be_rev : (xs acc : List ℕ) → length (be_rev xs acc) ≡ length xs + length acc
unfolding be_rev
length-be_rev [] acc = omega arith
length-be_rev (x ∷ xs) acc = omega (arith, length-be_rev xs (x ∷ acc))

pub length-be_bytes : (w n : ℕ) → length (be_bytes w n) ≡ w
unfolding be_bytes
length-be_bytes w n = omega (arith, length-be_rev (le_bytes w n) [], length-le_bytes w n)

pub from_be-be_bytes : (w n : ℕ) → n < 256 ^ w → from_be (be_bytes w n) ≡ n
unfolding from_be be_bytes be_rev
from_be-be_bytes w n h =
    ap from_le (be_rev-rev (le_bytes w n) [] [] ∙ append-nil (le_bytes w n))
    ∙ from_le-le_bytes w n h

-- What was written is read back, and the rest is left.
pub recv_exact-append :
    (n : ℕ) (buf rest : List ℕ) → length buf ≡ n → recv_exact n (buf ++ rest) ≡ ok (buf, rest)
unfolding recv_exact
recv_exact-append n buf rest h =
    ground (arith, length-append buf rest, take-append buf rest n h, drop-append buf rest n h)

pub recv_int-be_bytes :
    (w n : ℕ) (rest : List ℕ) → n < 256 ^ w → recv_int w (be_bytes w n ++ rest) ≡ ok (n, rest)
unfolding recv_int
recv_int-be_bytes w n rest h =
    rw (recv_exact-append w _ rest (length-be_bytes w n), from_be-be_bytes w n h) refl
