-- ===== src/Ping/Packets.antt =====
-- Building and parsing of the keepalive datagrams of blaze-common/src/keepalive.rs.
use blaze_net.Common.{
  nat_beq_iff, nat_eq, bytes_beq_iff, bytes_eq, length, take, drop, take-append-drop, length-take,
  length-drop, All, All-take, All-drop, drop-drop, drop-all, le_bytes, from_le, IsByte,
  from_le-le_bytes, from_le-lt, le_bytes-from_le, ℕ, ◌+◌, ◌^◌, ◌≤◌, ◌<◌, ◌≡◌, refl, sym, ap, ◌∙◌,
  none, some, List, ◌++◌, append-nil, arith,
}
use blaze_net.Ping.Defs.{
  ping_magic, pong_magic, slice, build_ping, build_pong, parse_ping, parse_pong, answer_ping,
}

build_ping-eq :
    (seq node_id addr_index : ℕ)
    → build_ping seq node_id addr_index
      ≡ ping_magic ++ (le_bytes 4 seq ++ (le_bytes 8 node_id ++ le_bytes 4 addr_index))
unfolding build_ping le_bytes
build_ping-eq seq node_id addr_index = refl

build_pong-eq : (seq : ℕ) → build_pong seq ≡ pong_magic ++ le_bytes 4 seq
unfolding build_pong le_bytes
build_pong-eq seq = refl

-- A ping that was built is parsed to the sequence number, node and address index it was built of.
pub parse_ping-build_ping :
    (seq node_id addr_index : ℕ)
    → seq < 2 ^ 32
    → node_id < 2 ^ 64
    → addr_index < 2 ^ 32
    → parse_ping (build_ping seq node_id addr_index) ≡ some (seq, node_id, addr_index)
unfolding parse_ping build_ping le_bytes
parse_ping-build_ping seq node_id addr_index h k l =
    ground (
      arith,
      from_le-le_bytes 4 seq h,
      from_le-le_bytes 8 node_id k,
      from_le-le_bytes 4 addr_index l,
    )

-- A pong that was built is parsed to its sequence number.
pub parse_pong-build_pong : (seq : ℕ) → seq < 2 ^ 32 → parse_pong (build_pong seq) ≡ some seq
unfolding parse_pong build_pong le_bytes
parse_pong-build_pong seq h = ground (arith, from_le-le_bytes 4 seq h)

-- A field of n bytes at a position is the little-endian form of its value.
field_at :
    (p : List ℕ) (at n m : ℕ)
    → All IsByte p
    → at + n ≡ m
    → m ≤ length p
    → drop at p ≡ le_bytes n (from_le (slice p at n)) ++ drop m p
field_at p at n m bytes e h =
    let room : n ≤ length (drop at p) = omega (arith, length-drop at p) in
    let size = length-take n (drop at p) room in
    let value =
      le_bytes-from_le (slice p at n)
        (All-take IsByte n (drop at p) (All-drop IsByte at p bytes)) in
    sym (take-append-drop n (drop at p))
    ∙ ap (λ t. slice p at n ++ t) (drop-drop at n p ∙ ap (λ t. drop t p) e)
    ∙ ap (λ t. t ++ drop m p) (sym value ∙ ap (λ t. le_bytes t (from_le (slice p at n))) size)

field_fits :
    (p : List ℕ) (at n : ℕ) → All IsByte p → at + n ≤ length p → from_le (slice p at n) < 256 ^ n
field_fits p at n bytes h =
    let room : n ≤ length (drop at p) = omega (arith, length-drop at p) in
    rw (length-take n (drop at p) room) at
      (from_le-lt (slice p at n) (All-take IsByte n (drop at p) (All-drop IsByte at p bytes)))

-- A datagram that is parsed as a ping is the one that `build_ping` makes of the values returned,
-- and these fit their types.
pub parse_ping_sound :
    (packet : List ℕ) (seq node_id addr_index : ℕ)
    → All IsByte packet
    → parse_ping packet ≡ some (seq, node_id, addr_index)
    → (build_ping seq node_id addr_index ≡ packet)
      × (seq < 2 ^ 32)
      × (node_id < 2 ^ 64)
      × (addr_index < 2 ^ 32)
unfolding parse_ping
parse_ping_sound packet seq node_id addr_index bytes e =
    let size : length packet ≡ 22 = ground (arith, nat_beq_iff (length packet) 22) in
    let magic_ok : slice packet 0 6 ≡ ping_magic =
      ground (arith, bytes_beq_iff (slice packet 0 6) ping_magic) in
    let at_seq : seq ≡ from_le (slice packet 6 4) = ground arith in
    let at_node : node_id ≡ from_le (slice packet 10 8) = ground arith in
    let at_index : addr_index ≡ from_le (slice packet 18 4) = ground arith in
    (
      build_ping-eq seq node_id addr_index
          ∙ rw (at_seq, at_node, at_index)
              (ap
                  (λ (t : List ℕ).
                    t
                    ++ (le_bytes 4 (from_le (slice packet 6 4))
                        ++ (le_bytes 8 (from_le (slice packet 10 8))
                            ++ le_bytes 4 (from_le (slice packet 18 4)))))
                  (sym magic_ok)
                ∙ sym (
                    sym (take-append-drop 6 packet)
                    ∙ ap (λ t. take 6 packet ++ t)
                        (field_at packet 6 4 10 bytes (omega arith) (omega arith)
                          ∙ ap (λ t. le_bytes 4 (from_le (slice packet 6 4)) ++ t)
                              (field_at packet 10 8 18 bytes (omega arith) (omega arith)
                                ∙ ap (λ t. le_bytes 8 (from_le (slice packet 10 8)) ++ t)
                                    (field_at packet 18 4 22 bytes (omega arith) (omega arith)
                                      ∙ ap (λ t. le_bytes 4 (from_le (slice packet 18 4)) ++ t)
                                          (drop-all 22 packet (omega arith))
                                      ∙ append-nil _))))),
      rw at_seq (field_fits packet 6 4 bytes (omega arith)),
      rw at_node (field_fits packet 10 8 bytes (omega arith)),
      rw at_index (field_fits packet 18 4 bytes (omega arith)),
    )

-- The agent answers a ping of the scheduler with a pong of the same sequence number; the pong is
-- no ping, and the ping is no pong.
pub answer_ping-build_ping :
    (seq node_id addr_index : ℕ)
    → seq < 2 ^ 32
    → node_id < 2 ^ 64
    → addr_index < 2 ^ 32
    → (answer_ping (build_ping seq node_id addr_index) ≡ some (build_pong seq))
      × (answer_ping (build_pong seq) ≡ none)
      × (parse_pong (build_ping seq node_id addr_index) ≡ none)
unfolding answer_ping
answer_ping-build_ping seq node_id addr_index h k l = (
  rw (whole, answer_ping, parse_ping-build_ping seq node_id addr_index h k l),
  (unfold parse_ping build_pong le_bytes in refl),
  (unfold parse_pong build_ping le_bytes in refl),
)
  where
    whole : take 22 (build_ping seq node_id addr_index) ≡ build_ping seq node_id addr_index
    whole = unfold build_ping le_bytes in refl
