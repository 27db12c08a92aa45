-- ===== src/Ping/Defs.antt =====
-- The keepalive datagrams of blaze-common/src/keepalive.rs, and the answer of agent/src/keepalive.rs.
use blaze_net.Common.{
  if◌then◌else◌, ◌==◌, nat_eq, bytes_eq, length, take, drop, replicate, le_bytes, from_le, ℕ, ◌+◌,
  not, ◌||◌, Option, none, some, List, [], ◌∷◌, ◌++◌,
}

-- b"BLZPNG" and b"BLZPONG"
abbrev pub ping_magic : List ℕ
ping_magic = 0x42 ∷ 0x4c ∷ 0x5a ∷ 0x50 ∷ 0x4e ∷ 0x47 ∷ []

abbrev pub pong_magic : List ℕ
pong_magic = 0x42 ∷ 0x4c ∷ 0x5a ∷ 0x50 ∷ 0x4f ∷ 0x4e ∷ 0x47 ∷ []

abbrev pub ping_len : ℕ
ping_len = 22

abbrev pub pong_len : ℕ
pong_len = 11

-- `packet[at..at + len].copy_from_slice(src)`
abbrev pub copy_from_slice : List ℕ → ℕ → List ℕ → List ℕ
copy_from_slice packet at src = take at packet ++ (src ++ drop (at + length src) packet)

-- `&packet[at..at + n]`
abbrev pub slice : List ℕ → ℕ → ℕ → List ℕ
slice packet at n = take n (drop at packet)

unfoldable pub build_ping : ℕ → ℕ → ℕ → List ℕ
build_ping seq node_id addr_index =
    let packet = replicate ping_len 0 in
    let packet = copy_from_slice packet 0 ping_magic in
    let packet = copy_from_slice packet 6 (le_bytes 4 seq) in
    let packet = copy_from_slice packet 10 (le_bytes 8 node_id) in
    copy_from_slice packet 18 (le_bytes 4 addr_index)

unfoldable pub build_pong : ℕ → List ℕ
build_pong seq =
    let packet = copy_from_slice (replicate pong_len 0) 0 pong_magic in
    copy_from_slice packet 7 (le_bytes 4 seq)

unfoldable pub parse_ping : List ℕ → Option (ℕ × ℕ × ℕ)
parse_ping packet =
    if not (length packet == ping_len) || not (slice packet 0 6 == ping_magic)
    then none
    else some (from_le (slice packet 6 4), from_le (slice packet 10 8), from_le (slice packet 18 4))

unfoldable pub parse_pong : List ℕ → Option ℕ
parse_pong packet =
    if not (length packet == pong_len) || not (slice packet 0 7 == pong_magic)
    then none
    else some (from_le (slice packet 7 4))

-- One datagram at the agent: the buffer holds `ping_len` bytes, what is longer is cut off by the
-- socket; the answer, if there is one.
unfoldable pub answer_ping : List ℕ → Option (List ℕ)
answer_ping datagram = elim (parse_ping (take ping_len datagram)) [
  | none ↦ none
  | some (seq, node_id, addr_index) ↦ some (build_pong seq)
]
