-- ===== src/Ping/Runs.antt =====
-- Runs of the keepalive datagrams of blaze-common/src/keepalive.rs.
use blaze_net.Common.{
  nat_eq, bytes_eq, All, from_le, IsByte, ℕ, ◌^◌, ◌<◌, ◌≡◌, refl, some, List, [], ◌∷◌, ◌++◌, arith,
}
use blaze_net.Ping.Defs.{ping_magic, build_ping, parse_ping}
use blaze_net.Ping.Packets.{parse_ping_sound}

abbrev packet : List ℕ
packet =
    ping_magic
    ++ (7 ∷ 0 ∷ 0 ∷ 0 ∷ [])
    ++ (42 ∷ 0 ∷ 0 ∷ 0 ∷ 0 ∷ 0 ∷ 0 ∷ 0 ∷ [])
    ++ (1 ∷ 0 ∷ 0 ∷ 0 ∷ [])

packet-IsByte : All IsByte packet
packet-IsByte = ground arith

packet-parsed : parse_ping packet ≡ some (7, 42, 1)
unfolding parse_ping from_le
packet-parsed = refl

parse_ping_sound_example :
    (build_ping 7 42 1 ≡ packet) × (7 < 2 ^ 32) × (42 < 2 ^ 64) × (1 < 2 ^ 32)
parse_ping_sound_example = parse_ping_sound packet 7 42 1 packet-IsByte packet-parsed
