-- ===== src/Scheduler/Probes/Runs.antt =====
-- Runs of the probes of scheduler/src/keepalive.rs; an address is a number.
use blaze_net.Common.{
  if◌then◌else◌, ◌==◌, bytes_eq, nat_eq, lookup, ℕ, ◌+◌, ◌<◌, ◌^◌, ◌≡◌, refl, true, none, some, [],
  ◌∷◌, arith,
}
use blaze_net.Ping.Defs.{build_pong}
use blaze_net.Keepalive.Defs.{fresh}
use blaze_net.Keepalive.States.{or_fresh}
use blaze_net.Scheduler.Probes.Defs.{Meta, Prober, take_pong, expire_all}
use blaze_net.Scheduler.Probes.Pongs.{went_to, take_pong-build_pong}
use blaze_net.Scheduler.Probes.Turns.{Failed, in_time, late_pings, expire_all_exact}
use blaze_net.Scheduler.Probes.Pings.{pinged, send_pings-once}

-- Two pings wait for an answer, the second for longer than a minute.
abbrev prober : Prober ℕ
prober = record {
  known = (10, fresh) ∷ (20, fresh) ∷ [];
  seq = 8;
  outstanding = (8, (20, 90000)) ∷ (7, (10, 30000)) ∷ [];
}

take_pong-build_pong_example :
    ((k : ℕ)
      → lookup k (take_pong 3 (build_pong 7) prober).outstanding
        ≡ (if 7 == k then none else lookup k prober.outstanding))
    × ((a : ℕ)
        → lookup a (take_pong 3 (build_pong 7) prober).known
          ≡ (if went_to a (lookup 7 prober.outstanding) then some fresh else lookup a prober.known))
    × (take_pong 3 (build_pong 7) (take_pong 3 (build_pong 7) prober)
        ≡ take_pong 3 (build_pong 7) prober)
take_pong-build_pong_example = take_pong-build_pong 3 7 prober (omega arith)

expire_all_exact_example :
    ((k : ℕ)
      → lookup k (expire_all 1 100000 60 prober).outstanding
        ≡ in_time 100000 60 (lookup k prober.outstanding))
    × ((a : ℕ)
        → (or_fresh (lookup a prober.known)).failures + late_pings 100000 60 a prober.outstanding
          < 2 ^ 32
        → Failed 1
            (late_pings 100000 60 a prober.outstanding)
            (or_fresh (lookup a prober.known))
            (or_fresh (lookup a (expire_all 1 100000 60 prober).known)))
expire_all_exact_example = expire_all_exact 1 100000 60 prober (refl, (refl, tt))

abbrev two_addrs : Meta ℕ
two_addrs = (8, (1, 0)) ∷ (9, (1, 1)) ∷ []

send_pings-once_example :
    (k : ℕ) × (k < 5)
    × ((sent_ms : ℕ) (p : Prober ℕ) → pinged (λ a. a) sent_ms (101 + k) 5 two_addrs p 8 ≡ true)
    × ((j sent_ms : ℕ) (p : Prober ℕ)
        → j < 5
        → pinged (λ a. a) sent_ms (101 + j) 5 two_addrs p 8 ≡ true
        → j ≡ k)
send_pings-once_example = send_pings-once (λ a. a) two_addrs 101 5 8 (omega arith) refl
