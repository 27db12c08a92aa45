-- ===== src/Keepalive/Runs.antt =====
-- Runs of the probe states of scheduler/src/keepalive.rs.
use blaze_net.Common.{
  leb, nat_eq, bytes_eq, contains, ℕ, ◌≡◌, Bool, true, false, List, [], ◌∷◌, arith,
}
use blaze_net.Keepalive.Defs.{fresh, Keepalive, unavailable}
use blaze_net.Keepalive.States.{trailing, results_of, run, unavailable_exact}

abbrev probes : List (ℕ × Bool)
probes = (1, false) ∷ (2, false) ∷ (1, false) ∷ (2, true) ∷ (1, false) ∷ []

unavailable_exact_example :
    contains 1 (unavailable (run 3 probes)) ≡ leb 3 (trailing (results_of 1 probes))
unfolding trailing results_of
unavailable_exact_example = unavailable_exact 3 probes 1 (omega arith) (omega arith)

abbrev two_addrs : Keepalive ℕ
two_addrs = (5, fresh) ∷ (8, fresh) ∷ []
