-- ===== src/Scheduler/Probes/Pongs.antt =====
-- What the pongs do to the pings of scheduler/src/keepalive.rs that wait for an answer.
use blaze_net.Common.{
  if◌then◌else◌, Bool-cases, Eq, beq_refl, nat_beq_iff, ◌==◌, bytes_eq, nat_eq, take, lookup,
  le_bytes, ℕ, ◌^◌, ◌<◌, ◌≡◌, refl, ◌∙◌, inl, inr, Bool, true, false, Option, none, some,
}
use blaze_net.Common.Redb.{without, lookup-without}
use blaze_net.Ping.Defs.{build_pong, pong_len}
use blaze_net.Ping.Packets.{parse_pong-build_pong}
use blaze_net.Keepalive.Defs.{fresh, note_result, record_result}
use blaze_net.Keepalive.States.{lookup-modify}
use blaze_net.Scheduler.Probes.Defs.{Outstanding, Prober, take_pong}

take-build_pong : (seq : ℕ) → take pong_len (build_pong seq) ≡ build_pong seq
unfolding build_pong le_bytes
take-build_pong seq = refl

module _ {Addr : Type 0} ⦃e : Eq Addr⦄ where
  -- The answer is to a ping of this address.
  abbrev pub went_to : Addr → Option (Addr × ℕ) → Bool
  went_to a none = false
  went_to a (some entry) = entry.0 == a

  -- What a pong does, given the ping of its number.
  abbrev PongExact : ℕ → ℕ → Prober Addr → Option (Addr × ℕ) → Prober Addr → Type 0
  PongExact t seq p o p' =
      ((k : ℕ) → lookup k p'.outstanding ≡ (if seq == k then none else lookup k p.outstanding))
      × ((a : Addr) → lookup a p'.known ≡ (if went_to a o then some fresh else lookup a p.known))
      × (take_pong t (build_pong seq) p' ≡ p')

  idle :
      (t seq : ℕ) (p : Prober Addr)
      → seq < 2 ^ 32
      → lookup seq p.outstanding ≡ none
      → take_pong t (build_pong seq) p ≡ p
  unfolding take_pong
  idle t seq p h gone = rw (take_pong, take-build_pong seq, parse_pong-build_pong seq h, gone) refl

  taken :
      (t seq sent : ℕ) (addr : Addr) (p : Prober Addr)
      → seq < 2 ^ 32
      → lookup seq p.outstanding ≡ some (addr, sent)
      → take_pong t (build_pong seq) p ≡ record p {
        outstanding = without seq p.outstanding;
        known = record_result addr true t p.known;
      }
  unfolding take_pong
  taken t seq sent addr p h waits =
      rw (take_pong, take-build_pong seq, parse_pong-build_pong seq h, waits) refl

  none_at :
      (seq k : ℕ) (m : Outstanding Addr)
      → lookup seq m ≡ none
      → lookup k m ≡ (if seq == k then none else lookup k m)
  none_at seq k m gone = elim (Bool-cases (seq == k)) [
    | inl same ↦ rw same (rw ((nat_beq_iff seq k).0 same) at gone)
    | inr far ↦ rw far refl
  ]

  pong-PongExact :
      (t seq : ℕ) (p : Prober Addr) (o : Option (Addr × ℕ))
      → seq < 2 ^ 32
      → lookup seq p.outstanding ≡ o
      → PongExact t seq p o (take_pong t (build_pong seq) p)
  unfolding record_result note_result
  pong-PongExact t seq p none h waits =
      let still = idle t seq p h waits in
      rw still ((λ k. none_at seq k p.outstanding waits), (λ a. refl), still)
  pong-PongExact t seq p (some (addr, sent)) h waits =
      let p' : Prober Addr = record p {
        outstanding = without seq p.outstanding;
        known = record_result addr true t p.known;
      } in
      let gone : lookup seq p'.outstanding ≡ none =
        lookup-without seq seq p.outstanding ∙ rw (beq_refl seq) refl in
      let got : PongExact t seq p (some (addr, sent)) p' = (
        (λ k. lookup-without seq k p.outstanding),
        (λ a. lookup-modify addr a (note_result true t) p.known),
        idle t seq p' h gone,
      ) in
      rw (taken t seq sent addr p h waits) got

  -- A pong with this number (a u32), whether or not a ping of the number waits for it: no ping of
  -- the number waits afterwards, all others still do; the address that the ping went to is available,
  -- without failures, and each other address is as it was; a second pong with the number changes
  -- nothing.
  pub take_pong-build_pong :
      (t seq : ℕ) (p : Prober Addr)
      → seq < 2 ^ 32
      → ((k : ℕ)
          → lookup k (take_pong t (build_pong seq) p).outstanding
            ≡ (if seq == k then none else lookup k p.outstanding))
        × ((a : Addr)
            → lookup a (take_pong t (build_pong seq) p).known
              ≡ (if went_to a (lookup seq p.outstanding) then some fresh else lookup a p.known))
        × (take_pong t (build_pong seq) (take_pong t (build_pong seq) p)
            ≡ take_pong t (build_pong seq) p)
  take_pong-build_pong t seq p h = pong-PongExact t seq p (lookup seq p.outstanding) h refl
