-- ===== src/Scheduler/Probes/Pings.antt =====
-- When the loop of scheduler/src/keepalive.rs sends a ping to an address.
use native.Mathlib.Nat.{mod-lt}
use blaze_net.Common.{
  Bool-cases, nat_beq_iff, Eq, ◌==◌, nat_eq, bytes_eq, keys, contains, ℕ, ◌+◌, ◌-◌, ◌%◌, ◌<◌, ◌≡◌,
  refl, sym, ◌∙◌, inl, inr, Bool, true, false, ◌&&◌, [], ◌∷◌,
}
use blaze_net.Keepalive.Defs.{u32_mod, addr_slot}
use blaze_net.Keepalive.States.{slot_reached, slot_once}
use blaze_net.Scheduler.Probes.Defs.{map_insert, Meta, Prober, send_pings}

and_false : (b : Bool) → b && false ≡ false
and_false true = refl
and_false false = refl

module _ {Addr : Type 0} ⦃e : Eq Addr⦄ where
  -- The pings of a turn go to the address.
  abbrev pub pinged : (Addr → ℕ) → ℕ → ℕ → ℕ → Meta Addr → Prober Addr → Addr → Bool
  pinged hash sent_ms now_secs interval_secs meta p a =
      contains a (keys (send_pings hash sent_ms now_secs interval_secs meta p).0)

  send_pings-addrs :
      (hash : Addr → ℕ) (sent now n : ℕ) (meta : Meta Addr) (p : Prober Addr) (a : Addr)
      → pinged hash sent now n meta p a ≡ (contains a (keys meta) && (hash a % n) == (now % n))
  unfolding send_pings addr_slot
  send_pings-addrs hash sent now n [] p a = refl
  send_pings-addrs hash sent now n ((b, (node, index)) ∷ meta) p a =
      let seq = (p.seq + 1) % u32_mod in
      let after : Prober Addr = record p {
        seq = seq;
        outstanding = map_insert seq (b, sent) p.outstanding;
      } in
      let skip = send_pings-addrs hash sent now n meta p a in
      let later = send_pings-addrs hash sent now n meta after a in
      elim (Bool-cases ((hash b % n) == (now % n))) [
        | inl due ↦ elim (Bool-cases (b == a)) [
          | inl same ↦
              let mine : ((hash a % n) == (now % n)) ≡ true = rw ((e.beq_iff b a).0 same) at due in
              rw (send_pings, due, same, mine) refl
          | inr other ↦ rw (send_pings, due, other) later
        ]
        | inr early ↦ elim (Bool-cases (b == a)) [
          | inl same ↦
              let mine : ((hash a % n) == (now % n)) ≡ false =
                rw ((e.beq_iff b a).0 same) at early in
              rw (send_pings, early, same, mine)
                (skip ∙ rw mine (and_false (contains a (keys meta))))
          | inr other ↦ rw (send_pings, early, other) skip
        ]
      ]

  -- Among the seconds of one interval (above 0) there is exactly one such that a turn of the loop at
  -- this second, in any state and with the same addresses to probe, sends a ping to a given one of them.
  pub send_pings-once :
      (hash : Addr → ℕ) (meta : Meta Addr) (start interval : ℕ) (a : Addr)
      → 0 < interval
      → contains a (keys meta) ≡ true
      → (k : ℕ) × (k < interval)
        × ((sent_ms : ℕ) (p : Prober Addr)
            → pinged hash sent_ms (start + k) interval meta p a ≡ true)
        × ((j sent_ms : ℕ) (p : Prober Addr)
            → j < interval
            → pinged hash sent_ms (start + j) interval meta p a ≡ true
            → j ≡ k)
  send_pings-once hash meta start n a h known =
      let slot = hash a % n in
      let k = (slot + n - start % n) % n in
      let inside : k < n = mod-lt _ {m = n} h in
      let hit = slot_reached start n slot (mod-lt (hash a) {m = n} h) in
      (
        k,
        inside,
        λ sent p.
            rw (send_pings-addrs hash sent (start + k) n meta p a, known)
              ((nat_beq_iff _ _).1 (sym hit)),
        λ j sent p hj probed.
            let due = rw (send_pings-addrs hash sent (start + j) n meta p a, known) at probed in
            slot_once start n j k hj inside (sym ((nat_beq_iff _ _).0 due) ∙ sym hit),
      )
