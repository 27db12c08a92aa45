-- ===== src/Keepalive/States.antt =====
-- What a history of probes does to an address in scheduler/src/keepalive.rs, and when it is probed.
use native.Mathlib.Nat.{mod-lt, add-mod-mod, mod-add-mod, add-mod_right, mod-eq_of_lt}
use blaze_net.Common.{
  leb, if◌then◌else◌, Bool-cases, nat_beq_iff, Eq, ◌==◌, nat_eq, bytes_eq, keys, Nodup, contains,
  lookup, ℕ, suc, ◌+◌, ◌-◌, ◌%◌, ◌<◌, ◌≡◌, refl, sym, ap, ◌∙◌, inl, inr, Bool, true, false, not,
  ◌&&◌, ◌||◌, Option, none, some, List, [], ◌∷◌, arith,
}
use blaze_net.Keepalive.Defs.{
  u32_mod, AddrState, fresh, note_result, Keepalive, modify, record_result, unavailable, addr_slot,
  probe_due,
}

-- The state after some results, the last one first.
unfoldable pub after : ℕ → List Bool → AddrState
after fail_threshold [] = fresh
after fail_threshold (r ∷ rs) = note_result r fail_threshold (after fail_threshold rs)

-- How many of the last results in a row are failures.
unfoldable pub trailing : List Bool → ℕ
trailing [] = 0
trailing (true ∷ rs) = 0
trailing (false ∷ rs) = suc (trailing rs)

-- While the failures in a row fit a u32, the counter holds their number, and with a threshold above
-- 0 the address is unavailable exactly when they have reached it.
pub after_exact :
    (fail_threshold : ℕ) (results : List Bool)
    → 0 < fail_threshold
    → trailing results < u32_mod
    → ((after fail_threshold results).failures ≡ trailing results)
      × ((after fail_threshold results).available ≡ not (leb fail_threshold (trailing results)))
unfolding after trailing note_result
after_exact t [] h k = (refl, ground arith)
after_exact t (true ∷ rs) h k = (refl, ground arith)
after_exact t (false ∷ rs) h k =
    let before = after_exact t rs h (omega arith) in
    (omega (arith, before.0), ground (arith, before.0, before.1))

abbrev pub or_fresh : Option AddrState → AddrState
or_fresh none = fresh
or_fresh (some s) = s

module _ {Addr : Type 0} ⦃e : Eq Addr⦄ where
  pub lookup-modify :
      (a b : Addr) (f : AddrState → AddrState) (m : Keepalive Addr)
      → lookup b (modify a f m) ≡ (if a == b then some (f (or_fresh (lookup a m))) else lookup b m)
  unfolding modify
  lookup-modify a b f [] = refl
  lookup-modify a b f ((c, s) ∷ m) = elim (Bool-cases (c == a)) [
    | inl same ↦ rw (same, (e.beq_iff c a).0 same) (ground arith)
    | inr other ↦ ground (arith, lookup-modify a b f m, e.beq_iff c b, e.beq_iff a b, e.beq_iff c a)
  ]

  -- The results that some probes had for an address, the last one first.
  unfoldable pub results_of : Addr → List (Addr × Bool) → List Bool
  results_of a [] = []
  results_of a ((b, reached) ∷ rest) =
      let more = results_of a rest in if b == a then reached ∷ more else more

  -- The map after some probes, the last one first.
  unfoldable pub run : ℕ → List (Addr × Bool) → Keepalive Addr
  run fail_threshold [] = []
  run fail_threshold ((a, reached) ∷ rest) =
      record_result a reached fail_threshold (run fail_threshold rest)

  run-after :
      (fail_threshold : ℕ) (probes : List (Addr × Bool)) (a : Addr)
      → or_fresh (lookup a (run fail_threshold probes)) ≡ after fail_threshold (results_of a probes)
  unfolding run results_of after record_result
  run-after t [] a = refl
  run-after t ((b, reached) ∷ rest) a = ground (
    arith,
    lookup-modify b a (note_result reached t) (run t rest),
    run-after t rest a,
    e.beq_iff b a,
  )

  contains-keys-modify :
      (a b : Addr) (f : AddrState → AddrState) (m : Keepalive Addr)
      → contains b (keys (modify a f m)) ≡ (a == b || contains b (keys m))
  unfolding modify
  contains-keys-modify a b f [] = refl
  contains-keys-modify a b f ((c, s) ∷ m) =
      ground (arith, contains-keys-modify a b f m, e.beq_iff c a)

  modify-Nodup :
      (a : Addr) (f : AddrState → AddrState) (m : Keepalive Addr)
      → Nodup (keys m)
      → Nodup (keys (modify a f m))
  unfolding modify
  modify-Nodup a f [] h = (refl, tt)
  modify-Nodup a f ((c, s) ∷ m) h = elim (Bool-cases (c == a)) [
    | inl same ↦ rw same h
    | inr other ↦ rw other (
      ground (arith, contains-keys-modify a c f m, e.beq_iff a c, e.beq_iff c a, h.0),
      modify-Nodup a f m h.1,
    )
  ]

  run-Nodup : (t : ℕ) (probes : List (Addr × Bool)) → Nodup (keys (run t probes))
  unfolding run record_result
  run-Nodup t [] = tt
  run-Nodup t ((a, reached) ∷ rest) =
      modify-Nodup a (note_result reached t) (run t rest) (run-Nodup t rest)

  pub lookup-absent :
      {V : Type 0} (a : Addr) (m : List (Addr × V))
      → contains a (keys m) ≡ false
      → lookup a m ≡ none
  lookup-absent a [] h = refl
  lookup-absent a ((b, v) ∷ m) h = ground (arith, lookup-absent a m)

  contains-unavailable :
      (a : Addr) (m : Keepalive Addr)
      → Nodup (keys m)
      → contains a (unavailable m) ≡ not (or_fresh (lookup a m)).available
  unfolding unavailable
  contains-unavailable a [] h = refl
  contains-unavailable a ((b, s) ∷ m) h = elim (Bool-cases (b == a)) [
    | inl same ↦
        let gone = lookup-absent a m (rw ((e.beq_iff b a).0 same) at h.0) in
        ground (arith, contains-unavailable a m h.1, gone)
    | inr other ↦ ground (arith, contains-unavailable a m h.1)
  ]

  -- After any probes of any addresses, an address is reported as unavailable exactly when its last
  -- results in a row are failures, as many as the threshold (above 0; the row fits a u32).
  pub unavailable_exact :
      (fail_threshold : ℕ) (probes : List (Addr × Bool)) (a : Addr)
      → 0 < fail_threshold
      → trailing (results_of a probes) < u32_mod
      → contains a (unavailable (run fail_threshold probes))
        ≡ leb fail_threshold (trailing (results_of a probes))
  unavailable_exact t probes a h k =
      let state = after_exact t (results_of a probes) h k in
      contains-unavailable a (run t probes) (run-Nodup t probes)
      ∙ ground (arith, run-after t probes a, state.1)

  contains-probe_due :
      (hash : Addr → ℕ) (m : Keepalive Addr) (now interval : ℕ) (a : Addr)
      → contains a (probe_due hash m now interval)
        ≡ (contains a (keys m) && (hash a % interval) == (now % interval))
  unfolding probe_due addr_slot
  contains-probe_due hash [] now interval a = refl
  contains-probe_due hash ((b, s) ∷ m) now interval a = elim (Bool-cases (b == a)) [
    | inl same ↦
        rw ((e.beq_iff b a).0 same)
          (ground (arith, contains-probe_due hash m now interval a, e.beq_iff a a))
    | inr other ↦ ground (arith, contains-probe_due hash m now interval a)
  ]

pub slot_reached : (t n s : ℕ) → s < n → (t + (s + n - t % n) % n) % n ≡ s
slot_reached t n s h =
    let k = s + n - t % n in
    let turn : t % n + k ≡ s + n = omega (arith, mod-lt t {m = n} (omega arith)) in
    add-mod-mod t k n
    ∙ sym (mod-add-mod t n k)
    ∙ ap (λ x. x % n) turn
    ∙ add-mod_right s n
    ∙ mod-eq_of_lt h

pub slot_once : (t n j k : ℕ) → j < n → k < n → (t + j) % n ≡ (t + k) % n → j ≡ k
slot_once t n j k hj hk e = grind arith

-- In any window of one interval (above 0) a registered address is due at exactly one second.
pub probed_once :
    {Addr : Type 0} ⦃e : Eq Addr⦄ (hash : Addr → ℕ) (m : Keepalive Addr) (start interval : ℕ)
    (a : Addr)
    → 0 < interval
    → contains a (keys m) ≡ true
    → (k : ℕ) × (k < interval)
      × (contains a (probe_due hash m (start + k) interval) ≡ true)
      × ((j : ℕ) → j < interval → contains a (probe_due hash m (start + j) interval) ≡ true → j ≡ k)
probed_once hash m start n a h known =
    let slot = hash a % n in
    let k = (slot + n - start % n) % n in
    let inside : k < n = mod-lt _ {m = n} h in
    let hit = slot_reached start n slot (mod-lt (hash a) {m = n} h) in
    (
      k,
      inside,
      rw (contains-probe_due hash m (start + k) n a, known) ((nat_beq_iff _ _).1 (sym hit)),
      λ j hj probed.
          let due = rw (contains-probe_due hash m (start + j) n a, known) at probed in
          slot_once start n j k hj inside (sym ((nat_beq_iff _ _).0 due) ∙ sym hit),
    )
