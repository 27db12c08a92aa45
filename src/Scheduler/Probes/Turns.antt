-- ===== src/Scheduler/Probes/Turns.antt =====
-- What the time does to the pings of scheduler/src/keepalive.rs that wait for an answer.
use blaze_net.Common.{
  leb, ltb, if◌then◌else◌, Bool-cases, Eq, nat_beq_iff, ◌==◌, bytes_eq, nat_eq, keys, Nodup, keep,
  contains, lookup, ℕ, zero, suc, ◌+◌, ◌-◌, ◌*◌, ◌^◌, ◌<◌, ◌≡◌, refl, sym, ap, ◌∙◌, inl, inr, Bool,
  true, false, ◌&&◌, ◌||◌, Option, none, some, [], ◌∷◌, arith,
}
use blaze_net.Common.Redb.{without, lookup-without}
use blaze_net.Keepalive.Defs.{AddrState, note_result, record_result}
use blaze_net.Keepalive.States.{or_fresh, lookup-modify, lookup-absent}
use blaze_net.Scheduler.Probes.Defs.{Outstanding, Prober, is_expired, expire, expire_all}

-- `n` failures in a row.
abbrev fail_n : ℕ → ℕ → AddrState → AddrState
fail_n t zero s = s
fail_n t (suc n) s = fail_n t n (note_result false t s)

-- The counter of an address after some failures, and whether it is still available.
abbrev pub Failed : ℕ → ℕ → AddrState → AddrState → Type 0
Failed t n before after =
    (after.failures ≡ before.failures + n)
    × (after.available ≡ (before.available && (n == 0 || ltb (before.failures + n) t)))

fail_n-Failed : (t n : ℕ) (s : AddrState) → s.failures + n < 2 ^ 32 → Failed t n s (fail_n t n s)
unfolding note_result
fail_n-Failed t zero s room = (omega arith, ground arith)
fail_n-Failed t (suc n) s room =
    let one = note_result false t s in
    let counted : one.failures ≡ s.failures + 1 = omega arith in
    let later = fail_n-Failed t n one (omega arith) in
    (omega (arith, later.0, counted), ground (arith, later.1, counted))

-- Sent an interval ago or earlier.
abbrev pub late : ℕ → ℕ → ℕ → Bool
late now interval_secs sent = leb (interval_secs * 1000) (now - sent)

module _ {Addr : Type 0} ⦃e : Eq Addr⦄ where
  -- The number of entries for an address.
  abbrev count_in : Addr → Outstanding Addr → ℕ
  count_in a [] = 0
  count_in a ((seq, (b, sent)) ∷ xs) = let more = count_in a xs in if b == a then suc more else more

  expire-known :
      (t : ℕ) (xs : Outstanding Addr) (p : Prober Addr) (a : Addr)
      → or_fresh (lookup a (expire t xs p).known)
        ≡ fail_n t (count_in a xs) (or_fresh (lookup a p.known))
  unfolding expire record_result
  expire-known t [] p a = refl
  expire-known t ((seq, (b, sent)) ∷ xs) p a =
      let p' : Prober Addr = record p {
        outstanding = without seq p.outstanding;
        known = record_result b false t p.known;
      } in
      elim (Bool-cases (b == a)) [
        | inl mine ↦
            expire-known t xs p' a
            ∙ rw
                (
                  mine,
                  lookup-modify b a (note_result false t) p.known,
                  mine,
                  (e.beq_iff b a).0 mine,
                )
                refl
        | inr not_mine ↦
            expire-known t xs p' a
            ∙ rw (not_mine, lookup-modify b a (note_result false t) p.known, not_mine) refl
      ]

  expire-outstanding :
      (t : ℕ) (xs : Outstanding Addr) (p : Prober Addr) (k : ℕ)
      → lookup k (expire t xs p).outstanding
        ≡ (if contains k (keys xs) then none else lookup k p.outstanding)
  unfolding expire
  expire-outstanding t [] p k = refl
  expire-outstanding t ((seq, (b, sent)) ∷ xs) p k = ground (
    arith,
    expire-outstanding t xs
        (record p {
          outstanding = without seq p.outstanding;
          known = record_result b false t p.known;
        })
        k,
    lookup-without seq k p.outstanding,
  )

  -- A test of the value under a key.
  abbrev hit : (ℕ × (Addr × ℕ) → Bool) → ℕ → Option (Addr × ℕ) → Bool
  hit q k none = false
  hit q k (some v) = q (k, v)

  contains-keep :
      (q : ℕ × (Addr × ℕ) → Bool) (k : ℕ) (m : Outstanding Addr)
      → Nodup (keys m)
      → contains k (keys (keep q m)) ≡ hit q k (lookup k m)
  unfolding keep
  contains-keep q k [] h = refl
  contains-keep q k ((j, v) ∷ m) h = elim (Bool-cases (j == k)) [
    | inl same ↦
        let k_is = (nat_beq_iff j k).0 same in
        let gone = lookup-absent k m (rw k_is at h.0) in
        elim (Bool-cases (q (j, v))) [
          | inl hits ↦
              let at_k : q (k, v) ≡ true = rw k_is at hits in rw (same, hits, same) (sym at_k)
          | inr misses ↦
              let at_k : q (k, v) ≡ false = rw k_is at misses in
              let before : contains k (keys (keep q m)) ≡ false =
                contains-keep q k m h.1 ∙ ap (hit q k) gone in
              rw (same, misses) (before ∙ sym at_k)
        ]
    | inr far ↦ elim (Bool-cases (q (j, v))) [
      | inl hits ↦ rw (far, hits, far) (contains-keep q k m h.1)
      | inr misses ↦ rw (far, misses) (contains-keep q k m h.1)
    ]
  ]

  -- The number of late pings to an address.
  abbrev pub late_pings : ℕ → ℕ → Addr → Outstanding Addr → ℕ
  late_pings now n a [] = 0
  late_pings now n a ((seq, (b, sent)) ∷ xs) =
      let more = late_pings now n a xs in if b == a && late now n sent then suc more else more

  count_in-keep :
      (now n : ℕ) (a : Addr) (m : Outstanding Addr)
      → count_in a (keep (is_expired now n) m) ≡ late_pings now n a m
  unfolding keep is_expired
  count_in-keep now n a [] = refl
  count_in-keep now n a ((seq, (b, sent)) ∷ m) = elim (Bool-cases (late now n sent)) [
    | inl old ↦ elim (Bool-cases (b == a)) [
      | inl mine ↦ rw (old, mine) (ap suc (count_in-keep now n a m))
      | inr not_mine ↦ rw (old, not_mine) (count_in-keep now n a m)
    ]
    | inr young ↦ elim (Bool-cases (b == a)) [
      | inl mine ↦ rw (young, mine) (count_in-keep now n a m)
      | inr not_mine ↦ rw (young, not_mine) (count_in-keep now n a m)
    ]
  ]

  -- The ping, unless it is late.
  abbrev pub in_time : ℕ → ℕ → Option (Addr × ℕ) → Option (Addr × ℕ)
  in_time now n none = none
  in_time now n (some (a, sent)) = if late now n sent then none else some (a, sent)

  expired_hit :
      (now n k : ℕ) (o : Option (Addr × ℕ))
      → (if hit (is_expired now n) k o then none else o) ≡ in_time now n o
  unfolding is_expired
  expired_hit now n k none = refl
  expired_hit now n k (some (a, sent)) = refl

  -- When the pings that are late are given up (no number waits twice), those sent less than an
  -- interval ago still wait and no others do; each late ping counts as a failure of its address, while
  -- the counter fits a u32, and the address is available as before if none of its pings was late, and
  -- otherwise only while its failures stay below the threshold.
  pub expire_all_exact :
      (fail_threshold now interval_secs : ℕ) (p : Prober Addr)
      → Nodup (keys p.outstanding)
      → ((k : ℕ)
          → lookup k (expire_all fail_threshold now interval_secs p).outstanding
            ≡ in_time now interval_secs (lookup k p.outstanding))
        × ((a : Addr)
            → (or_fresh (lookup a p.known)).failures + late_pings now interval_secs a p.outstanding
              < 2 ^ 32
            → Failed fail_threshold
                (late_pings now interval_secs a p.outstanding)
                (or_fresh (lookup a p.known))
                (or_fresh (lookup a (expire_all fail_threshold now interval_secs p).known)))
  unfolding expire_all
  expire_all_exact t now n p once =
      let xs = keep (is_expired now n) p.outstanding in
      (
        λ k.
            expire-outstanding t xs p k
            ∙ rw (contains-keep (is_expired now n) k p.outstanding once)
                (expired_hit now n k (lookup k p.outstanding)),
        λ a room.
            rw (expire-known t xs p a, count_in-keep now n a p.outstanding)
              (fail_n-Failed t (late_pings now n a p.outstanding) (or_fresh (lookup a p.known))
                room),
      )
