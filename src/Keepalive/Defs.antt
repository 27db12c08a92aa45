-- ===== src/Keepalive/Defs.antt =====
-- The probe states of scheduler/src/keepalive.rs. An address is a value with an equality test, and
-- the standard hasher is a parameter.
use blaze_net.Common.{
  leb, if◌then◌else◌, Eq, ◌==◌, nat_eq, bytes_eq, ℕ, ◌+◌, ◌%◌, ◌^◌, Bool, true, false, not, List,
  [], ◌∷◌,
}

abbrev pub u32_mod : ℕ
u32_mod = 2 ^ 32

pub record AddrState : Type 0 where
  pub failures : ℕ
  pub available : Bool

-- `AddrState::default()`
abbrev pub fresh : AddrState
fresh = record { failures = 0; available = true }

-- One result for one address: `failures` is a u32.
unfoldable pub note_result : Bool → ℕ → AddrState → AddrState
note_result true fail_threshold s = record { failures = 0; available = true }
note_result false fail_threshold s =
    let n = (s.failures + 1) % u32_mod in
    record { failures = n; available = if leb fail_threshold n then false else s.available }

-- The map `addrs`; every address stands once.
abbrev pub Keepalive : Type 0 → Type 0
Keepalive Addr = List (Addr × AddrState)

module _ {Addr : Type 0} ⦃e : Eq Addr⦄ where
  -- `entry(addr).or_default()` and a change of the value there.
  unfoldable pub modify : Addr → (AddrState → AddrState) → Keepalive Addr → Keepalive Addr
  modify a f [] = (a, f fresh) ∷ []
  modify a f ((b, s) ∷ m) =
      let rest = modify a f m in if b == a then (b, f s) ∷ m else (b, s) ∷ rest

  unfoldable pub register : Addr → Keepalive Addr → Keepalive Addr
  unfolding modify
  register a = modify a (λ s. s)

  unfoldable pub record_result : Addr → Bool → ℕ → Keepalive Addr → Keepalive Addr
  unfolding modify note_result
  record_result a reached fail_threshold = modify a (note_result reached fail_threshold)

  unfoldable pub unavailable : Keepalive Addr → List Addr
  unavailable [] = []
  unavailable ((a, s) ∷ m) = let rest = unavailable m in if not s.available then a ∷ rest else rest

  unfoldable pub addr_slot : (Addr → ℕ) → Addr → ℕ → ℕ
  addr_slot hash a interval_secs = hash a % interval_secs

  unfoldable pub probe_due : (Addr → ℕ) → Keepalive Addr → ℕ → ℕ → List Addr
  unfolding addr_slot
  probe_due hash [] now_secs interval_secs = []
  probe_due hash ((a, s) ∷ m) now_secs interval_secs =
      let rest = probe_due hash m now_secs interval_secs in
      if addr_slot hash a interval_secs == now_secs % interval_secs then a ∷ rest else rest
