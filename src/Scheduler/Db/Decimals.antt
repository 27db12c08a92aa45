-- ===== src/Scheduler/Db/Decimals.antt =====
-- The decimal numbers that scheduler/src/db.rs writes into its keys and reads out of them.
use blaze_net.Common.{
  ltb, Bool-cases, beq_refl, nat_beq_iff, ◌==◌, bytes_eq, nat_eq, All, All-append, ℕ, zero, suc,
  ◌+◌, ◌-◌, ◌*◌, ◌/◌, ◌%◌, ◌^◌, ◌<◌, ◌≤◌, ◌≡◌, ◌≢◌, refl, sym, ap, ◌∙◌, inl, inr, true, false, ◌||◌,
  Option, none, some, [], ◌∷◌, ◌++◌, arith,
}
use blaze_net.Scheduler.Db.Records.{Text, codes, u64_mod, digits, decimal}
use blaze_net.Scheduler.Db.Accounts.{strip_prefix, parse_digits, parse_u64}

pub none_apart {ℓ} : {A : Type ℓ} {x : A} → none ≢ some x
none_apart h = cc

pub some_injective {ℓ} : {A : Type ℓ} {x y : A} → some x ≡ some y → x ≡ y
some_injective h = cc

abbrev IsDigit : ℕ → Type 0
IsDigit c = (0x30 ≤ c) × (c ≤ 0x39)

digits-IsDigit : (fuel n : ℕ) → All IsDigit (digits fuel n)
unfolding digits
digits-IsDigit zero n = tt
digits-IsDigit (suc fuel) n = elim (Bool-cases (ltb n 10)) [
  | inl small ↦
      rw small
        ((let e : n < 10 = ground (arith, small) in (omega (arith, e), omega (arith, e))), tt)
  | inr large ↦ rw large (
      All-append IsDigit (digits fuel (n / 10)) ((0x30 + n % 10) ∷ [])
        (digits-IsDigit fuel (n / 10)) ((omega arith, omega arith), tt))
]

digit_read :
    (before c : ℕ) → IsDigit c → parse_digits before (c ∷ []) ≡ some (before * 10 + (c - 0x30))
unfolding parse_digits
digit_read before c (low, high) =
    let e : (ltb c 0x30 || ltb 0x39 c) ≡ false = ground arith in rw e refl

-- What is read behind some digits.
abbrev and_then : Option ℕ → Text → Option ℕ
and_then none ys = none
and_then (some m) ys = parse_digits m ys

parse_digits-append :
    (xs ys : Text) (before : ℕ)
    → parse_digits before (xs ++ ys) ≡ and_then (parse_digits before xs) ys
unfolding parse_digits
parse_digits-append [] ys before = refl
parse_digits-append (c ∷ xs) ys before = elim (Bool-cases (ltb c 0x30 || ltb 0x39 c)) [
  | inl bad ↦ rw (parse_digits, bad) refl
  | inr good ↦ rw (parse_digits, good) (parse_digits-append xs ys (before * 10 + (c - 0x30)))
]

pub parse_digits-digits : (fuel n : ℕ) → n < 10 ^ fuel → parse_digits 0 (digits fuel n) ≡ some n
unfolding digits
parse_digits-digits zero n h = unfold parse_digits in (let e : 0 ≡ n = omega arith in ap some e)
parse_digits-digits (suc fuel) n h = elim (Bool-cases (ltb n 10)) [
  | inl small ↦
      let e : n < 10 = ground (arith, small) in
      rw (digits, small)
        (digit_read 0 (0x30 + n) (omega (arith, e), omega (arith, e))
          ∙ (let same : 0 * 10 + (0x30 + n - 0x30) ≡ n = omega arith in ap some same))
  | inr large ↦
      let fits : n / 10 < 10 ^ fuel = omega arith in
      rw (digits, large)
        (parse_digits-append (digits fuel (n / 10)) ((0x30 + n % 10) ∷ []) 0
          ∙ rw (parse_digits-digits fuel (n / 10) fits) (
              digit_read (n / 10) (0x30 + n % 10) (omega arith, omega arith)
              ∙ (let same : n / 10 * 10 + (0x30 + n % 10 - 0x30) ≡ n = omega arith in
                  ap some same)))
]

digits-nonempty : (fuel n : ℕ) → digits (suc fuel) n ≢ []
unfolding digits
digits-nonempty fuel n e = elim (Bool-cases (ltb n 10)) [
  | inl small ↦ full [] _ (rw (digits, small) at e)
  | inr large ↦ full (digits fuel (n / 10)) _ (rw (digits, large) at e)
]
  where
    full : (xs : Text) (c : ℕ) → xs ++ c ∷ [] ≢ []
    full [] c e = cc
    full (x ∷ xs) c e = cc

no_plus : (text : Text) → All IsDigit text → strip_prefix (codes "+") text ≡ none
unfolding strip_prefix
no_plus [] h = refl
no_plus (c ∷ cs) ((low, high), h) = let e : (0x2b == c) ≡ false = ground arith in rw e refl

empty_test : (text : Text) → text ≢ [] → (text == []) ≡ false
empty_test [] h = absurd (h refl)
empty_test (c ∷ cs) h = refl

pub parse_u64-decimal : (n : ℕ) → n < u64_mod → parse_u64 (decimal n) ≡ some n
unfolding parse_u64 decimal
parse_u64-decimal n h =
    let fits : n < 10 ^ 20 = omega arith in
    let in_range : ltb n u64_mod ≡ true = ground arith in
    rw
      (
        no_plus (digits 20 n) (digits-IsDigit 20 n),
        empty_test (digits 20 n) (digits-nonempty 19 n),
        parse_digits-digits 20 n fits,
        in_range,
      )
      refl

-- Two texts of digits, each with a slash behind it, the one in front of the other.
slash_apart :
    (xs ys rest tail : Text)
    → All IsDigit xs
    → All IsDigit ys
    → strip_prefix (xs ++ codes "/") (ys ++ (codes "/" ++ rest)) ≡ some tail
    → (xs ≡ ys) × (rest ≡ tail)
unfolding strip_prefix
slash_apart [] [] rest tail hx hy e = (refl, some_injective e)
slash_apart [] (y ∷ ys) rest tail hx ((low, high), hy) e =
    let far : (0x2f == y) ≡ false = ground arith in absurd (none_apart (rw far at e))
slash_apart (x ∷ xs) [] rest tail ((low, high), hx) hy e =
    let far : (x == 0x2f) ≡ false = ground arith in absurd (none_apart (rw far at e))
slash_apart (x ∷ xs) (y ∷ ys) rest tail (dx, hx) (dy, hy) e = elim (Bool-cases (x == y)) [
  | inl same ↦
      let both = slash_apart xs ys rest tail hx hy (rw same at e) in
      (rw (both.0, (nat_beq_iff x y).0 same) refl, both.1)
  | inr far ↦ absurd (none_apart (rw far at e))
]

pub slash-decimal :
    (a b : ℕ) (rest tail : Text)
    → a < u64_mod
    → b < u64_mod
    → strip_prefix (decimal a ++ codes "/") (decimal b ++ (codes "/" ++ rest)) ≡ some tail
    → (a ≡ b) × (rest ≡ tail)
unfolding decimal
slash-decimal a b rest tail ha hb e =
    let both =
      slash_apart (digits 20 a) (digits 20 b) rest tail (digits-IsDigit 20 a) (digits-IsDigit 20 b)
        e in
    let same : parse_u64 (decimal a) ≡ parse_u64 (decimal b) = ap parse_u64 both.0 in
    (some_injective (sym (parse_u64-decimal a ha) ∙ same ∙ parse_u64-decimal b hb), both.1)

-- What stands behind a prefix.
pub strip_prefix-append : (xs ys : Text) → strip_prefix xs (xs ++ ys) ≡ some ys
unfolding strip_prefix
strip_prefix-append [] ys = refl
strip_prefix-append (x ∷ xs) ys = rw (beq_refl x) (strip_prefix-append xs ys)
