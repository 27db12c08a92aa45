-- ===== src/Scheduler/Db/Ledger.antt =====
-- The chunk ledger of scheduler/src/db.rs: who holds which chunk.
use blaze_net.Common.{
  if◌then◌else◌, Bool-cases, ◌==◌, nat_eq, bytes_beq_iff, bytes_eq, beq_refl, ok, length,
  length-append, contains, ℕ, zero, suc, ◌*◌, ◌/◌, ◌%◌, ◌^◌, ◌<◌, ◌≡◌, refl, sym, ◌∙◌, inl, inr,
  Option, none, some, List, [], ◌∷◌, ◌++◌, arith,
}
use blaze_net.Scheduler.Db.Records.{Text, Backend, Db}
use blaze_net.Scheduler.Db.Tables.{
  parse, chunk_key, holders_or_none, record_chunk_holder, chunk_holders,
}
use blaze_net.Scheduler.Db.Laws.{parse-encode}
use blaze_net.Manifest.Defs.{IsHash}
use blaze_net.Storage.Defs.{hex, hex_u64, hex_digit}
use blaze_net.Storage.Keys.{hex-injective, hex_digit-injective}

length-hex_u64 : (d n : ℕ) → length (hex_u64 d n) ≡ d
unfolding hex_u64
length-hex_u64 zero n = refl
length-hex_u64 (suc d) n =
    omega (
      arith,
      length-append (hex_u64 d (n / 16)) (hex_digit (n % 16) ∷ []),
      length-hex_u64 d (n / 16),
    )

-- Two concatenations with parts of equal length are equal only part by part.
append-split :
    (xs ys us vs : List ℕ) → length xs ≡ length us → xs ++ ys ≡ us ++ vs → (xs ≡ us) × (ys ≡ vs)
append-split [] ys [] vs h e = (refl, e)
append-split [] ys (u ∷ us) vs h e = absurd (omega arith)
append-split (x ∷ xs) ys [] vs h e = absurd (omega arith)
append-split (x ∷ xs) ys (u ∷ us) vs h e =
    let rest = append-split xs ys us vs (omega arith) (cc) in
    let head : x ≡ u = (cc) in (cc (head, rest.0), rest.1)

hex_u64-injective : (d n m : ℕ) → n < 16 ^ d → m < 16 ^ d → hex_u64 d n ≡ hex_u64 d m → n ≡ m
unfolding hex_u64
hex_u64-injective zero n m h k e = omega arith
hex_u64-injective (suc d) n m h k e =
    let power : 16 ^ suc d ≡ 16 * 16 ^ d = omega arith in
    let parts =
      append-split (hex_u64 d (n / 16)) (hex_digit (n % 16) ∷ []) (hex_u64 d (m / 16))
        (hex_digit (m % 16) ∷ []) (length-hex_u64 d (n / 16) ∙ sym (length-hex_u64 d (m / 16))) e in
    let high = hex_u64-injective d (n / 16) (m / 16) (omega arith) (omega arith) parts.0 in
    let low = hex_digit-injective (n % 16) (m % 16) (omega arith) (omega arith) (cc (parts.1)) in
    omega (arith, high, low)

-- The key of a chunk tells its game and its hash.
pub chunk_key-injective :
    (g h : ℕ) (x y : List ℕ)
    → g < 2 ^ 64
    → h < 2 ^ 64
    → IsHash x
    → IsHash y
    → chunk_key g x ≡ chunk_key h y
    → (g ≡ h) × (x ≡ y)
unfolding chunk_key
chunk_key-injective g h x y p q u v e =
    let parts =
      append-split (hex_u64 16 g) (hex x) (hex_u64 16 h) (hex y)
        (length-hex_u64 16 g ∙ sym (length-hex_u64 16 h)) e in
    (
      hex_u64-injective 16 g h (omega arith) (omega arith) parts.0,
      hex-injective x y u.0 v.0 parts.1,
    )

module _ (b : Backend) where
  -- The ids that a readable entry has.
  holders_or_none-ok :
      (entry : Option Text) (holders : List ℕ)
      → (elim entry [ none ↦ ok [] | some text ↦ parse b.holders_json text ]) ≡ ok holders
      → holders_or_none b entry ≡ holders
  unfolding holders_or_none parse
  holders_or_none-ok none holders h = cc
  holders_or_none-ok (some text) holders h = ground arith

  -- A node that reports a chunk is added behind the chunk's holders, unless it is one already.
  pub chunk_holders-record_chunk_holder :
      (node game : ℕ) (hash : List ℕ) (db : Db b) (holders : List ℕ)
      → chunk_holders b game hash db ≡ ok holders
      → chunk_holders b game hash (record_chunk_holder b node game hash db)
        ≡ ok (if contains node holders then holders else holders ++ node ∷ [])
  unfolding chunk_holders record_chunk_holder parse
  chunk_holders-record_chunk_holder node game hash db holders h =
      let k = chunk_key game hash in
      let now = holders_or_none-ok (b.texts.get db.chunks k) holders h in
      elim (Bool-cases (contains node holders)) [
        | inl old ↦ rw (now, old) h
        | inr new ↦
            rw
              (
                now,
                new,
                chunk_holders,
                b.texts.get-insert db.chunks k (b.holders_json.encode (holders ++ node ∷ [])) k,
                beq_refl k,
                parse-encode b.holders_json (holders ++ node ∷ []),
              )
              refl
      ]

  -- A report changes the holders of no other chunk of any game.
  pub chunk_holders-record_chunk_holder_ne :
      (node game other : ℕ) (hash elsewhere : List ℕ) (db : Db b)
      → game < 2 ^ 64
      → other < 2 ^ 64
      → IsHash hash
      → IsHash elsewhere
      → ¬ ((game ≡ other) × (hash ≡ elsewhere))
      → chunk_holders b other elsewhere (record_chunk_holder b node game hash db)
        ≡ chunk_holders b other elsewhere db
  unfolding chunk_holders record_chunk_holder parse
  chunk_holders-record_chunk_holder_ne node game other hash elsewhere db p q u v ne =
      let k = chunk_key game hash in
      let j = chunk_key other elsewhere in
      let holders = holders_or_none b (b.texts.get db.chunks k) in
      elim (Bool-cases (contains node holders)) [
        | inl old ↦ rw old refl
        | inr new ↦ elim (Bool-cases (k == j)) [
          | inl same ↦ absurd (
              ne (
                chunk_key-injective game other hash elsewhere p q u v ((bytes_beq_iff k j).0 same)))
          | inr far ↦
              rw
                (
                  new,
                  chunk_holders,
                  b.texts.get-insert db.chunks k (b.holders_json.encode (holders ++ node ∷ [])) j,
                  far,
                )
                refl
        ]
      ]
