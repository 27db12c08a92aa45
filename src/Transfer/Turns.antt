-- ===== src/Transfer/Turns.antt =====
-- The cases of one turn of the loop of `fetch_chunks` in agent/src/fetch.rs.
use blaze_net.Common.{
  Bool-cases, ◌==◌, bytes_beq_iff, bytes_eq, nat_eq, Result, ok, err, ℕ, ◌≡◌, refl, inl, inr, List,
}
use blaze_net.Manifest.Defs.{Hash, Blake3}
use blaze_net.Transfer.Frames.{NetError, recv_exact, recv_int}
use blaze_net.Transfer.Fetch.{
  Turn, missed, broken, stored, refused, store_chunk, fetched, fetch_one,
}

module _ (blake3 : Blake3) {S E : Type 0} (sink : Hash → List ℕ → S → Result E (Unit {0}) × S) where
  -- A turn and the state behind it: only bytes of the right digest reach the sink.
  pub data Took (hash : Hash) (s : S) : Turn E × S → Type 0 where
    took_nothing : (rest : List ℕ) → Took hash s (missed rest, s)
    took_end : (e : NetError) → Took hash s (broken e, s)
    took_bytes :
        (len : ℕ) (bytes rest : List ℕ)
        → blake3.digest bytes ≡ hash
        → (sink hash bytes s).0 ≡ ok tt
        → Took hash s (stored len rest, (sink hash bytes s).1)
    took_error :
        (e : E) (bytes : List ℕ)
        → blake3.digest bytes ≡ hash
        → (sink hash bytes s).0 ≡ err e
        → Took hash s (refused e, (sink hash bytes s).1)

  fetched-Took :
      (hash : Hash) (bytes rest : List ℕ) (len : ℕ) (s : S) (done : Result E (Unit {0}))
      → (sink hash bytes s).0 ≡ done
      → blake3.digest bytes ≡ hash
      → Took hash s (fetched blake3 sink len rest (store_chunk blake3 sink hash bytes s))
  unfolding store_chunk fetched
  fetched-Took hash bytes rest len s (ok u) called same =
      let right = (bytes_beq_iff (blake3.digest bytes) hash).1 same in
      rw (store_chunk, right, called) (took_bytes len bytes rest same called)
  fetched-Took hash bytes rest len s (err e) called same =
      let right = (bytes_beq_iff (blake3.digest bytes) hash).1 same in
      rw (store_chunk, right, called) (took_error e bytes same called)

  turn_framed :
      (hash : Hash) (rest rest₁ : List ℕ) (len : ℕ) (s : S)
      (got : Result NetError (List ℕ × List ℕ))
      → recv_int 4 rest ≡ ok (len, rest₁)
      → recv_exact len rest₁ ≡ got
      → Took hash s (fetch_one blake3 sink hash rest s)
  unfolding fetch_one store_chunk fetched
  turn_framed hash rest rest₁ len s (err e) framed body = rw (fetch_one, framed, body) (took_end e)
  turn_framed hash rest rest₁ len s (ok (bytes, rest₂)) framed body =
      elim (Bool-cases (blake3.digest bytes == hash)) [
        | inl right ↦
            let same = (bytes_beq_iff (blake3.digest bytes) hash).0 right in
            rw (fetch_one, framed, body)
              (fetched-Took hash bytes rest₂ len s (sink hash bytes s).0 refl same)
        | inr wrong ↦ rw (fetch_one, framed, body, store_chunk, wrong) (took_nothing rest₂)
      ]

  turn_received :
      (hash : Hash) (rest : List ℕ) (s : S) (got : Result NetError (ℕ × List ℕ))
      → recv_int 4 rest ≡ got
      → Took hash s (fetch_one blake3 sink hash rest s)
  unfolding fetch_one
  turn_received hash rest s (err e) framed = rw (fetch_one, framed) (took_nothing rest)
  turn_received hash rest s (ok (len, rest₁)) framed =
      turn_framed hash rest rest₁ len s (recv_exact len rest₁) framed refl

  pub fetch_one-Took :
      (hash : Hash) (rest : List ℕ) (s : S) → Took hash s (fetch_one blake3 sink hash rest s)
  fetch_one-Took hash rest s = turn_received hash rest s (recv_int 4 rest) refl
