-- ===== src/Transfer/Fetched.antt =====
-- What `fetch_chunks` of agent/src/fetch.rs hands to its sink, and how it accounts for the rest.
use blaze_net.Common.{
  Bool-cases, beq_refl, ◌==◌, bytes_eq, nat_eq, Result, ok, err, length, contains, ℕ, ◌≡◌, refl,
  inl, inr, true, List, [], ◌∷◌, arith,
}
use blaze_net.Manifest.Defs.{Hash, Blake3}
use blaze_net.Transfer.Frames.{NetError}
use blaze_net.Transfer.Fetch.{
  Conn, PeerTarget, Endpoint, FetchStats, no_stats, FetchError, connect_peer, request_bytes, Turn,
  missed, broken, stored, refused, fetch_one, after_turn, fetch_loop, fetch_connected, fetch_chunks,
}
use blaze_net.Transfer.Turns.{Took, took_nothing, took_end, took_bytes, took_error, fetch_one-Took}

module _ (blake3 : Blake3) {S E : Type 0} (sink : Hash → List ℕ → S → Result E (Unit {0}) × S)
    (Good : S → Type 0) where
  -- What the sink keeps when it is given bytes of the digest that was asked for.
  abbrev pub SinkKeeps : List Hash → Type 0
  SinkKeeps hashes =
      (hash : Hash) (bytes : List ℕ) (s : S)
      → contains hash hashes ≡ true
      → blake3.digest bytes ≡ hash
      → Good s
      → Good (sink hash bytes s).1

  Took-Good :
      (all : List Hash) (hash : Hash) (s : S) (out : Turn E × S)
      → Took blake3 sink hash s out
      → SinkKeeps all
      → contains hash all ≡ true
      → Good s
      → Good out.1
  Took-Good all hash s out (took_nothing rest) keeps asked g = g
  Took-Good all hash s out (took_end e) keeps asked g = g
  Took-Good all hash s out (took_bytes len bytes rest same done) keeps asked g =
      keeps hash bytes s asked same g
  Took-Good all hash s out (took_error e bytes same failed) keeps asked g =
      keeps hash bytes s asked same g

  -- The hashes of a rest of the loop are among all hashes.
  abbrev pub Within : List Hash → List Hash → Type 0
  Within hashes all = (h : Hash) → contains h hashes ≡ true → contains h all ≡ true

  after_turn-Good :
      (go_on : List ℕ → FetchStats → S → Result (FetchError E) FetchStats × S) (hash : Hash)
      (stats : FetchStats) (out : Turn E × S)
      → Good out.1
      → ((rest : List ℕ) (stats : FetchStats) (s : S) → Good s → Good (go_on rest stats s).1)
      → Good (after_turn blake3 sink go_on hash stats out).1
  unfolding after_turn
  after_turn-Good go_on hash stats (missed rest, s) g later = later rest _ s g
  after_turn-Good go_on hash stats (broken e, s) g later = g
  after_turn-Good go_on hash stats (stored len rest, s) g later = later rest _ s g
  after_turn-Good go_on hash stats (refused e, s) g later = g

  fetch_loop-Good :
      (all hashes : List Hash) (rest : List ℕ) (stats : FetchStats) (s : S)
      → Within hashes all
      → SinkKeeps all
      → Good s
      → Good (fetch_loop blake3 sink hashes rest stats s).1
  unfolding fetch_loop
  fetch_loop-Good all [] rest stats s within keeps g = g
  fetch_loop-Good all (hash ∷ hashes) rest stats s within keeps g =
      let out = fetch_one blake3 sink hash rest s in
      let asked : contains hash all ≡ true = within hash (rw (beq_refl hash) refl) in
      let tail : Within hashes all = λ h inside. within h (ground arith) in
      after_turn-Good (fetch_loop blake3 sink hashes) hash stats out
        (Took-Good all hash s out (fetch_one-Took blake3 sink hash rest s) keeps asked g)
        (λ rest' stats' s' g'. fetch_loop-Good all hashes rest' stats' s' tail keeps g')

  fetch_connected-Good :
      (hashes : List Hash) (game_id : ℕ) (s : S) (conn : Result NetError Conn)
      → SinkKeeps hashes
      → Good s
      → Good (fetch_connected blake3 sink game_id hashes s conn).1
  unfolding fetch_connected
  fetch_connected-Good hashes game_id s (err e) keeps g = g
  fetch_connected-Good hashes game_id s (ok conn) keeps g =
      fetch_loop-Good hashes hashes (conn (request_bytes game_id hashes)) no_stats s
        (λ h inside. inside) keeps g

  -- Whatever the peer answers, a property of the state that the sink keeps when it is given bytes
  -- whose digest is a hash of the request also holds after the call.
  pub fetch_chunks-Good :
      (ep : Endpoint) (target : PeerTarget) (game_id : ℕ) (hashes : List Hash) (s : S)
      → SinkKeeps hashes
      → Good s
      → Good (fetch_chunks blake3 sink ep target game_id hashes s).1
  unfolding fetch_chunks
  fetch_chunks-Good ep target game_id hashes s keeps g = elim (Bool-cases (length hashes == 0)) [
    | inl nothing ↦ rw (fetch_chunks, nothing) g
    | inr some_hash ↦
        rw (fetch_chunks, some_hash)
          (fetch_connected-Good hashes game_id s (connect_peer ep target) keeps g)
  ]
