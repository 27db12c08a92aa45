-- ===== src/Transfer/Fetch.antt =====
-- The asking side of a transfer, agent/src/fetch.rs. A connection answers the bytes of a request with
-- bytes; the peer may be any, and the answer may end anywhere.
use blaze_net.Common.{
  if◌then◌else◌, ◌==◌, bytes_eq, nat_eq, Result, ok, err, length, ℕ, ◌+◌, ◌%◌, ◌^◌, Bool, true,
  false, not, Option, none, some, List, [], ◌∷◌, ◌++◌,
}
use blaze_net.Manifest.Defs.{Hash, Blake3}
use blaze_net.Transfer.Frames.{NetError, no_address, bad_relay_url, be_bytes, recv_exact, recv_int}

abbrev pub Conn : Type 0
Conn = List ℕ → List ℕ

pub record PeerTarget : Type 0 where
  pub endpoint_id : ℕ
  pub addr : Option ℕ
  pub relay_url : Option (List ℕ)
  pub direct_only : Bool

-- The endpoint of the crate iroh: a connection to an address, and one over a relay, whose URL may not
-- parse.
pub record Endpoint : Type 0 where
  pub connect_direct : ℕ → ℕ → Result NetError Conn
  pub parse_url : List ℕ → Option ℕ
  pub connect_relay : ℕ → ℕ → Result NetError Conn

pub record FetchStats : Type 0 where
  pub downloaded : ℕ
  pub bytes : ℕ
  pub failed : List Hash

abbrev pub no_stats : FetchStats
no_stats = record { downloaded = 0; bytes = 0; failed = [] }

pub data FetchError (E : Type 0) : Type 0 where
  net : NetError → FetchError E
  sink_error : E → FetchError E

-- The relay is tried if the target allows it; without it the last error stands.
unfoldable pub connect_relayed : Endpoint → PeerTarget → NetError → Result NetError Conn
connect_relayed ep target last = if target.direct_only then err last else elim target.relay_url [
  | none ↦ err last
  | some url ↦ elim (ep.parse_url url) [
    | none ↦ err bad_relay_url
    | some relay ↦ ep.connect_relay target.endpoint_id relay
  ]
]

unfoldable pub connect_peer : Endpoint → PeerTarget → Result NetError Conn
unfolding connect_relayed
connect_peer ep target = elim target.addr [
  | none ↦ connect_relayed ep target no_address
  | some addr ↦ elim (ep.connect_direct target.endpoint_id addr) [
    | ok conn ↦ ok conn
    | err e ↦ connect_relayed ep target e
  ]
]

abbrev pub concat_hashes : List Hash → List ℕ
concat_hashes [] = []
concat_hashes (h ∷ hs) = h ++ concat_hashes hs

-- What is written before the stream is finished.
unfoldable pub request_bytes : ℕ → List Hash → List ℕ
unfolding be_bytes
request_bytes game_id hashes =
    be_bytes 8 game_id ++ (be_bytes 4 (length hashes % 2 ^ 32) ++ concat_hashes hashes)

-- How a turn of the loop ends: the hash failed, the stream broke off, the bytes were stored, or the
-- sink refused them.
pub data Turn (E : Type 0) : Type 0 where
  missed : List ℕ → Turn E
  broken : NetError → Turn E
  stored : ℕ → List ℕ → Turn E
  refused : E → Turn E

-- The counts after a failed hash, and after one whose bytes were stored.
abbrev pub missed_stats : Hash → FetchStats → FetchStats
missed_stats hash stats = record stats { failed = stats.failed ++ hash ∷ [] }

abbrev pub got_stats : ℕ → FetchStats → FetchStats
got_stats len stats = record stats { downloaded = stats.downloaded + 1; bytes = stats.bytes + len }

module _ (blake3 : Blake3) {S E : Type 0} (sink : Hash → List ℕ → S → Result E (Unit {0}) × S) where
  -- Whether the digest is right, after the sink has taken the bytes if it is.
  unfoldable pub store_chunk : Hash → List ℕ → S → Result E Bool × S
  store_chunk hash bytes s =
      let (done, s') = sink hash bytes s in
      if not (blake3.digest bytes == hash)
      then (ok false, s)
      else (elim done [ ok u ↦ ok true | err e ↦ err e ], s')

  unfoldable pub fetched : ℕ → List ℕ → Result E Bool × S → Turn E × S
  fetched len rest (ok true, s) = (stored len rest, s)
  fetched len rest (ok false, s) = (missed rest, s)
  fetched len rest (err e, s) = (refused e, s)

  -- The body of the loop, over the answer that is still to come.
  unfoldable pub fetch_one : Hash → List ℕ → S → Turn E × S
  unfolding store_chunk recv_exact recv_int fetched
  fetch_one hash rest s = elim (recv_int 4 rest) [
    | err e ↦ (missed rest, s)
    | ok (len, rest₁) ↦ elim (recv_exact len rest₁) [
      | err e ↦ (broken e, s)
      | ok (bytes, rest₂) ↦ fetched len rest₂ (store_chunk hash bytes s)
    ]
  ]

  -- How the loop goes on after a turn.
  unfoldable pub after_turn :
      (List ℕ → FetchStats → S → Result (FetchError E) FetchStats × S)
      → Hash
      → FetchStats
      → Turn E × S
      → Result (FetchError E) FetchStats × S
  after_turn go_on hash stats (missed rest, s) = go_on rest (missed_stats hash stats) s
  after_turn go_on hash stats (broken e, s) = (err (net e), s)
  after_turn go_on hash stats (stored len rest, s) = go_on rest (got_stats len stats) s
  after_turn go_on hash stats (refused e, s) = (err (sink_error e), s)

  unfoldable pub fetch_loop :
      List Hash → List ℕ → FetchStats → S → Result (FetchError E) FetchStats × S
  unfolding fetch_one after_turn
  fetch_loop [] rest stats s = (ok stats, s)
  fetch_loop (hash ∷ hashes) rest stats s =
      after_turn (λ rest' stats' s'. fetch_loop hashes rest' stats' s') hash stats
        (fetch_one hash rest s)

  unfoldable pub fetch_connected :
      ℕ → List Hash → S → Result NetError Conn → Result (FetchError E) FetchStats × S
  unfolding request_bytes fetch_loop
  fetch_connected game_id hashes s (err e) = (err (net e), s)
  fetch_connected game_id hashes s (ok conn) =
      fetch_loop hashes (conn (request_bytes game_id hashes)) no_stats s

  unfoldable pub fetch_chunks :
      Endpoint → PeerTarget → ℕ → List Hash → S → Result (FetchError E) FetchStats × S
  unfolding connect_peer fetch_connected
  fetch_chunks ep target game_id hashes s =
      if length hashes == 0
      then (ok no_stats, s)
      else fetch_connected game_id hashes s (connect_peer ep target)
