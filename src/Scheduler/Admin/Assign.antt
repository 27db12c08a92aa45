-- ===== src/Scheduler/Admin/Assign.antt =====
-- The chunks that `assign_idc_chunks` of scheduler/src/http.rs gives a node to fetch from the origin.
use blaze_net.Common.{
  ◌==◌, bytes_eq, nat_eq, ok, err, bytes_leb, Nodup, IsSorted, length, contains, ℕ, ◌≡◌, Bool,
  false, ◌&&◌, List,
}
use blaze_net.Manifest.Defs.{Hash}
use blaze_net.Scheduler.Db.Records.{Backend, Db}
use blaze_net.Scheduler.Db.Tables.{chunk_holders}

module _ (b : Backend) where
  -- The ledger can be read and names no holder of the chunk.
  unfoldable pub is_unheld : ℕ → Db b → Hash → Bool
  is_unheld game_id db h = elim (chunk_holders b game_id h db) [
    | err e ↦ false
    | ok holders ↦ length holders == 0
  ]

  -- The chunks that are assigned.
  IsAssignment : ℕ → Db b → List Hash → List Hash → Type 0
  IsAssignment game_id db hs assigned =
      ((h : Hash) → contains h assigned ≡ (contains h hs && is_unheld game_id db h))
      × Nodup assigned
      × IsSorted bytes_leb assigned
