-- ===== src/Scheduler/Db/Runs.antt =====
-- Runs of the chunk ledger of scheduler/src/db.rs.
use blaze_net.Common.{nat_eq, bytes_eq, ok, assoc_table, replicate, ◌≡◌, refl, [], ◌∷◌}
use blaze_net.Scheduler.Db.Records.{Db}
use blaze_net.Scheduler.Db.Tables.{record_chunk_holder, chunk_holders}
use blaze_net.Scheduler.Db.Ledger.{chunk_holders-record_chunk_holder}
use blaze_net.Scheduler.Db.Memory.{memory, empty_db}

-- Node 1 holds the chunk.
abbrev one_holder : Db memory
one_holder = record_chunk_holder memory 1 3 (replicate 32 7) empty_db

one_holder-ok : chunk_holders memory 3 (replicate 32 7) one_holder ≡ ok (1 ∷ [])
one_holder-ok =
    chunk_holders-record_chunk_holder memory 1 3 (replicate 32 7) empty_db []
      (unfold chunk_holders memory assoc_table in refl)

chunk_holders-record_chunk_holder_example :
    chunk_holders memory 3
      (replicate 32 7)
      (record_chunk_holder memory 2 3 (replicate 32 7) one_holder)
    ≡ ok (1 ∷ 2 ∷ [])
chunk_holders-record_chunk_holder_example =
    chunk_holders-record_chunk_holder memory 2 3 (replicate 32 7) one_holder (1 ∷ []) one_holder-ok
