-- ===== src/Upload/Runs.antt =====
-- Runs of the upload service of origin/src/server.rs, with a digest that is the same for all bytes.
use blaze_net.Common.{
  ltb, if◌then◌else◌, beq_refl, ◌==◌, bytes_eq, nat_eq, Result, ok, err, ok_injective, assoc_table,
  length, replicate, le_bytes, ℕ, ◌≡◌, refl, sym, true, false, Option, none, some, List, [], ◌∷◌,
  arith,
}
use blaze_net.Manifest.Defs.{
  Hash, GameIndex, Blake3, encode_chunks, encode_files, encode_body, encode, decode, chunk_hashes,
  chunk_set,
}
use blaze_net.Manifest.Runs.{replicate-IsHash, small_index, small_index-IsIndex}
use blaze_net.Manifest.RoundTrip.{IsIndex, decode-encode}
use blaze_net.Storage.Files.{after_write, write_loop, write_exact_at}
use blaze_net.Storage.Defs.{
  hex_digit, hex, hex_u64, key, GameStore, contains_chunk, read_value, read_chunk, store_new,
  append_value, append_chunk,
}
use blaze_net.Storage.Open.{Disk, open_store}
use blaze_net.Storage.Runs.{slow_io, list_index, chunk}
use blaze_net.Upload.Defs.{
  Status, transport, UploadChunk, append_ack, to_hash, map_open, entry, upload_one, upload_loop,
  process_upload,
}
use blaze_net.Upload.Commit.{
  PublishDir, Scheduler, HashSet, CommitRequest, published, ensure_publish_ok, map_decode,
  missing_of, told, connect_loop, connect_control, publish_to_scheduler, Origin, announce, publish,
  check_chunks, check_commit, commit_version,
}
use blaze_net.Upload.Stored.{Genuine}
use blaze_net.Upload.Services.{AllGenuine, OpensGenuine, Fits, Processed, process_upload-Processed}
use blaze_net.Upload.Committed.{Committed, Checked, commit_version-Committed}
use blaze_net.Upload.Known.{control_scheduler, get_version_info-commit_version}
use blaze_net.Scheduler.Db.Memory.{memory, empty_db}
use blaze_net.Scheduler.Control.Defs.{ControlService, publish_version, get_version_info}

abbrev seven : Hash
seven = replicate 32 7

seven_digest : Blake3
seven_digest = record {
  digest = λ bytes. seven;
  digest-IsHash = λ bytes. replicate-IsHash 7 (omega arith);
}

abbrev empty_disk : Disk list_index.T
empty_disk game_id = ok (record { index = list_index.empty; pack_file = [] })

abbrev stream : List (Result Status UploadChunk)
stream =
    ok (record { game_id = 3; chunk_hash = seven; bytes = chunk })
    ∷ ok (record { game_id = 3; chunk_hash = replicate 32 8; bytes = 1 ∷ [] })
    ∷ err (transport 1)
    ∷ []

opened_empty :
    (game_id : ℕ) (store : GameStore list_index.T)
    → open_store list_index empty_disk game_id ≡ ok store
    → store ≡ record { game_id = game_id; index = list_index.empty; pack_file = []; size = 0 }
unfolding open_store
opened_empty game_id store h = sym (ok_injective h)

empty-Genuine :
    (game_id : ℕ)
    → Genuine seven_digest list_index slow_io
        (record { game_id = game_id; index = list_index.empty; pack_file = []; size = 0 })
unfolding assoc_table read_chunk read_value
empty-Genuine game_id = record {
  in_order = record { within = λ k value found. cc; fits = omega arith };
  digests = λ h bytes p r. cc;
}

opens : OpensGenuine seven_digest list_index slow_io empty_disk
opens game_id store h = rw (opened_empty game_id store h) (empty-Genuine game_id)

nothing_open : AllGenuine seven_digest list_index slow_io empty_disk []
nothing_open game_id store h = cc

stream-Fits : Fits seven_digest list_index slow_io empty_disk stream []
unfolding entry open_store map_open
stream-Fits store h = let e = ok_injective h in rw (← e) (omega arith)

process_upload-Processed_example :
    Processed seven_digest list_index slow_io empty_disk stream
      (process_upload seven_digest list_index slow_io empty_disk stream []).0.1
      (process_upload seven_digest list_index slow_io empty_disk stream []).1
process_upload-Processed_example =
    process_upload-Processed seven_digest list_index slow_io empty_disk stream [] nothing_open opens
      stream-Fits

abbrev write_file : ℕ → ℕ → List ℕ → (ℕ → ℕ → Option (List ℕ)) → ℕ → ℕ → Option (List ℕ)
write_file game_id version bytes d g v =
    if game_id == g then (if version == v then some bytes else d g v) else d g v

abbrev file_map : PublishDir
file_map = record {
  D = ℕ → ℕ → Option (List ℕ);
  create_dir_all = λ game_id d. (true, d);
  write = λ game_id version bytes d. (true, write_file game_id version bytes d);
  read = λ game_id version d. d game_id version;
  read-write = λ game_id version bytes d h. rw (beq_refl game_id, beq_refl version) refl;
}

abbrev in_order : HashSet
in_order = record { iter = λ hashes. hashes; contains-iter = λ h hashes. refl }

abbrev start : ControlService memory
start = record { db = empty_db; pending = []; events = [] }

-- The third attempt connects.
abbrev scheduler : Scheduler
scheduler = control_scheduler memory (λ n. n == 2)

abbrev seven_index : GameIndex
seven_index = record small_index { manifest_hash = seven }

seven_index-IsIndex : IsIndex seven_index
seven_index-IsIndex = record {
  version_fits = small_index-IsIndex.version_fits;
  count_fits = small_index-IsIndex.count_fits;
  files_ok = small_index-IsIndex.files_ok;
}

decode-seven_index : decode seven_digest (encode seven_index) ≡ ok seven_index
decode-seven_index =
    decode-encode seven_digest seven_index seven_index-IsIndex (unfold seven_digest in refl)

abbrev request : CommitRequest
request = record { game_id = 3; version = 1; manifest = encode seven_index; manifest_hash = seven }

abbrev origin : Origin seven_digest list_index slow_io empty_disk in_order file_map scheduler
origin = record {
  stores = (process_upload seven_digest list_index slow_io empty_disk stream []).1;
  files = λ game_id version. none;
  scheduler = start;
}

encoded_long : ltb (length (encode seven_index)) 32 ≡ false
unfolding encode encode_body encode_files encode_chunks le_bytes
encoded_long = refl

checked :
    check_commit seven_digest list_index slow_io empty_disk in_order file_map scheduler request
    ≡ ok seven_index
unfolding check_commit seven_digest to_hash map_decode
checked = rw (check_commit, decode-seven_index, encoded_long) refl

request-published :
    (commit_version seven_digest list_index slow_io empty_disk in_order file_map scheduler true
      request origin).0
    ≡ ok published
unfolding commit_version check_chunks entry open_store map_open process_upload upload_loop
    upload_one to_hash append_ack append_chunk append_value store_new write_exact_at write_loop
    after_write key hex hex_u64 hex_digit assoc_table contains_chunk chunk_set chunk_hashes
    missing_of publish announce publish_to_scheduler told ensure_publish_ok connect_control
    connect_loop seven_digest publish_version encode encode_body memory
request-published = rw (commit_version, checked) refl

commit_version-Committed_example :
    (index : GameIndex) × Checked seven_digest list_index slow_io empty_disk in_order file_map
      scheduler request index
    × Committed seven_digest list_index slow_io empty_disk in_order file_map scheduler true request
        index origin
        (commit_version seven_digest list_index slow_io empty_disk in_order file_map scheduler true
          request origin).1
commit_version-Committed_example =
    commit_version-Committed seven_digest list_index slow_io empty_disk in_order file_map scheduler
      true request origin
      (process_upload-Processed seven_digest list_index slow_io empty_disk stream [] nothing_open
        opens stream-Fits).genuine
      opens request-published

get_version_info-commit_version_example :
    get_version_info memory 3 1
      (commit_version seven_digest list_index slow_io empty_disk in_order file_map scheduler true
        request origin).1.scheduler
    ≡ ok (record { found = true; version = 1; manifest = encode seven_index })
get_version_info-commit_version_example =
    get_version_info-commit_version seven_digest list_index slow_io empty_disk in_order file_map
      memory (λ n. n == 2) request origin
      (process_upload-Processed seven_digest list_index slow_io empty_disk stream [] nothing_open
        opens stream-Fits).genuine
      opens request-published
