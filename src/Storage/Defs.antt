-- ===== src/Storage/Defs.antt =====
-- The chunk store of origin/src/storage.rs: one pack file and an index of its chunks. The index is a
-- table of redb, the pack file is its bytes; that a transaction of redb fails is not modelled.
use blaze_net.Common.{
  ltb, if◌then◌else◌, nat_eq, bytes_eq, Result, ok, err, ◌>>=◌, Table, length, ℕ, zero, suc, ◌+◌,
  ◌*◌, ◌/◌, ◌%◌, ◌^◌, Bool, true, false, Option, none, some, List, [], ◌∷◌, ◌++◌,
}
use blaze_net.Storage.Files.{IoError, PosixFile, read_exact_at, write_exact_at}
use blaze_net.Manifest.Defs.{Hash}
use Prim.Native.Nat.{bit_and, bit_or}

abbrev pub u64_mod : ℕ
u64_mod = 2 ^ 64

abbrev pub len_mask : ℕ
len_mask = 0xffff_ffff

-- `format!("{b:02x}")` of one digit: 0-9, a-f.
unfoldable pub hex_digit : ℕ → ℕ
hex_digit d = if ltb d 10 then 0x30 + d else 0x57 + d

unfoldable pub hex : List ℕ → List ℕ
unfolding hex_digit
hex [] = []
hex (b ∷ bs) = hex_digit (b / 16) ∷ hex_digit (b % 16) ∷ hex bs

-- `{:016x}` of a u64: all 16 digits, the highest first.
unfoldable pub hex_u64 : ℕ → ℕ → List ℕ
unfolding hex_digit
hex_u64 zero n = []
hex_u64 (suc digits) n = hex_u64 digits (n / 16) ++ hex_digit (n % 16) ∷ []

unfoldable pub key : ℕ → Hash → List ℕ
key game_id hash = hex_u64 16 game_id ++ hex hash

-- `(offset << 32) | u64::from(len)`
unfoldable pub pack : ℕ → ℕ → ℕ
pack offset len = bit_or (offset * 2 ^ 32 % u64_mod) len

-- `(value >> 32, (value & LEN_MASK) as u32)`
unfoldable pub unpack : ℕ → ℕ × ℕ
unpack value = (value / 2 ^ 32, bit_and value len_mask % 2 ^ 32)

pub record GameStore (T : Type 0) : Type 0 where
  pub game_id : ℕ
  pub index : T
  pub pack_file : List ℕ
  pub size : ℕ

module _ (db : Table (List ℕ) ℕ) (io : PosixFile) where
  unfoldable pub contains_chunk : Hash → GameStore db.T → Bool
  contains_chunk hash store = elim (db.get store.index (key store.game_id hash)) [
    | none ↦ false
    | some value ↦ true
  ]

  unfoldable pub read_value : GameStore db.T → Option ℕ → Result IoError (Option (List ℕ))
  read_value store none = ok none
  read_value store (some value) =
      let (offset, len) = unpack value in
      read_exact_at io store.pack_file len offset >>= λ buf. ok (some buf)

  unfoldable pub read_chunk : Hash → GameStore db.T → Result IoError (Option (List ℕ))
  unfolding read_value
  read_chunk hash store = read_value store (db.get store.index (key store.game_id hash))

  -- A new chunk: the data behind the file, the size, and then the index entry.
  unfoldable pub store_new :
      List ℕ
      → List ℕ
      → GameStore db.T
      → Result IoError (Unit {0}) × List ℕ
      → Result IoError (ℕ × ℕ) × GameStore db.T
  store_new k bytes store (err e, file) = (err e, record store { pack_file = file })
  store_new k bytes store (ok u, file) =
      let offset = store.size in
      let len = length bytes % 2 ^ 32 in
      (
        ok (offset, len),
        record store {
          pack_file = file;
          size = (store.size + length bytes) % u64_mod;
          index = db.insert store.index k (pack offset len);
        },
      )

  unfoldable pub append_value :
      List ℕ → List ℕ → GameStore db.T → Option ℕ → Result IoError (ℕ × ℕ) × GameStore db.T
  unfolding store_new
  append_value k bytes store (some value) = (ok (unpack value), store)
  append_value k bytes store none =
      store_new k bytes store (write_exact_at io store.pack_file bytes store.size)

  unfoldable pub append_chunk :
      Hash → List ℕ → GameStore db.T → Result IoError (ℕ × ℕ) × GameStore db.T
  unfolding append_value
  append_chunk hash bytes store =
      let k = key store.game_id hash in append_value k bytes store (db.get store.index k)
