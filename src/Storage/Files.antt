-- ===== src/Storage/Files.antt =====
-- The loops of origin/src/storage.rs that read and write a whole buffer at an offset, over the calls
-- `pread` and `pwrite` of the system, which may transfer less than they are asked for. A write may
-- fail; that a read call fails, for an error of the device, is left out.
use blaze_net.Common.{
  ◌==◌, nat_eq, bytes_eq, Result, ok, err, ◌>>=◌, length, take, drop, replicate, ℕ, zero, suc, ◌+◌,
  ◌-◌, ◌≤◌, ◌<◌, ◌≡◌, true, false, Option, none, some, List, [], ◌∷◌, ◌++◌,
}

pub data IoError : Type 0 where
  unexpected_eof write_zero disk_error out_of_fuel : IoError

-- A file after n bytes were written at an offset: what the offset skips is filled with zeros.
abbrev pub overlay : List ℕ → ℕ → List ℕ → List ℕ
overlay file at [] = file
overlay file at (b ∷ bs) =
    (take at file ++ replicate (at - length file) 0)
    ++ ((b ∷ bs) ++ drop (at + length (b ∷ bs)) file)

pub record PosixFile : Type 0 where
  -- The number of bytes that `pread` transfers, where it does not fail, and what `pwrite` does, `none`
  -- on an error of the device.
  pub read_count : List ℕ → ℕ → ℕ → ℕ
  pub write_at : List ℕ → List ℕ → ℕ → Option (List ℕ × ℕ)
  pub read_law :
      (file : List ℕ) (want at : ℕ)
      → (read_count file want at ≤ want)
        × (read_count file want at ≤ length file - at)
        × (0 < want → at < length file → 0 < read_count file want at)
  pub write_law :
      (file buf : List ℕ) (at : ℕ) (file' : List ℕ) (n : ℕ)
      → write_at file buf at ≡ some (file', n)
      → (n ≤ length buf) × (file' ≡ overlay file at (take n buf))

abbrev pub slice : List ℕ → ℕ → ℕ → List ℕ
slice file at n = take n (drop at file)

module _ (io : PosixFile) where
  unfoldable pub read_at : List ℕ → ℕ → ℕ → List ℕ
  read_at file want at = slice file at (io.read_count file want at)

  -- `read_exact_at`: the bytes of the buffer that are still to come.
  unfoldable pub read_loop : ℕ → List ℕ → ℕ → ℕ → Result IoError (List ℕ)
  read_loop fuel file zero at = ok []
  read_loop zero file (suc want) at = err out_of_fuel
  read_loop (suc fuel) file (suc want) at =
      let got = read_at file (suc want) at in
      let n = length got in
      elim (n == 0) [
        | true ↦ err unexpected_eof
        | false ↦ read_loop fuel file (suc want - n) (at + n) >>= λ more. ok (got ++ more)
      ]

  unfoldable pub read_exact_at : List ℕ → ℕ → ℕ → Result IoError (List ℕ)
  unfolding read_loop read_at
  read_exact_at file want at = read_loop want file want at

  -- `write_exact_at_impl`: the result, and the file that the writes so far have left.
  unfoldable pub after_write :
      (List ℕ → ℕ → Result IoError (Unit {0}) × List ℕ)
      → List ℕ
      → Option (List ℕ × ℕ)
      → Result IoError (Unit {0}) × List ℕ
  after_write go_on file none = (err disk_error, file)
  after_write go_on file (some (file', n)) = elim (n == 0) [
    | true ↦ (err write_zero, file')
    | false ↦ go_on file' n
  ]

  unfoldable pub write_loop : ℕ → List ℕ → List ℕ → ℕ → Result IoError (Unit {0}) × List ℕ
  unfolding after_write
  write_loop fuel file [] at = (ok tt, file)
  write_loop zero file (b ∷ bs) at = (err out_of_fuel, file)
  write_loop (suc fuel) file (b ∷ bs) at =
      after_write (λ file' n. write_loop fuel file' (drop n (b ∷ bs)) (at + n)) file
        (io.write_at file (b ∷ bs) at)

  unfoldable pub write_exact_at : List ℕ → List ℕ → ℕ → Result IoError (Unit {0}) × List ℕ
  unfolding write_loop
  write_exact_at file buf at = write_loop (length buf) file buf at
