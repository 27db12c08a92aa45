-- ===== src/Storage/Loops.antt =====
-- The loop of origin/src/storage.rs that reads a whole buffer.
use blaze_net.Common.{
  nat_beq, nat_eq, bytes_eq, ok, length, take, drop, length-take, length-drop, drop-drop, ℕ, zero,
  suc, ◌+◌, ◌-◌, ◌≤◌, ◌<◌, ◌≡◌, refl, sym, ap, ◌∙◌, false, List, [], ◌∷◌, ◌++◌, arith,
}
use blaze_net.Storage.Files.{PosixFile, slice, read_at, read_loop, read_exact_at}

pub take-take : (n m : ℕ) (xs : List ℕ) → n ≤ m → take n (take m xs) ≡ take n xs
take-take zero m xs h = refl
take-take (suc n) zero xs h = absurd (omega arith)
take-take (suc n) (suc m) [] h = refl
take-take (suc n) (suc m) (x ∷ xs) h = ap (λ t. x ∷ t) (take-take n m xs (omega arith))

pub take-add : (n m : ℕ) (xs : List ℕ) → take (n + m) xs ≡ take n xs ++ take m (drop n xs)
take-add zero m xs = let e : zero + m ≡ m = omega arith in ap (λ t. take t xs) e
take-add (suc n) zero [] = let e : suc n + zero ≡ suc n = omega arith in ap (λ t. take t []) e
take-add (suc n) (suc m) [] =
    let e : suc n + suc m ≡ suc (n + suc m) = omega arith in ap (λ t. take t []) e
take-add (suc n) m (x ∷ xs) =
    let e : suc n + m ≡ suc (n + m) = omega arith in
    ap (λ t. take t (x ∷ xs)) e ∙ ap (λ t. x ∷ t) (take-add n m xs)

-- A slice below a bound does not see what stands from the bound on.
pub slice-take : (xs : List ℕ) (at n m : ℕ) → at + n ≤ m → slice (take m xs) at n ≡ slice xs at n
slice-take xs zero n m h = take-take n m xs (omega arith)
slice-take [] (suc at) n zero h = absurd (omega arith)
slice-take [] (suc at) n (suc m) h = refl
slice-take (x ∷ xs) (suc at) n zero h = absurd (omega arith)
slice-take (x ∷ xs) (suc at) n (suc m) h = slice-take xs at n m (omega arith)

pub slice-add :
    (xs : List ℕ) (at n m : ℕ) → slice xs at (n + m) ≡ slice xs at n ++ slice xs (at + n) m
slice-add xs at n m =
    take-add n m (drop at xs) ∙ ap (λ t. slice xs at n ++ take m t) (drop-drop at n xs)

pub length-slice : (xs : List ℕ) (at n : ℕ) → at + n ≤ length xs → length (slice xs at n) ≡ n
length-slice xs at n h = length-take n (drop at xs) (omega (arith, length-drop at xs (omega arith)))

module _ (io : PosixFile) where
  read_at-slice :
      (file : List ℕ) (want at : ℕ)
      → at + want ≤ length file
      → (read_at io file want at ≡ slice file at (io.read_count file want at))
        × (length (read_at io file want at) ≡ io.read_count file want at)
  unfolding read_at
  read_at-slice file want at h = (
    refl,
    length-slice file at (io.read_count file want at) (omega (arith, (io.read_law file want at).0)),
  )

  read_loop-ok :
      (fuel : ℕ) (file : List ℕ) (want at : ℕ)
      → want ≤ fuel
      → at + want ≤ length file
      → read_loop io fuel file want at ≡ ok (slice file at want)
  unfolding read_loop
  read_loop-ok fuel file zero at h k = refl
  read_loop-ok zero file (suc want) at h k = absurd (omega arith)
  read_loop-ok (suc fuel) file (suc want) at h k =
      let n = io.read_count file (suc want) at in
      let law = io.read_law file (suc want) at in
      let some_read : 0 < n = law.2 (omega arith) (omega arith) in
      let got = read_at-slice file (suc want) at k in
      let moved : nat_beq n 0 ≡ false = ground arith in
      let whole : n + (suc want - n) ≡ suc want = omega (arith, law.0) in
      rw
        (
          got.1,
          read_loop,
          moved,
          got.1,
          got.0,
          read_loop-ok fuel file (suc want - n) (at + n) (omega arith) (omega (arith, law.0)),
        )
        (ap ok (sym (slice-add file at n (suc want - n)) ∙ ap (slice file at) whole))

  -- Whatever the system transfers in one call, a range inside the file is read whole.
  pub read_exact_at-ok :
      (file : List ℕ) (want at : ℕ)
      → at + want ≤ length file
      → read_exact_at io file want at ≡ ok (slice file at want)
  unfolding read_exact_at
  read_exact_at-ok file want at h = read_loop-ok want file want at (omega arith) h
