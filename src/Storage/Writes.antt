-- ===== src/Storage/Writes.antt =====
-- The loop of origin/src/storage.rs that writes a whole buffer.
use blaze_net.Common.{
  if◌then◌else◌, Bool-cases, ◌==◌, nat_eq, bytes_eq, Result, ok, err, length, length-append, take,
  drop, take-append, drop-append, take-append-drop, length-take, length-drop, ℕ, zero, suc, ◌+◌,
  ◌-◌, ◌≤◌, ◌<◌, ◌≡◌, refl, sym, ap, ◌∙◌, ◌≢◌, inl, inr, Option, none, some, List, [], ◌∷◌, ◌++◌,
  append-nil, arith,
}
use blaze_net.Storage.Files.{
  IoError, write_zero, out_of_fuel, overlay, PosixFile, slice, after_write, write_loop,
  write_exact_at,
}
use blaze_net.Storage.Loops.{take-take, slice-take, slice-add}

-- What a file is after a whole buffer was written at an offset inside it: all in front of the
-- offset is kept, and the buffer stands behind.
pub record Written (file : List ℕ) (at : ℕ) (buf file' : List ℕ) : Type 0 where
  pub kept : take at file' ≡ take at file
  pub stored : slice file' at (length buf) ≡ buf
  pub reached : at + length buf ≤ length file'

pub overlay-Written :
    (file : List ℕ) (at : ℕ) (buf : List ℕ)
    → at ≤ length file
    → Written file at buf (overlay file at buf)
overlay-Written file at [] h = record { kept = refl; stored = refl; reached = omega arith }
overlay-Written file at (b ∷ bs) h =
    let buf = b ∷ bs in
    let back = drop (at + length buf) file in
    let size = length-take at file h in
    let nothing : at - length file ≡ 0 = omega arith in
    rw (nothing, append-nil (take at file))
      (record {
        kept = take-append (take at file) (buf ++ back) at size;
        stored =
            rw (drop-append (take at file) (buf ++ back) at size)
              (take-append buf back (length buf) refl);
        reached =
            omega (arith, length-append (take at file) (buf ++ back), length-append buf back, size);
      })

-- A part of the buffer, and then the rest of it behind the part.
Written-trans :
    {file file₁ file₂ : List ℕ} (at n : ℕ) (buf : List ℕ)
    → n ≤ length buf
    → Written file at (take n buf) file₁
    → Written file₁ (at + n) (drop n buf) file₂
    → Written file at buf file₂
Written-trans {file} {file₁} {file₂} at n buf h first second =
    let size = length-take n buf h in
    let rest = length-drop n buf h in
    let whole : n + length (drop n buf) ≡ length buf = omega (arith, rest) in
    let same : slice file₂ at n ≡ slice file₁ at n =
      sym (slice-take file₂ at n (at + n) (omega arith))
      ∙ ap (λ t. slice t at n) second.kept
      ∙ slice-take file₁ at n (at + n) (omega arith) in
    record {
      kept =
          sym (take-take at (at + n) file₂ (omega arith))
          ∙ ap (take at) second.kept
          ∙ take-take at (at + n) file₁ (omega arith)
          ∙ first.kept;
      stored =
          ap (slice file₂ at) (sym whole)
          ∙ slice-add file₂ at n (length (drop n buf))
          ∙ ap (λ t. t ++ slice file₂ (at + n) (length (drop n buf)))
              (same ∙ ap (slice file₁ at) (sym size) ∙ first.stored)
          ∙ ap (λ t. take n buf ++ t) second.stored
          ∙ take-append-drop n buf;
      reached = omega (arith, second.reached, rest);
    }

module _ (io : PosixFile) where
  -- What a finished write loop leaves: the whole buffer on success; on an error of the system at
  -- least all in front of the offset. The fuel does not run out.
  abbrev pub Outcome : List ℕ → ℕ → List ℕ → Result IoError (Unit {0}) × List ℕ → Type 0
  Outcome file at buf (ok u, file') = Written file at buf file'
  Outcome file at buf (err e, file') =
      (e ≢ out_of_fuel) × (take at file' ≡ take at file) × (at ≤ length file')

  -- An outcome behind a first part of the buffer that was written.
  Outcome-after :
      {file file₁ : List ℕ} (at n : ℕ) (buf : List ℕ)
      → n ≤ length buf
      → Written file at (take n buf) file₁
      → (out : Result IoError (Unit {0}) × List ℕ) → Outcome file₁ (at + n) (drop n buf) out
      → Outcome file at buf out
  Outcome-after at n buf h first (ok u, file₂) second = Written-trans at n buf h first second
  Outcome-after {file} {file₁} at n buf h first (err e, file₂) (fuel, same, far) = (
    fuel,
    sym (take-take at (at + n) file₂ (omega arith))
        ∙ ap (take at) same
        ∙ take-take at (at + n) file₁ (omega arith)
        ∙ first.kept,
    omega arith,
  )

  after_write-eq :
      (go_on : List ℕ → ℕ → Result IoError (Unit {0}) × List ℕ) (file file' : List ℕ) (n : ℕ)
      → after_write io go_on file (some (file', n))
        ≡ (if n == 0 then (err write_zero, file') else go_on file' n)
  unfolding after_write
  after_write-eq go_on file file' n = ground arith

  after_write-Outcome :
      (go_on : List ℕ → ℕ → Result IoError (Unit {0}) × List ℕ) (file buf : List ℕ) (at : ℕ)
      (w : Option (List ℕ × ℕ))
      → at ≤ length file
      → ((file' : List ℕ) (n : ℕ)
          → w ≡ some (file', n)
          → (n ≤ length buf) × (file' ≡ overlay file at (take n buf)))
      → ((file' : List ℕ) (n : ℕ)
          → 0 < n
          → n ≤ length buf
          → at + n ≤ length file'
          → Outcome file' (at + n) (drop n buf) (go_on file' n))
      → Outcome file at buf (after_write io go_on file w)
  after_write-Outcome go_on file buf at none k law next = unfold after_write in ((λ p. cc), refl, k)
  after_write-Outcome go_on file buf at (some (file', n)) k law next =
      let part = law file' n refl in
      let size = length-take n buf part.0 in
      let first : Written file at (take n buf) file' =
        (rw part.1 (overlay-Written file at (take n buf) k)) in
      elim (Bool-cases (n == 0)) [
        | inl stopped ↦
            rw (after_write-eq go_on file file' n, stopped)
              ((λ p. cc), first.kept, omega (arith, first.reached))
        | inr moved ↦
            rw (after_write-eq go_on file file' n, moved)
              (Outcome-after at n buf part.0 first (go_on file' n)
                (next file' n (ground arith) part.0 (omega (arith, first.reached, size))))
      ]

  write_loop-Outcome :
      (fuel : ℕ) (file buf : List ℕ) (at : ℕ)
      → length buf ≤ fuel
      → at ≤ length file
      → Outcome file at buf (write_loop io fuel file buf at)
  unfolding write_loop
  write_loop-Outcome fuel file [] at h k = record {
    kept = refl;
    stored = refl;
    reached = omega arith;
  }
  write_loop-Outcome zero file (b ∷ bs) at h k = absurd (omega arith)
  write_loop-Outcome (suc fuel) file (b ∷ bs) at h k =
      after_write-Outcome _ file (b ∷ bs) at (io.write_at file (b ∷ bs) at) k
        (io.write_law file (b ∷ bs) at)
        λ file' n p q r.
          write_loop-Outcome fuel file' (drop n (b ∷ bs)) (at + n)
            (omega (arith, length-drop n (b ∷ bs) q)) r

  -- However few bytes each call of the system writes, the loop comes to an end without running out
  -- of fuel: if it succeeds at an offset inside the file, the whole buffer stands there; if it
  -- fails, all in front of the offset is kept.
  pub write_exact_at-Outcome :
      (file buf : List ℕ) (at : ℕ)
      → at ≤ length file
      → Outcome file at buf (write_exact_at io file buf at)
  unfolding write_exact_at
  write_exact_at-Outcome file buf at k = write_loop-Outcome (length buf) file buf at (omega arith) k
