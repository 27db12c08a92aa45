-- ===== src/Manifest/Took.antt =====
-- What the readers of blaze-common/src/manifest.rs took off the front of their input.
use native.Mathlib.Nat.{mod-eq_of_lt}
use blaze_net.Common.{
  ltb, Bool-cases, nat_eq, bytes_eq, Ensures, returns, fails, Ensures-bind, length,
  take-append-drop, length-take, All, All-take, All-drop, le_bytes, is_utf8, IsByte, from_le-lt,
  le_bytes-from_le, ℕ, zero, suc, ◌^◌, ◌<◌, ◌≡◌, refl, sym, ap, ◌∙◌, inl, inr, true, List, [], ◌∷◌,
  ◌++◌, append-nil, append_assoc, arith,
}
use blaze_net.Manifest.Defs.{
  FileEntry, put_u16, put_u32, encode_chunks, encode_files, read_exact, read_u16, read_u32,
  read_chunks, from_utf8, read_file, read_files,
}
use blaze_net.Manifest.Reads.{IsChunk, IsFile}

-- The reader took the encoding of a good value off the front of the input.
pub record Took {A : Type 0} (enc : A → List ℕ) (P : A → Type 0) (input : List ℕ) (out : A × List ℕ)
    : Type 0 where
  pub written : input ≡ enc out.0 ++ out.1
  pub good : P out.0
  pub left : All IsByte out.1

pub read_exact-Took :
    (n : ℕ) (input : List ℕ)
    → All IsByte input
    → Ensures (Took (λ v. v) (λ v. All IsByte v × (length v ≡ n)) input) (read_exact n input)
unfolding read_exact
read_exact-Took n input h = elim (Bool-cases (ltb (length input) n)) [
  | inl short ↦ rw short fails
  | inr long ↦ rw long (
      returns (record {
        written = sym (take-append-drop n input);
        good = (All-take IsByte n input h, length-take n input (ground arith));
        left = All-drop IsByte n input h;
      }))
]

pub read_u16-Took :
    (input : List ℕ)
    → All IsByte input
    → Ensures (Took (le_bytes 2) (λ n. n < 2 ^ 16) input) (read_u16 input)
unfolding read_u16
read_u16-Took input h = Ensures-bind _ (read_exact-Took 2 input h) λ (buf, rest) t.
    returns (record {
      written = cc (t.written, le_bytes-from_le buf t.good.0, t.good.1);
      good = rw t.good.1 at (from_le-lt buf t.good.0);
      left = t.left;
    })

pub read_u32-Took :
    (input : List ℕ)
    → All IsByte input
    → Ensures (Took (le_bytes 4) (λ n. n < 2 ^ 32) input) (read_u32 input)
unfolding read_u32
read_u32-Took input h = Ensures-bind _ (read_exact-Took 4 input h) λ (buf, rest) t.
    returns (record {
      written = cc (t.written, le_bytes-from_le buf t.good.0, t.good.1);
      good = rw t.good.1 at (from_le-lt buf t.good.0);
      left = t.left;
    })

pub put_u32-eq : (n : ℕ) → n < 2 ^ 32 → put_u32 n ≡ le_bytes 4 n
put_u32-eq n h = rw (mod-eq_of_lt h)

pub put_u16-eq : (n : ℕ) → n < 2 ^ 16 → put_u16 n ≡ le_bytes 2 n
put_u16-eq n h = rw (mod-eq_of_lt h)

pub read_chunks-Took :
    (n : ℕ) (input : List ℕ)
    → All IsByte input
    → Ensures
        (Took encode_chunks (λ cs. All IsChunk cs × (length cs ≡ n)) input)
        (read_chunks n input)
unfolding read_chunks encode_chunks
read_chunks-Took zero input h = returns (record { written = refl; good = (tt, refl); left = h })
read_chunks-Took (suc n) input h = Ensures-bind _ (read_exact-Took 32 input h) λ (hash, rest₁) t₁.
    Ensures-bind _ (read_u32-Took rest₁ t₁.left) λ (len, rest₂) t₂.
      Ensures-bind _ (read_chunks-Took n rest₂ t₂.left) λ (more, rest₃) t₃. returns (record {
        written = simp append_assoc (
            rw (put_u32-eq len t₂.good) (
              t₁.written
              ∙ ap (λ t. hash ++ t) (t₂.written ∙ ap (λ t. le_bytes 4 len ++ t) t₃.written)));
        good = ((record { hash_ok = t₁.good; len_fits = t₂.good }, t₃.good.0), ap suc t₃.good.1);
        left = t₃.left;
      })

pub from_utf8-Took :
    (bytes : List ℕ)
    → Ensures (λ (name : List ℕ). (name ≡ bytes) × (is_utf8 name ≡ true)) (from_utf8 bytes)
unfolding from_utf8
from_utf8-Took bytes = elim (Bool-cases (is_utf8 bytes)) [
  | inl valid ↦ rw valid (returns (refl, valid))
  | inr broken ↦ rw broken fails
]

pub encode_file : FileEntry → List ℕ
encode_file f = encode_files (f ∷ [])

pub read_file-Took :
    (input : List ℕ) → All IsByte input → Ensures (Took encode_file IsFile input) (read_file input)
unfolding read_file encode_file encode_files
read_file-Took input h = Ensures-bind _ (read_u16-Took input h) λ (name_len, rest₁) t₁.
    Ensures-bind _ (read_exact-Took name_len rest₁ t₁.left) λ (bytes, rest₂) t₂.
      Ensures-bind _ (from_utf8-Took bytes) λ name u.
        Ensures-bind _ (read_exact-Took 32 rest₂ t₂.left) λ (file_hash, rest₃) t₃.
          Ensures-bind _ (read_u32-Took rest₃ t₃.left) λ (chunk_count, rest₄) t₄.
            Ensures-bind _ (read_chunks-Took chunk_count rest₄ t₄.left) λ (chunks, rest₅) t₅.
              let named : length name ≡ name_len = ap length u.0 ∙ t₂.good.1 in
              returns (record {
                written =
                    rw
                      (
                        named,
                        put_u16-eq name_len t₁.good,
                        u.0,
                        t₅.good.1,
                        put_u32-eq chunk_count t₄.good,
                      )
                      (simp (append_assoc, append-nil)
                        (t₁.written
                          ∙ ap (λ t. le_bytes 2 name_len ++ t)
                              (t₂.written
                                ∙ ap (λ t. bytes ++ t)
                                    (t₃.written
                                      ∙ ap (λ t. file_hash ++ t)
                                          (t₄.written
                                            ∙ ap (λ t. le_bytes 4 chunk_count ++ t) t₅.written)))));
                good = record {
                  name_bytes = rw u.0 t₂.good.0;
                  name_utf8 = u.1;
                  name_fits = rw named t₁.good;
                  file_hash_ok = t₃.good;
                  count_fits = rw t₅.good.1 t₄.good;
                  chunks_ok = t₅.good.0;
                };
                left = t₅.left;
              })

pub read_files-Took :
    (n : ℕ) (input : List ℕ)
    → All IsByte input
    → Ensures (Took encode_files (λ fs. All IsFile fs × (length fs ≡ n)) input) (read_files n input)
unfolding read_files encode_files encode_file
read_files-Took zero input h = returns (record { written = refl; good = (tt, refl); left = h })
read_files-Took (suc n) input h = Ensures-bind _ (read_file-Took input h) λ (file, rest₁) t₁.
    Ensures-bind _ (read_files-Took n rest₁ t₁.left) λ (more, rest₂) t₂. returns (record {
      written =
          simp (append_assoc) (
            simp append_assoc at (t₁.written ∙ ap (λ t. encode_files (file ∷ []) ++ t) t₂.written));
      good = ((t₁.good, t₂.good.0), ap suc t₂.good.1);
      left = t₂.left;
    })
