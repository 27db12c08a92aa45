-- ===== src/Manifest/Sound.antt =====
-- What `decode` of blaze-common/src/manifest.rs accepts.
use blaze_net.Common.{
  ltb, Bool-cases, ◌==◌, nat_eq, bytes_beq_iff, bytes_eq, ok, Ensures, returns, fails, Ensures-bind,
  Ensures-ok, length, take, drop, take-append-drop, All, All-take, le_bytes, IsByte, ℕ, ◌-◌, ◌^◌,
  ◌<◌, ◌≡◌, refl, sym, ap, ◌∙◌, inl, inr, Bool, true, false, List, [], ◌∷◌, ◌++◌, append-nil, arith,
}
use blaze_net.Manifest.Defs.{
  magic, FileEntry, GameIndex, Blake3, DecodeError, bad_magic, trailing_data, hash_mismatch,
  put_u16, put_u32, encode_files, ensure, read_body, decode,
}
use blaze_net.Manifest.Reads.{IsFile}
use blaze_net.Manifest.Took.{
  read_exact-Took, read_u16-Took, read_u32-Took, put_u32-eq, put_u16-eq, read_files-Took,
}
use blaze_net.Manifest.RoundTrip.{IsIndex}

-- The body of an index, with the two bytes that the decoder skips.
abbrev pub layout : ℕ → ℕ → List FileEntry → List ℕ
layout flags version files =
    magic ++ (put_u16 version ++ (put_u16 flags ++ (put_u32 (length files) ++ encode_files files)))

record Body (body : List ℕ) (out : ℕ × List FileEntry) : Type 0 where
  flags : ℕ
  flags_fit : flags < 2 ^ 16
  version_fits : out.0 < 2 ^ 16
  count_fits : length out.1 < 2 ^ 32
  files_ok : All IsFile out.1
  written : body ≡ layout flags out.0 out.1

ensure-Ensures : (b : Bool) (e : DecodeError) → Ensures (λ (u : Unit {0}). b ≡ true) (ensure b e)
ensure-Ensures true e = returns refl
ensure-Ensures false e = fails

nothing_left : (xs : List ℕ) → length xs == 0 ≡ true → xs ≡ []
nothing_left [] h = refl
nothing_left (x ∷ xs) h = absurd (ground arith)

read_body-Body : (body : List ℕ) → All IsByte body → Ensures (Body body) (read_body body)
unfolding read_body
read_body-Body body h = Ensures-bind _ (read_exact-Took 5 body h) λ (m, rest₁) t₁.
    Ensures-bind _ (ensure-Ensures (m == magic) bad_magic) λ _ is_magic.
      Ensures-bind _ (read_u16-Took rest₁ t₁.left) λ (version, rest₂) t₂.
        Ensures-bind _ (read_u16-Took rest₂ t₂.left) λ (flags, rest₃) t₃.
          Ensures-bind _ (read_u32-Took rest₃ t₃.left) λ (file_count, rest₄) t₄.
            Ensures-bind _ (read_files-Took file_count rest₄ t₄.left) λ (files, rest₅) t₅.
              Ensures-bind _ (ensure-Ensures (length rest₅ == 0) trailing_data) λ _ ended.
                returns (record {
                  flags = flags;
                  flags_fit = t₃.good;
                  version_fits = t₂.good;
                  count_fits = rw t₅.good.1 t₄.good;
                  files_ok = t₅.good.0;
                  written =
                      rw
                        (
                          put_u16-eq version t₂.good,
                          put_u16-eq flags t₃.good,
                          t₅.good.1,
                          put_u32-eq file_count t₄.good,
                          ← append-nil (encode_files files),
                          ← nothing_left rest₅ ended,
                        )
                        (t₁.written
                          ∙ ap (λ t. t ++ rest₁) ((bytes_beq_iff m magic).0 is_magic)
                          ∙ ap (λ t. magic ++ t)
                              (t₂.written
                                ∙ ap (λ t. le_bytes 2 version ++ t)
                                    (t₃.written
                                      ∙ ap (λ t. le_bytes 2 flags ++ t)
                                          (t₄.written
                                            ∙ ap (λ t. le_bytes 4 file_count ++ t) t₅.written))));
                })

-- An accepted input: a body in the format, with any flags, and the digest of that body.
abbrev pub Accepted : Blake3 → List ℕ → GameIndex → Type 0
Accepted blake3 bytes index =
    (flags : ℕ) × (flags < 2 ^ 16)
    × (bytes ≡ layout flags index.format_version index.files ++ index.manifest_hash)
    × (index.manifest_hash ≡ blake3.digest (layout flags index.format_version index.files))

module _ (blake3 : Blake3) where
  decode-Ensures :
      (bytes : List ℕ)
      → All IsByte bytes
      → Ensures (λ index. IsIndex index × Accepted blake3 bytes index) (decode blake3 bytes)
  unfolding decode
  decode-Ensures bytes h = elim (Bool-cases (ltb (length bytes) 45)) [
    | inl short ↦ rw short fails
    | inr long ↦
        let at = length bytes - 32 in
        rw long (
          Ensures-bind _ (read_body-Body (take at bytes) (All-take IsByte at bytes h)) λ (v, fs) b.
            Ensures-bind _
              (ensure-Ensures (blake3.digest (take at bytes) == drop at bytes) hash_mismatch)
              λ _ same.
                let sealed = (bytes_beq_iff _ _).0 same in
                returns (
                  record {
                    version_fits = b.version_fits;
                    count_fits = b.count_fits;
                    files_ok = b.files_ok;
                  },
                  (
                    b.flags,
                    b.flags_fit,
                    sym (take-append-drop at bytes) ∙ ap (λ t. t ++ drop at bytes) b.written,
                    sym sealed ∙ ap blake3.digest b.written,
                  ),
                ))
  ]

  -- If `decode` accepts a list of bytes, the index that it returns is well formed, the bytes are
  -- exactly the layout of that index, up to the two flag bytes, with its digest behind, and the
  -- digest is that of the body.
  pub decode_sound :
      (bytes : List ℕ) (index : GameIndex)
      → All IsByte bytes
      → decode blake3 bytes ≡ ok index
      → IsIndex index × Accepted blake3 bytes index
  decode_sound bytes index h e = Ensures-ok (decode-Ensures bytes h) e
