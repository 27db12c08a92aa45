-- ===== src/Plan/Files.antt =====
-- Which files the update plan of blaze-common/src/update_plan.rs adds, replaces and deletes.
use blaze_net.Common.{
  if◌then◌else◌, Bool-cases, ◌==◌, nat_eq, bytes_beq_iff, bytes_eq, to_set, keep, bytes_leb, Nodup,
  contains-append, contains-to_set, to_set-Nodup, contains-keep, keep-Nodup, IsSorted,
  sort-IsSorted, contains-sort, sort-Nodup, bytes_leb_total, contains, lookup, ℕ, ◌≡◌, refl, ap,
  ◌∙◌, inl, inr, Bool, true, false, not, ◌&&◌, ◌||◌, Option, none, some, List, [], ◌∷◌, ◌++◌, arith,
}
use blaze_net.Plan.Defs.{
  files_of, FileMap, collect_files, names, is_new, is_changed, sort_files, deleted_names, compute,
}
use blaze_net.Manifest.Defs.{Hash, FileEntry, GameIndex}

abbrev found {ℓ} : {A : Type ℓ} → Option A → Bool
found none = false
found (some a) = true

lookup-collect_files :
    (n : List ℕ) (m : FileMap) (fs : List FileEntry)
    → found (lookup n (collect_files m fs)) ≡ (found (lookup n m) || contains n (names fs))
unfolding collect_files names
lookup-collect_files n m [] = ground arith
lookup-collect_files n m (f ∷ fs) = ground (arith, lookup-collect_files n ((f.name, f) ∷ m) fs)

is_new_iff :
    (old : List FileEntry) (f : FileEntry)
    → is_new (collect_files [] old) f ≡ not (contains f.name (names old))
unfolding is_new
is_new_iff old f = ground (arith, lookup-collect_files f.name [] old)

contains-sort_files :
    (old : FileMap) (n : List ℕ) (download update : List (List ℕ)) (fs : List FileEntry)
    → (contains n (sort_files old (download, update) fs).0
        ≡ (contains n download || contains n (names (keep (is_new old) fs))))
      × (contains n (sort_files old (download, update) fs).1
          ≡ (contains n update || contains n (names (keep (is_changed old) fs))))
unfolding sort_files names keep
contains-sort_files old n download update [] = (ground arith, ground arith)
contains-sort_files old n download update (f ∷ fs) =
    let rest =
      contains-sort_files old n (if is_new old f then download ++ f.name ∷ [] else download)
        (if is_changed old f then update ++ f.name ∷ [] else update) fs in
    (
      ground (arith, rest.0, contains-append n download (f.name ∷ [])),
      ground (arith, rest.1, contains-append n update (f.name ∷ [])),
    )

-- A test that looks at names alone keeps the same names.
names-keep :
    (p : FileEntry → Bool) (q : List ℕ → Bool) (fs : List FileEntry)
    → ((f : FileEntry) → p f ≡ q f.name)
    → names (keep p fs) ≡ keep q (names fs)
unfolding names keep
names-keep p q [] h = refl
names-keep p q (f ∷ fs) h = elim (Bool-cases (q f.name)) [
  | inl y ↦ rw (h f, y) (ap (λ t. f.name ∷ t) (names-keep p q fs h))
  | inr y ↦ rw (h f, y) (names-keep p q fs h)
]

-- A name is downloaded exactly when the new version has it and the old version does not.
pub files_to_download_exact :
    (new : GameIndex) (old : Option GameIndex) (temp : List Hash) (n : List ℕ)
    → contains n (compute new old temp).files_to_download
      ≡ (contains n (names new.files) && not (contains n (names (files_of old))))
unfolding compute
files_to_download_exact new old temp n =
    let absent = λ (m : List ℕ). not (contains m (names (files_of old))) in
    (contains-sort_files (collect_files [] (files_of old)) n [] [] new.files).0
    ∙ ap (contains n) (names-keep _ absent new.files (is_new_iff (files_of old)))
    ∙ contains-keep absent n (names new.files)

-- A name is deleted exactly when the old version has it and the new version does not; the names
-- stand in order and none stands twice.
pub files_to_delete_exact :
    (new : GameIndex) (old : Option GameIndex) (temp : List Hash)
    → ((n : List ℕ)
        → contains n (compute new old temp).files_to_delete
          ≡ (contains n (names (files_of old)) && not (contains n (names new.files))))
      × Nodup (compute new old temp).files_to_delete
      × IsSorted bytes_leb (compute new old temp).files_to_delete
unfolding compute deleted_names
files_to_delete_exact new old temp =
    let old_names = names (files_of old) in
    let gone = λ (n : List ℕ). not (contains n (names new.files)) in
    (
      λ n.
          contains-sort bytes_leb n (keep gone (to_set old_names))
          ∙ contains-keep gone n (to_set old_names)
          ∙ ap (λ t. t && gone n) (contains-to_set n old_names),
      sort-Nodup bytes_leb _ (keep-Nodup gone _ (to_set-Nodup old_names)),
      sort-IsSorted bytes_leb bytes_leb_total _,
    )

-- The entry of a name, in a version where no name stands twice.
unfoldable pub entry_of : List ℕ → List FileEntry → Option FileEntry
entry_of n [] = none
entry_of n (f ∷ fs) = if f.name == n then some f else entry_of n fs

-- Both versions have the file, with different contents.
unfoldable pub differs : Option FileEntry → Option FileEntry → Bool
differs (some a) (some b) = not (a.file_hash == b.file_hash)
differs (some a) none = false
differs none b = false

entry_of-absent :
    (n : List ℕ) (fs : List FileEntry) → contains n (names fs) ≡ false → entry_of n fs ≡ none
unfolding entry_of names
entry_of-absent n [] h = refl
entry_of-absent n (f ∷ fs) h = ground (arith, entry_of-absent n fs)

abbrev or_else : Option FileEntry → Option FileEntry → Option FileEntry
or_else (some a) b = some a
or_else none b = b

lookup-collect_files_entry :
    (n : List ℕ) (m : FileMap) (fs : List FileEntry)
    → Nodup (names fs)
    → lookup n (collect_files m fs) ≡ or_else (entry_of n fs) (lookup n m)
unfolding collect_files names entry_of
lookup-collect_files_entry n m [] h = refl
lookup-collect_files_entry n m (f ∷ fs) h =
    lookup-collect_files_entry n ((f.name, f) ∷ m) fs h.1 ∙ elim (Bool-cases (f.name == n)) [
      | inl same ↦
          rw (same, entry_of-absent n fs (rw ((bytes_beq_iff f.name n).0 same) at h.0)) refl
      | inr other ↦ rw other refl
    ]

-- With unique names, what is kept under a name is what the test says of its entry.
contains-names-keep :
    (p : FileEntry → Bool) (n : List ℕ) (fs : List FileEntry)
    → Nodup (names fs)
    → contains n (names (keep p fs)) ≡ elim (entry_of n fs) [ none ↦ false | some f ↦ p f ]
unfolding names keep entry_of
contains-names-keep p n [] h = refl
contains-names-keep p n (f ∷ fs) h = elim (Bool-cases (f.name == n)) [
  | inl same ↦
      let gone = entry_of-absent n fs (rw ((bytes_beq_iff f.name n).0 same) at h.0) in
      ground (arith, contains-names-keep p n fs h.1, gone)
  | inr other ↦ ground (arith, contains-names-keep p n fs h.1)
]

entry_of-name :
    (n : List ℕ) (fs : List FileEntry) (f : FileEntry) → entry_of n fs ≡ some f → f.name ≡ n
unfolding entry_of
entry_of-name n [] f h = cc
entry_of-name n (g ∷ fs) f h = elim (Bool-cases (g.name == n)) [
  | inl same ↦
      let e : some g ≡ some f = (rw same at h) in ground (arith, (bytes_beq_iff g.name n).0 same)
  | inr other ↦ entry_of-name n fs f (rw other at h)
]

is_changed-differs :
    (old : List FileEntry) (f : FileEntry)
    → Nodup (names old)
    → is_changed (collect_files [] old) f ≡ differs (entry_of f.name old) (some f)
unfolding is_changed differs
is_changed-differs old f k = ground (arith, lookup-collect_files_entry f.name [] old k)

changed_entry :
    (old new : List FileEntry) (n : List ℕ) (o : Option FileEntry)
    → Nodup (names old)
    → entry_of n new ≡ o
    → elim o [ none ↦ false | some f ↦ is_changed (collect_files [] old) f ]
      ≡ differs (entry_of n old) o
changed_entry old new n none k e = unfold differs in ground arith
changed_entry old new n (some f) k e = is_changed-differs old f k ∙ rw (entry_of-name n new f e)

-- In versions whose names are unique, a name is updated exactly when both versions have it and its
-- file hashes differ.
pub files_to_update_exact :
    (new : GameIndex) (old : Option GameIndex) (temp : List Hash) (n : List ℕ)
    → Nodup (names new.files)
    → Nodup (names (files_of old))
    → contains n (compute new old temp).files_to_update
      ≡ differs (entry_of n (files_of old)) (entry_of n new.files)
unfolding compute is_changed
files_to_update_exact new old temp n h k =
    (contains-sort_files (collect_files [] (files_of old)) n [] [] new.files).1
    ∙ contains-names-keep (is_changed (collect_files [] (files_of old))) n new.files h
    ∙ changed_entry (files_of old) new.files n (entry_of n new.files) k refl
