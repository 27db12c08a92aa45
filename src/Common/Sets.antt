-- ===== src/Common/Sets.antt =====
-- Hash sets as lists without repetition, membership by Boolean test, and sorting.
use mathlib.Core.Path.{◌≡◌, refl, ap, ◌∙◌}
use mathlib.Core.Bool.{Bool, true, false, ◌&&◌, ◌||◌}
use mathlib.Core.List.{List, [], ◌∷◌, ◌++◌}
use Prim.Native.Nat.{ℕ, compare, Ordering}
use mathlib.Core.Logic.{inl, inr}
use native.Mathlib.Omega.{arith}
use blaze_net.Common.Tests.{Eq, ◌==◌, if◌then◌else◌, Bool-cases}
use blaze_net.Common.Lists.{contains, length}

module _ {ℓ} {A : Type ℓ} ⦃e : Eq A⦄ where
  abbrev pub Nodup : List A → Type 0
  Nodup [] = Unit
  Nodup (x ∷ xs) = (contains x xs ≡ false) × Nodup xs

  pub contains-append :
      (a : A) (xs ys : List A) → contains a (xs ++ ys) ≡ (contains a xs || contains a ys)
  contains-append a [] ys = refl
  contains-append a (x ∷ xs) ys = ground (arith, contains-append a xs ys)

  pub Nodup-snoc : (xs : List A) (a : A) → Nodup xs → contains a xs ≡ false → Nodup (xs ++ a ∷ [])
  Nodup-snoc [] a h n = (refl, tt)
  Nodup-snoc (x ∷ xs) a h n = (
    ground (arith, contains-append x xs (a ∷ []), e.beq_iff a x, e.beq_iff x a, h.0),
    Nodup-snoc xs a h.1 (ground arith),
  )

  -- `HashSet::insert`.
  unfoldable pub set_insert : A → List A → List A
  set_insert a xs = if contains a xs then xs else a ∷ xs

  pub contains-set_insert :
      (b a : A) (xs : List A) → contains b (set_insert a xs) ≡ (a == b || contains b xs)
  unfolding set_insert
  contains-set_insert b a xs = ground (arith, e.beq_iff a b)

  pub set_insert-Nodup : (a : A) (xs : List A) → Nodup xs → Nodup (set_insert a xs)
  unfolding set_insert
  set_insert-Nodup a xs h = elim (Bool-cases (contains a xs)) [
    | inl old ↦ rw old h
    | inr new ↦ rw new (new, h)
  ]

  -- `collect` into a `HashSet`.
  unfoldable pub to_set : List A → List A
  to_set [] = []
  to_set (x ∷ xs) = set_insert x (to_set xs)

  pub contains-to_set : (a : A) (xs : List A) → contains a (to_set xs) ≡ contains a xs
  unfolding to_set
  contains-to_set a [] = refl
  contains-to_set a (x ∷ xs) =
      contains-set_insert a x (to_set xs) ∙ ap (λ t. x == a || t) (contains-to_set a xs)

  pub to_set-Nodup : (xs : List A) → Nodup (to_set xs)
  unfolding to_set
  to_set-Nodup [] = tt
  to_set-Nodup (x ∷ xs) = set_insert-Nodup x (to_set xs) (to_set-Nodup xs)

-- `filter` and `retain` by a Boolean test.
unfoldable pub keep {ℓ} : {A : Type ℓ} → (A → Bool) → List A → List A
keep p [] = []
keep p (x ∷ xs) = let rest = keep p xs in if p x then x ∷ rest else rest

module _ {ℓ} {A : Type ℓ} ⦃e : Eq A⦄ (p : A → Bool) where
  pub contains-keep : (a : A) (xs : List A) → contains a (keep p xs) ≡ (contains a xs && p a)
  unfolding keep
  contains-keep a [] = refl
  contains-keep a (x ∷ xs) = elim (Bool-cases (x == a)) [
    | inl same ↦ rw ((e.beq_iff x a).0 same) (ground (arith, contains-keep a xs, e.beq_iff a a))
    | inr other ↦ ground (arith, contains-keep a xs)
  ]

  pub keep-Nodup : (xs : List A) → Nodup xs → Nodup (keep p xs)
  unfolding keep
  keep-Nodup [] h = tt
  keep-Nodup (x ∷ xs) h = elim (Bool-cases (p x)) [
    | inl pass ↦ rw pass (ground (arith, contains-keep x xs, h.0), keep-Nodup xs h.1)
    | inr fail ↦ rw fail (keep-Nodup xs h.1)
  ]

-- A stable sort by insertion: the result that `sort` promises.
module _ {ℓ} {A : Type ℓ} (le : A → A → Bool) where
  unfoldable pub insert_sorted : A → List A → List A
  insert_sorted a [] = a ∷ []
  insert_sorted a (x ∷ xs) =
      let rest = insert_sorted a xs in if le a x then a ∷ x ∷ xs else x ∷ rest

  unfoldable pub sort : List A → List A
  sort [] = []
  sort (x ∷ xs) = insert_sorted x (sort xs)

  abbrev pub IsSorted : List A → Type 0
  IsSorted [] = Unit
  IsSorted (x ∷ []) = Unit
  IsSorted (x ∷ y ∷ ys) = (le x y ≡ true) × IsSorted (y ∷ ys)

  module _ (total : (a b : A) → le a b ≡ false → le b a ≡ true) where
    insert_sorted-IsSorted : (a : A) (xs : List A) → IsSorted xs → IsSorted (insert_sorted a xs)
    unfolding insert_sorted
    insert_sorted-IsSorted a [] h = tt
    insert_sorted-IsSorted a (x ∷ []) h = elim (Bool-cases (le a x)) [
      | inl y ↦ rw y (y, tt)
      | inr n ↦ rw n (total a x n, tt)
    ]
    insert_sorted-IsSorted a (x ∷ y ∷ ys) h = elim (Bool-cases (le a x)) [
      | inl p ↦ rw p (p, h)
      | inr n ↦ elim (Bool-cases (le a y)) [
        | inl p ↦ rw (n, p) (total a x n, (p, h.1))
        | inr m ↦ rw (n, m) (h.0, rw m at (insert_sorted-IsSorted a (y ∷ ys) h.1))
      ]
    ]

    pub sort-IsSorted : (xs : List A) → IsSorted (sort xs)
    unfolding sort
    sort-IsSorted [] = tt
    sort-IsSorted (x ∷ xs) = insert_sorted-IsSorted x (sort xs) (sort-IsSorted xs)

  pub length-insert_sorted : (a : A) (xs : List A) → length (insert_sorted a xs) ≡ length (a ∷ xs)
  unfolding insert_sorted
  length-insert_sorted a [] = refl
  length-insert_sorted a (x ∷ xs) = ground (arith, length-insert_sorted a xs)

  pub length-sort : (xs : List A) → length (sort xs) ≡ length xs
  unfolding sort
  length-sort [] = refl
  length-sort (x ∷ xs) = omega (arith, length-insert_sorted x (sort xs), length-sort xs)

module _ {ℓ} {A : Type ℓ} ⦃e : Eq A⦄ (le : A → A → Bool) where
  pub contains-insert_sorted :
      (b a : A) (xs : List A) → contains b (insert_sorted le a xs) ≡ (a == b || contains b xs)
  unfolding insert_sorted
  contains-insert_sorted b a [] = refl
  contains-insert_sorted b a (x ∷ xs) = ground (arith, contains-insert_sorted b a xs)

  pub contains-sort : (a : A) (xs : List A) → contains a (sort le xs) ≡ contains a xs
  unfolding sort
  contains-sort a [] = refl
  contains-sort a (x ∷ xs) =
      contains-insert_sorted a x (sort le xs) ∙ ap (λ t. x == a || t) (contains-sort a xs)

  insert_sorted-Nodup :
      (a : A) (xs : List A) → contains a xs ≡ false → Nodup xs → Nodup (insert_sorted le a xs)
  unfolding insert_sorted
  insert_sorted-Nodup a [] n h = (refl, tt)
  insert_sorted-Nodup a (x ∷ xs) n h = elim (Bool-cases (le a x)) [
    | inl p ↦ rw p (n, h)
    | inr q ↦ rw q (
      ground (arith, contains-insert_sorted x a xs, e.beq_iff a x, e.beq_iff x a, h.0),
      insert_sorted-Nodup a xs (ground arith) h.1,
    )
  ]

  pub sort-Nodup : (xs : List A) → Nodup xs → Nodup (sort le xs)
  unfolding sort
  sort-Nodup [] h = tt
  sort-Nodup (x ∷ xs) h =
      insert_sorted-Nodup x (sort le xs) (contains-sort x xs ∙ h.0) (sort-Nodup xs h.1)

-- The order of strings and of byte arrays: by the first element that differs.
unfoldable pub bytes_leb : List ℕ → List ℕ → Bool
bytes_leb [] ys = true
bytes_leb (x ∷ xs) [] = false
bytes_leb (x ∷ xs) (y ∷ ys) =
    let rest = bytes_leb xs ys in
    elim (compare x y) [ Ordering.lt ↦ true | Ordering.gt ↦ false | Ordering.eq ↦ rest ]

pub bytes_leb_total : (xs ys : List ℕ) → bytes_leb xs ys ≡ false → bytes_leb ys xs ≡ true
unfolding bytes_leb
bytes_leb_total [] ys h = cc
bytes_leb_total (x ∷ xs) [] h = refl
bytes_leb_total (x ∷ xs) (y ∷ ys) h = ground (arith, bytes_leb_total xs ys)
