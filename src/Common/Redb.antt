-- ===== src/Common/Redb.antt =====
-- A table of the embedded database redb: what a committed transaction leaves in it. The crate is not
-- part of the repository, so a table is a parameter with the documented laws of its operations.
use mathlib.Core.Path.{◌≡◌, refl}
use mathlib.Core.Bool.{false}
use mathlib.Core.Logic.{inl, inr}
use mathlib.Core.Option.{Option, none, some}
use mathlib.Core.List.{List, [], ◌∷◌}
use native.Mathlib.Omega.{arith}
use blaze_net.Common.Tests.{Eq, ◌==◌, if◌then◌else◌, Bool-cases}
use blaze_net.Common.Lists.{contains, lookup}
use blaze_net.Common.Sets.{Nodup}

abbrev pub keys {ℓ} : {K V : Type ℓ} → List (K × V) → List K
keys [] = []
keys ((k, v) ∷ m) = k ∷ keys m

pub record Table (K V : Type 0) ⦃e : Eq K⦄ : Type 1 where
  pub T : Type 0
  pub empty : T
  pub get : T → K → Option V
  pub insert : T → K → V → T
  pub remove : T → K → T
  pub iter : T → List (K × V)
  pub get-empty : (k : K) → get empty k ≡ none
  pub get-insert :
      (t : T) (k : K) (v : V) (j : K) → get (insert t k v) j ≡ (if k == j then some v else get t j)
  pub get-remove : (t : T) (k j : K) → get (remove t k) j ≡ (if k == j then none else get t j)
  pub lookup-iter : (t : T) (k : K) → lookup k (iter t) ≡ get t k
  pub iter-Nodup : (t : T) → Nodup (keys (iter t))

-- A table that keeps the laws: an association list with the last write in front.
module _ {K V : Type 0} ⦃e : Eq K⦄ where
  unfoldable pub without : K → List (K × V) → List (K × V)
  without k [] = []
  without k ((j, v) ∷ m) = let rest = without k m in if k == j then rest else (j, v) ∷ rest

  unfoldable pub entries : List (K × V) → List (K × V)
  unfolding without
  entries [] = []
  entries ((k, v) ∷ m) = (k, v) ∷ without k (entries m)

  pub lookup-without :
      (k j : K) (m : List (K × V)) → lookup j (without k m) ≡ (if k == j then none else lookup j m)
  unfolding without
  lookup-without k j [] = ground arith
  lookup-without k j ((i, v) ∷ m) =
      ground (arith, lookup-without k j m, e.beq_iff k i, e.beq_iff k j, e.beq_iff i j)

  pub contains-without :
      (k j : K) (m : List (K × V))
      → contains j (keys (without k m)) ≡ (if k == j then false else contains j (keys m))
  unfolding without
  contains-without k j [] = ground arith
  contains-without k j ((i, v) ∷ m) =
      ground (arith, contains-without k j m, e.beq_iff k i, e.beq_iff k j, e.beq_iff i j)

  pub without-Nodup : (k : K) (m : List (K × V)) → Nodup (keys m) → Nodup (keys (without k m))
  unfolding without
  without-Nodup k [] h = tt
  without-Nodup k ((i, v) ∷ m) h = elim (Bool-cases (k == i)) [
    | inl same ↦ rw same (without-Nodup k m h.1)
    | inr other ↦ rw other (ground (arith, contains-without k i m, h.0), without-Nodup k m h.1)
  ]

  pub lookup-entries : (m : List (K × V)) (k : K) → lookup k (entries m) ≡ lookup k m
  unfolding entries
  lookup-entries [] k = refl
  lookup-entries ((j, v) ∷ m) k = ground (arith, lookup-without j k (entries m), lookup-entries m k)

  pub entries-Nodup : (m : List (K × V)) → Nodup (keys (entries m))
  unfolding entries
  entries-Nodup [] = tt
  entries-Nodup ((k, v) ∷ m) = (
    ground (arith, contains-without k k (entries m), e.beq_iff k k),
    without-Nodup k (entries m) (entries-Nodup m),
  )

  unfoldable pub assoc_table : Table K V
  unfolding entries without
  assoc_table = record {
    T = List (K × V);
    empty = [];
    get = λ t k. lookup k t;
    insert = λ t k v. (k, v) ∷ t;
    remove = λ t k. without k t;
    iter = entries;
    get-empty = λ k. refl;
    get-insert = λ t k v j. refl;
    get-remove = λ t k j. lookup-without k j t;
    lookup-iter = lookup-entries;
    iter-Nodup = entries-Nodup;
  }
