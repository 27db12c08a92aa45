-- ===== src/Scheduler/Db/Bindings.antt =====
-- The table of bindings of scheduler/src/db.rs after some calls of `bind`.
use blaze_net.Common.{
  Bool-cases, ◌==◌, beq_refl, bytes_beq, bytes_beq_iff, bytes_eq, nat_eq, All, contains, ℕ, ◌<◌,
  ◌≡◌, refl, sym, ap, ◌∙◌, inl, inr, Bool, true, false, ◌&&◌, ◌||◌, some, List, [], ◌∷◌, ◌++◌,
  append_assoc, arith,
}
use blaze_net.Scheduler.Db.Records.{Text, codes, u64_mod, decimal}
use blaze_net.Scheduler.Db.Accounts.{strip_prefix, parse_u64, binding_key}
use blaze_net.Scheduler.Db.Decimals.{none_apart, some_injective, parse_u64-decimal, slash-decimal}

-- The three kinds of bindings.
pub data Kind : Type 0 where
  user_place user_group group_place : Kind

abbrev pub name_of : Kind → Text
name_of user_place = codes "user_place"
name_of user_group = codes "user_group"
name_of group_place = codes "group_place"

abbrev pub same_kind : Kind → Kind → Bool
same_kind user_place user_place = true
same_kind user_group user_group = true
same_kind group_place group_place = true
same_kind _ _ = false

abbrev pub Binding : Type 0
Binding = Kind × (ℕ × ℕ)

-- One of the bindings was made.
abbrev pub has_binding : Kind → ℕ → ℕ → List Binding → Bool
has_binding k a c [] = false
has_binding k a c ((j, (b, d)) ∷ bs) = (same_kind j k && (b == a && d == c)) || has_binding k a c bs

abbrev pub InRange : Binding → Type 0
InRange (k, (a, c)) = (a < u64_mod) × (c < u64_mod)

abbrev pub key_of : Binding → Text
key_of (k, (a, c)) = binding_key (name_of k) a c

abbrev pub prefix_of : Kind → ℕ → Text
prefix_of k a = name_of k ++ codes "/" ++ decimal a ++ codes "/"

pub or_true : (b : Bool) → b || true ≡ true
or_true true = refl
or_true false = refl

kind_apart :
    (k j : Kind) (prefix rest tail : Text)
    → strip_prefix (name_of k ++ (codes "/" ++ prefix)) (name_of j ++ (codes "/" ++ rest))
      ≡ some tail
    → (same_kind j k ≡ true) × (strip_prefix prefix rest ≡ some tail)
unfolding strip_prefix
kind_apart user_place user_place prefix rest tail e = (refl, e)
kind_apart user_group user_group prefix rest tail e = (refl, e)
kind_apart group_place group_place prefix rest tail e = (refl, e)
kind_apart user_place user_group prefix rest tail e = absurd (none_apart e)
kind_apart user_place group_place prefix rest tail e = absurd (none_apart e)
kind_apart user_group user_place prefix rest tail e = absurd (none_apart e)
kind_apart user_group group_place prefix rest tail e = absurd (none_apart e)
kind_apart group_place user_place prefix rest tail e = absurd (none_apart e)
kind_apart group_place user_group prefix rest tail e = absurd (none_apart e)

regroup : (n s a t : Text) → ((n ++ s) ++ a) ++ t ≡ n ++ (s ++ (a ++ t))
regroup n s a t = append_assoc (n ++ s) a t ∙ append_assoc n s (a ++ t)

regroup_tail : (n s a t c : Text) → (n ++ (s ++ (a ++ t))) ++ c ≡ n ++ (s ++ (a ++ (t ++ c)))
regroup_tail n s a t c =
    append_assoc n (s ++ (a ++ t)) c
    ∙ ap (λ x. n ++ x) (append_assoc s (a ++ t) c ∙ ap (λ x. s ++ x) (append_assoc a t c))

-- A key that is read as an id behind a prefix is the key of that binding.
key_read :
    (k : Kind) (a c : ℕ) (x : Binding) (tail : Text)
    → a < u64_mod
    → InRange x
    → strip_prefix (prefix_of k a) (key_of x) ≡ some tail
    → parse_u64 tail ≡ some c
    → (same_kind x.0 k && (x.1.0 == a && x.1.1 == c)) ≡ true
unfolding binding_key
key_read k a c (j, (b, d)) tail ha (hb, hd) stripped read =
    let prefix_is = regroup (name_of k) (codes "/") (decimal a) (codes "/") in
    let key_is : binding_key (name_of j) b d
        ≡ name_of j ++ (codes "/" ++ (decimal b ++ (codes "/" ++ decimal d))) =
      ap (λ t. t ++ decimal d) (regroup (name_of j) (codes "/") (decimal b) (codes "/"))
      ∙ regroup_tail (name_of j) (codes "/") (decimal b) (codes "/") (decimal d) in
    let kinds =
      kind_apart k j (decimal a ++ codes "/") (decimal b ++ (codes "/" ++ decimal d)) tail (
        sym (
          ap (λ t. strip_prefix t (key_of (j, (b, d)))) prefix_is
          ∙ ap (strip_prefix (name_of k ++ (codes "/" ++ (decimal a ++ codes "/")))) key_is)
        ∙ stripped) in
    let parts = slash-decimal a b (decimal d) tail ha hb kinds.1 in
    let id : d ≡ c = some_injective (sym (parse_u64-decimal d hd) ∙ ap parse_u64 parts.1 ∙ read) in
    rw (kinds.0, sym parts.0, id, beq_refl a, beq_refl c) refl

abbrev pub keys_of : List Binding → List Text
keys_of [] = []
keys_of (x ∷ bs) = key_of x ∷ keys_of bs

pub read_has_binding :
    (k : Kind) (a c : ℕ) (key tail : Text) (bs : List Binding)
    → a < u64_mod
    → All InRange bs
    → contains key (keys_of bs) ≡ true
    → strip_prefix (prefix_of k a) key ≡ some tail
    → parse_u64 tail ≡ some c
    → has_binding k a c bs ≡ true
read_has_binding k a c key tail [] ha range inside stripped read = cc
read_has_binding k a c key tail (x ∷ bs) ha (hx, range) inside stripped read =
    elim (Bool-cases (bytes_beq (key_of x) key)) [
      | inl same ↦
          rw
            (key_read k a c x tail ha hx (rw ((bytes_beq_iff (key_of x) key).0 same) stripped) read)
            refl
      | inr far ↦
          rw (read_has_binding k a c key tail bs ha range (rw far at inside) stripped read)
            (or_true _)
    ]

same_kind_iff : (k j : Kind) → same_kind k j ≡ true → k ≡ j
same_kind_iff user_place user_place h = refl
same_kind_iff user_group user_group h = refl
same_kind_iff group_place group_place h = refl
same_kind_iff user_place user_group h = cc
same_kind_iff user_place group_place h = cc
same_kind_iff user_group user_place h = cc
same_kind_iff user_group group_place h = cc
same_kind_iff group_place user_place h = cc
same_kind_iff group_place user_group h = cc

pub has_binding-keys_of :
    (k : Kind) (a c : ℕ) (bs : List Binding)
    → has_binding k a c bs ≡ true
    → contains (binding_key (name_of k) a c) (keys_of bs) ≡ true
has_binding-keys_of k a c [] h = cc
has_binding-keys_of k a c ((j, (b, d)) ∷ bs) h =
    elim (Bool-cases (same_kind j k && (b == a && d == c))) [
      | inl same ↦
          let kinds = same_kind_iff j k (ground (arith, same)) in
          let left : b ≡ a = ground (arith, same) in
          let right : d ≡ c = ground (arith, same) in
          rw (kinds, left, right, beq_refl (binding_key (name_of k) a c)) refl
      | inr other ↦ rw (has_binding-keys_of k a c bs (rw other at h)) (or_true _)
    ]
