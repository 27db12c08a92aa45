-- ===== src/Scheduler/Db/Bound.antt =====
-- What `binding_ids` of scheduler/src/db.rs gives after some calls of `bind`.
use blaze_net.Common.{
  if◌then◌else◌, Bool-cases, ◌==◌, bytes_beq, bytes_eq, nat_eq, All, contains, lookup, ℕ, ◌<◌, ◌≡◌,
  refl, sym, ◌∙◌, inl, inr, Bool, true, false, ◌&&◌, Option, none, some, List, [], ◌∷◌, arith,
}
use blaze_net.Scheduler.Db.Records.{Text, u64_mod, Backend, Db, decimal}
use blaze_net.Scheduler.Db.Accounts.{strip_prefix, binding_key, bind, binding_ids}
use blaze_net.Scheduler.Db.Decimals.{parse_u64-decimal, strip_prefix-append}
use blaze_net.Scheduler.Db.Ids.{ids_behind-Found, ids_behind-lookup, lookup-keys}
use blaze_net.Scheduler.Db.Bindings.{
  Kind, name_of, same_kind, Binding, has_binding, InRange, key_of, keys_of, prefix_of,
  read_has_binding, has_binding-keys_of,
}

bool_same : (x y : Bool) → (x ≡ true → y ≡ true) → (y ≡ true → x ≡ true) → x ≡ y
bool_same true y there back = sym (there refl)
bool_same false true there back = back refl
bool_same false false there back = refl

some_if : (x : Bool) → (◌≡◌ {A = Option ℕ} (if x then some 1 else none) none → ⊥) → x ≡ true
some_if true h = refl
some_if false h = absurd (h refl)

pub has_binding-range :
    (k : Kind) (a c : ℕ) (bs : List Binding)
    → All InRange bs
    → has_binding k a c bs ≡ true
    → c < u64_mod
has_binding-range k a c [] range h = cc
has_binding-range k a c ((j, (b, d)) ∷ bs) ((hb, hd), range) h =
    elim (Bool-cases (same_kind j k && (b == a && d == c))) [
      | inl same ↦ let e : d ≡ c = ground (arith, same) in rw e at hd
      | inr other ↦ has_binding-range k a c bs range (rw other at h)
    ]

module _ (b : Backend) where
  -- The bindings are made, the last of the list first.
  unfoldable pub bind_all : List Binding → Db b → Db b
  unfolding bind
  bind_all [] db = db
  bind_all ((k, (a, c)) ∷ bs) db = bind b (name_of k) a c (bind_all bs db)

  get-bind_all :
      (bs : List Binding) (db : Db b) (key : Text)
      → ((k : Text) → b.counts.get db.bindings k ≡ none)
      → b.counts.get (bind_all bs db).bindings key
        ≡ (if contains key (keys_of bs) then some 1 else none)
  unfolding bind_all bind
  get-bind_all [] db key empty = empty key
  get-bind_all (x ∷ bs) db key empty =
      b.counts.get-insert (bind_all bs db).bindings (key_of x) 1 key
      ∙ elim (Bool-cases (bytes_beq (key_of x) key)) [
        | inl same ↦ rw same refl
        | inr far ↦ rw far (get-bind_all bs db key empty)
      ]

  prefix_key :
      (k : Kind) (a c : ℕ)
      → strip_prefix (prefix_of k a) (binding_key (name_of k) a c) ≡ some (decimal c)
  unfolding binding_key
  prefix_key k a c = strip_prefix-append (prefix_of k a) (decimal c)

  -- After some bindings in a table without any, the ids that are bound to an id are those of the
  -- bindings.
  pub binding_ids-bind_all :
      (k : Kind) (a c : ℕ) (bs : List Binding) (db : Db b)
      → ((key : Text) → b.counts.get db.bindings key ≡ none)
      → All InRange bs
      → a < u64_mod
      → contains c (binding_ids b (name_of k) a (bind_all bs db)) ≡ has_binding k a c bs
  unfolding binding_ids
  binding_ids-bind_all k a c bs db empty range ha =
      let after = bind_all bs db in
      let prefix = prefix_of k a in
      let own = binding_key (name_of k) a c in
      bool_same (contains c (binding_ids b (name_of k) a after)) (has_binding k a c bs)
        (λ found.
          let (key, tail, inside, stripped, read) =
            ids_behind-Found prefix c (b.counts.iter after.bindings) found in
          let here = some_if (contains key (keys_of bs)) (λ gone.
            lookup-keys key (b.counts.iter after.bindings) inside
              (b.counts.lookup-iter after.bindings key ∙ get-bind_all bs db key empty ∙ gone)) in
          read_has_binding k a c key tail bs ha range here stripped read)
        (λ made.
          let there : lookup own (b.counts.iter after.bindings) ≡ some 1 =
            b.counts.lookup-iter after.bindings own
            ∙ get-bind_all bs db own empty
            ∙ rw (has_binding-keys_of k a c bs made) refl in
          ids_behind-lookup prefix own (decimal c) c 1 (b.counts.iter after.bindings) there
            (prefix_key k a c) (parse_u64-decimal c (has_binding-range k a c bs range made)))
