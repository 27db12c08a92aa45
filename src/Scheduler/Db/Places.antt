-- ===== src/Scheduler/Db/Places.antt =====
-- The places that `places_of_user` of scheduler/src/db.rs gives a user.
use blaze_net.Common.{
  leb, Bool-cases, beq_refl, nat_beq_iff, ◌==◌, All, bytes_eq, nat_eq, set_insert, to_set, Nodup,
  contains-set_insert, set_insert-Nodup, contains-to_set, to_set-Nodup, IsSorted, sort-IsSorted,
  contains-sort, sort-Nodup, contains, ℕ, ◌<◌, ◌≡◌, refl, ◌↔◌, ◌⊎◌, inl, inr, sym, none, ap, ◌∙◌,
  Bool, true, false, ◌||◌, List, [], ◌∷◌, arith,
}
use blaze_net.Scheduler.Db.Records.{Text, u64_mod, codes, Backend, Db}
use blaze_net.Scheduler.Db.Accounts.{add_places, binding_ids, add_group_places, places_of_user}
use blaze_net.Scheduler.Db.Bindings.{
  user_place, user_group, group_place, name_of, Binding, has_binding, InRange,
}
use blaze_net.Scheduler.Db.Bound.{has_binding-range, bind_all, binding_ids-bind_all}

contains-add_places :
    (p : ℕ) (places ps : List ℕ)
    → contains p (add_places places ps) ≡ (contains p places || contains p ps)
unfolding add_places
contains-add_places p places [] = ground arith
contains-add_places p places (q ∷ ps) =
    ground (arith, contains-add_places p (set_insert q places) ps, contains-set_insert p q places)

add_places-Nodup : (places ps : List ℕ) → Nodup places → Nodup (add_places places ps)
unfolding add_places
add_places-Nodup places [] h = h
add_places-Nodup places (p ∷ ps) h =
    add_places-Nodup (set_insert p places) ps (set_insert-Nodup p places h)

leb_total : (a c : ℕ) → leb a c ≡ false → leb c a ≡ true
leb_total a c h = ground arith

or_true : (x : Bool) → x || true ≡ true
or_true true = refl
or_true false = refl

module _ (b : Backend) where
  -- One of the groups is bound to the place.
  abbrev pub through_group : ℕ → List ℕ → Db b → Bool
  through_group p [] db = false
  through_group p (g ∷ gs) db =
      contains p (binding_ids b (codes "group_place") g db) || through_group p gs db

  contains-add_group_places :
      (p : ℕ) (places gs : List ℕ) (db : Db b)
      → contains p (add_group_places b places gs db) ≡ (contains p places || through_group p gs db)
  unfolding add_group_places
  contains-add_group_places p places [] db = ground arith
  contains-add_group_places p places (g ∷ gs) db =
      let own = binding_ids b (codes "group_place") g db in
      ground (
        arith,
        contains-add_group_places p (add_places places own) gs db,
        contains-add_places p places own,
      )

  add_group_places-Nodup :
      (places gs : List ℕ) (db : Db b) → Nodup places → Nodup (add_group_places b places gs db)
  unfolding add_group_places
  add_group_places-Nodup places [] db h = h
  add_group_places-Nodup places (g ∷ gs) db h =
      let own = binding_ids b (codes "group_place") g db in
      add_group_places-Nodup (add_places places own) gs db (add_places-Nodup places own h)

  -- The places of a user, by the ids that `binding_ids` reads.
  places_of_user_exact :
      (user : ℕ) (db : Db b)
      → ((p : ℕ)
          → contains p (places_of_user b user db) ≡ (
              contains p (binding_ids b (codes "user_place") user db)
              || through_group p (binding_ids b (codes "user_group") user db) db))
        × Nodup (places_of_user b user db)
        × IsSorted leb (places_of_user b user db)
  unfolding places_of_user
  places_of_user_exact user db =
      let own = binding_ids b (codes "user_place") user db in
      let groups = binding_ids b (codes "user_group") user db in
      let all = add_group_places b (to_set own) groups db in
      (
        λ p.
            contains-sort leb p all
            ∙ contains-add_group_places p (to_set own) groups db
            ∙ ap (λ t. t || through_group p groups db) (contains-to_set p own),
        sort-Nodup leb all (add_group_places-Nodup (to_set own) groups db (to_set-Nodup own)),
        sort-IsSorted leb leb_total all,
      )

  through_group-there :
      (p : ℕ) (gs : List ℕ) (db : Db b)
      → through_group p gs db ≡ true
      → (g : ℕ) × (contains g gs ≡ true)
        × (contains p (binding_ids b (name_of group_place) g db) ≡ true)
  through_group-there p [] db h = cc
  through_group-there p (g ∷ gs) db h =
      elim (Bool-cases (contains p (binding_ids b (name_of group_place) g db))) [
        | inl here ↦ (g, rw (beq_refl g) refl, here)
        | inr far ↦
            let (g', inside, there) = through_group-there p gs db (rw far at h) in
            (g', rw inside (or_true (g == g')), there)
      ]

  through_group-back :
      (p g : ℕ) (gs : List ℕ) (db : Db b)
      → contains g gs ≡ true
      → contains p (binding_ids b (name_of group_place) g db) ≡ true
      → through_group p gs db ≡ true
  through_group-back p g [] db inside h = cc
  through_group-back p g (g' ∷ gs) db inside h = elim (Bool-cases (g' == g)) [
    | inl same ↦ rw ((nat_beq_iff g' g).0 same, h) refl
    | inr far ↦ rw (through_group-back p g gs db (rw far at inside) h) (or_true _)
  ]

  -- The place is bound to the user, or to a group that the user is bound to.
  abbrev pub Sees : ℕ → ℕ → List Binding → Type 0
  Sees user p bs =
      (has_binding user_place user p bs ≡ true)
      ⊎ ((g : ℕ) × (has_binding user_group user g bs ≡ true)
          × (has_binding group_place g p bs ≡ true))

  places-Sees :
      (user p : ℕ) (bs : List Binding) (db : Db b)
      → ((key : Text) → b.counts.get db.bindings key ≡ none)
      → All InRange bs
      → user < u64_mod
      → contains p (places_of_user b user (bind_all b bs db)) ≡ true
      → Sees user p bs
  places-Sees user p bs db empty range hu seen =
      let after = bind_all b bs db in
      let either = sym ((places_of_user_exact user after).0 p) ∙ seen in
      elim (Bool-cases (contains p (binding_ids b (name_of user_place) user after))) [
        | inl own ↦ inl (sym (binding_ids-bind_all b user_place user p bs db empty range hu) ∙ own)
        | inr far ↦
            let (g, inside, there) =
              through_group-there p (binding_ids b (name_of user_group) user after) after
                (rw far at either) in
            let mine : has_binding user_group user g bs ≡ true =
              sym (binding_ids-bind_all b user_group user g bs db empty range hu) ∙ inside in
            let hg = has_binding-range user_group user g bs range mine in
            inr (g, mine, sym (binding_ids-bind_all b group_place g p bs db empty range hg) ∙ there)
      ]

  Sees-places :
      (user p : ℕ) (bs : List Binding) (db : Db b)
      → ((key : Text) → b.counts.get db.bindings key ≡ none)
      → All InRange bs
      → user < u64_mod
      → Sees user p bs
      → contains p (places_of_user b user (bind_all b bs db)) ≡ true
  Sees-places user p bs db empty range hu (inl own) =
      (places_of_user_exact user (bind_all b bs db)).0 p
      ∙ rw (binding_ids-bind_all b user_place user p bs db empty range hu ∙ own) refl
  Sees-places user p bs db empty range hu (inr (g, mine, there)) =
      let after = bind_all b bs db in
      let hg = has_binding-range user_group user g bs range mine in
      let through =
        through_group-back p g (binding_ids b (name_of user_group) user after) after
          (binding_ids-bind_all b user_group user g bs db empty range hu ∙ mine)
          (binding_ids-bind_all b group_place g p bs db empty range hg ∙ there) in
      (places_of_user_exact user after).0 p ∙ rw through (or_true _)

  -- After any bindings of users to places, users to groups and groups to places (ids that fit a u64),
  -- made in a table without bindings, a user sees exactly the places that were bound to the user or to
  -- a group that was bound to the user, in ascending order and none twice.
  pub places_of_user-bind_all :
      (user : ℕ) (bs : List Binding) (db : Db b)
      → ((key : Text) → b.counts.get db.bindings key ≡ none)
      → All InRange bs
      → user < u64_mod
      → ((p : ℕ) → (contains p (places_of_user b user (bind_all b bs db)) ≡ true) ↔ Sees user p bs)
        × Nodup (places_of_user b user (bind_all b bs db))
        × IsSorted leb (places_of_user b user (bind_all b bs db))
  places_of_user-bind_all user bs db empty range hu = (
    λ p. (places-Sees user p bs db empty range hu, Sees-places user p bs db empty range hu),
    (places_of_user_exact user (bind_all b bs db)).1,
    (places_of_user_exact user (bind_all b bs db)).2,
  )
