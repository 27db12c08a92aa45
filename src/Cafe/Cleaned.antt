-- ===== src/Cafe/Cleaned.antt =====
-- The removal of old temporary chunks, agent/src/cafe_store.rs.
use blaze_net.Common.{
  if◌then◌else◌, ltb, Result, ok, ok_injective, All, ℕ, ◌+◌, ◌-◌, ◌≡◌, refl, sym, Bool, true, false,
  not, ◌&&◌, Option, none, some, List, [], ◌∷◌, arith,
}
use blaze_net.Cafe.Defs.{
  CafeError, TempEntry, is_old_chunk, Verdict, leave, remove, fail, judge, verdict_of, Cleaned,
  clean_next, cleanup_game, GameEntry, no_entry, not_dir, no_listing, game, AllCleaned, clean_game,
  clean_all, TempRoot, games, answer, cleanup_expired,
}

-- A temporary chunk that was modified longer ago than the limit.
abbrev pub expired : ℕ → ℕ → Option TempEntry → Bool
expired ttl now none = false
expired ttl now (some entry) = elim entry.modified [
  | none ↦ false
  | some modified ↦ entry.is_blk && ltb ttl (now - modified)
]

-- Some expired chunks of a list are gone, as many as the number says, and all else is as it was.
pub data Pruned (ttl now : ℕ) : List (Option TempEntry) → List (Option TempEntry) → ℕ → Type 0 where
  same : {es : List (Option TempEntry)} → Pruned ttl now es es 0
  kept :
      {e : Option TempEntry} {es ks : List (Option TempEntry)} {n : ℕ}
      → Pruned ttl now es ks n
      → Pruned ttl now (e ∷ es) (e ∷ ks) n
  gone :
      {e : Option TempEntry} {es ks : List (Option TempEntry)} {n : ℕ}
      → expired ttl now e ≡ true
      → Pruned ttl now es ks n
      → Pruned ttl now (e ∷ es) ks (n + 1)

-- The same for all directories.
pub data Swept (ttl now : ℕ) : List GameEntry → List GameEntry → ℕ → Type 0 where
  all_same : {gs : List GameEntry} → Swept ttl now gs gs 0
  other :
      {g : GameEntry} {gs ks : List GameEntry} {n : ℕ}
      → Swept ttl now gs ks n
      → Swept ttl now (g ∷ gs) (g ∷ ks) n
  swept :
      {es ks : List (Option TempEntry)} {gs hs : List GameEntry} {m n : ℕ}
      → Pruned ttl now es ks m
      → Swept ttl now gs hs n
      → Swept ttl now (game es ∷ gs) (game ks ∷ hs) (m + n)

abbrev Fresh : ℕ → ℕ → Option TempEntry → Type 0
Fresh ttl now e = expired ttl now e ≡ false

-- No expired chunk is left in a directory.
abbrev pub Clean : ℕ → ℕ → GameEntry → Type 0
Clean ttl now (game es) = All (Fresh ttl now) es
Clean ttl now _ = Unit

-- An entry is judged to be removed only if it has expired, and to be left only if it has not.
abbrev Judged : ℕ → ℕ → Option TempEntry → Verdict → Type 0
Judged ttl now e remove = expired ttl now e ≡ true
Judged ttl now e leave = expired ttl now e ≡ false
Judged ttl now e fail = Unit

acted :
    (ttl now m : ℕ) (old removable : Bool)
    → ltb ttl (now - m) ≡ old
    → Judged ttl now
        (some (record { is_blk = true; modified = some m; removable = removable }))
        (if not old then leave else if removable then remove else fail)
acted ttl now m true true e = e
acted ttl now m true false e = tt
acted ttl now m false removable e = e

judge-Judged :
    (ttl now : ℕ) (blk removable : Bool) (modified : Option ℕ)
    → Judged ttl now
        (some (record { is_blk = blk; modified = modified; removable = removable }))
        (judge ttl now (record { is_blk = blk; modified = modified; removable = removable }))
unfolding judge is_old_chunk
judge-Judged ttl now false removable none = refl
judge-Judged ttl now false removable (some m) = refl
judge-Judged ttl now true removable none = tt
judge-Judged ttl now true removable (some m) = acted ttl now m (ltb ttl (now - m)) removable refl

verdict_of-Judged : (ttl now : ℕ) (e : Option TempEntry) → Judged ttl now e (verdict_of ttl now e)
unfolding verdict_of
verdict_of-Judged ttl now none = tt
verdict_of-Judged ttl now (some e) = judge-Judged ttl now e.is_blk e.removable e.modified

-- What is shown of a directory.
abbrev GameExact : ℕ → ℕ → List (Option TempEntry) → Cleaned → Type 0
GameExact ttl now es out =
    Pruned ttl now es out.0 out.1 × (out.2 ≡ false → All (Fresh ttl now) out.0)

clean_next-Exact :
    (ttl now : ℕ) (e : Option TempEntry) (es : List (Option TempEntry)) (v : Verdict)
    (rest : Cleaned)
    → Judged ttl now e v
    → GameExact ttl now es rest
    → GameExact ttl now (e ∷ es) (clean_next e es v rest)
unfolding clean_next
clean_next-Exact ttl now e es fail rest judged before = (same, λ h. cc)
clean_next-Exact ttl now e es leave rest judged before = (kept before.0, λ h. (judged, before.1 h))
clean_next-Exact ttl now e es remove rest judged before = (gone judged before.0, before.1)

cleanup_game-Exact :
    (ttl now : ℕ) (es : List (Option TempEntry)) → GameExact ttl now es (cleanup_game ttl now es)
unfolding cleanup_game
cleanup_game-Exact ttl now [] = (same, λ h. tt)
cleanup_game-Exact ttl now (e ∷ es) =
    clean_next-Exact ttl now e es (verdict_of ttl now e) (cleanup_game ttl now es)
      (verdict_of-Judged ttl now e) (cleanup_game-Exact ttl now es)

abbrev AllExact : ℕ → ℕ → List GameEntry → AllCleaned → Type 0
AllExact ttl now gs out = Swept ttl now gs out.0 out.1 × (out.2 ≡ false → All (Clean ttl now) out.0)

clean_game-Exact :
    (ttl now : ℕ) (es : List (Option TempEntry)) (gs : List GameEntry) (out : Cleaned)
    (rest : AllCleaned)
    → GameExact ttl now es out
    → AllExact ttl now gs rest
    → AllExact ttl now (game es ∷ gs) (clean_game gs out rest)
unfolding clean_game
clean_game-Exact ttl now es gs (ks, m, true) rest here later =
    let e : m + 0 ≡ m = omega arith in
    let rest_same : Swept ttl now gs gs 0 = all_same in
    let all : Swept ttl now (game es ∷ gs) (game ks ∷ gs) (m + 0) = swept here.0 rest_same in
    ((rw e at all), λ h. cc)
clean_game-Exact ttl now es gs (ks, m, false) rest here later =
    (swept here.0 later.0, λ h. (here.1 refl, later.1 h))

clean_all-Exact : (ttl now : ℕ) (gs : List GameEntry) → AllExact ttl now gs (clean_all ttl now gs)
unfolding clean_all
clean_all-Exact ttl now [] = (all_same, λ h. tt)
clean_all-Exact ttl now (no_entry ∷ gs) = (all_same, λ h. cc)
clean_all-Exact ttl now (no_listing ∷ gs) = (all_same, λ h. cc)
clean_all-Exact ttl now (not_dir ∷ gs) =
    let later = clean_all-Exact ttl now gs in (other later.0, λ h. (tt, later.1 h))
clean_all-Exact ttl now (game es ∷ gs) =
    clean_game-Exact ttl now es gs (cleanup_game ttl now es) (clean_all ttl now gs)
      (cleanup_game-Exact ttl now es) (clean_all-Exact ttl now gs)

abbrev Answered : ℕ → ℕ → List GameEntry → Result CafeError ℕ × TempRoot → Type 0
Answered ttl now gs out =
    (left : List GameEntry) × (n : ℕ) × (out.1 ≡ games left)
    × Swept ttl now gs left n
    × ((r : ℕ) → out.0 ≡ ok r → (r ≡ n) × All (Clean ttl now) left)

answer-Answered :
    (ttl now : ℕ) (gs : List GameEntry) (out : AllCleaned)
    → AllExact ttl now gs out
    → Answered ttl now gs (answer out)
unfolding answer
answer-Answered ttl now gs (left, n, true) exact = (left, n, refl, exact.0, λ r h. cc)
answer-Answered ttl now gs (left, n, false) exact =
    (left, n, refl, exact.0, λ r h. (sym (ok_injective h), exact.1 refl))

-- A cleanup, also one that an error ends, removes no file but temporary chunks that were modified
-- longer ago than the limit; if it succeeds, then none of these is left in any directory of a game
-- and its answer is the number of files removed.
pub cleanup_expired_exact :
    (ttl now : ℕ) (gs : List GameEntry)
    → (left : List GameEntry) × (n : ℕ) × ((cleanup_expired ttl now (games gs)).1 ≡ games left)
      × Swept ttl now gs left n
      × ((r : ℕ)
          → (cleanup_expired ttl now (games gs)).0 ≡ ok r
          → (r ≡ n) × All (Clean ttl now) left)
unfolding cleanup_expired
cleanup_expired_exact ttl now gs =
    answer-Answered ttl now gs (clean_all ttl now gs) (clean_all-Exact ttl now gs)
