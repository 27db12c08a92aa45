-- ===== src/Common/Outcome.antt =====
-- Rust's `Result` and `?`.
use mathlib.Core.Bool.{Bool, true, false}
use blaze_net.Common.Tests.{if◌then◌else◌}
use mathlib.Core.Path.{◌≡◌, refl, subst}

pub data Result {ℓ} (E A : Type ℓ) : Type ℓ where
  ok : A → Result E A
  err : E → Result E A

infixl 5 ◌>>=◌
abbrev pub ◌>>=◌ {ℓ} : {E A B : Type ℓ} → Result E A → (A → Result E B) → Result E B
ok a >>= f = f a
err e >>= f = err e

-- A chain that succeeds has a first step that succeeds.
pub >>=-eq-ok {ℓ} :
    {E A B : Type ℓ} (first : Result E A) (next : A → Result E B) {b : B}
    → (first >>= next) ≡ ok b
    → (a : A) × (first ≡ ok a) × (next a ≡ ok b)
>>=-eq-ok (err e) next h = cc
>>=-eq-ok (ok a) next h = (a, refl, h)

-- If the computation succeeds, its value has P.
pub data Ensures {ℓ} {E A : Type ℓ} (P : A → Type ℓ) : Result E A → Type ℓ where
  returns : {a : A} → P a → Ensures P (ok a)
  fails : {e : E} → Ensures P (err e)

pub Ensures-bind {ℓ} :
    {E A B : Type ℓ} {P : A → Type ℓ} {Q : B → Type ℓ} {m : Result E A} (f : A → Result E B)
    → Ensures P m
    → ((a : A) → P a → Ensures Q (f a))
    → Ensures Q (m >>= f)
Ensures-bind f (returns p) k = k _ p
Ensures-bind f fails k = fails

pub Ensures-ok {ℓ} :
    {E A : Type ℓ} {P : A → Type ℓ} {m : Result E A} {a : A} → Ensures P m → m ≡ ok a → P a
Ensures-ok {P} (returns p) e = subst P (cc) p
Ensures-ok fails e = cc

pub ok_injective {ℓ} : {E A : Type ℓ} {x y : A} → ◌≡◌ {A = Result E A} (ok x) (ok y) → x ≡ y
ok_injective h = cc

-- A guarded computation that succeeds has passed its guard.
pub else_ok {ℓ} :
    {E A : Type ℓ} (c : Bool) (e : E) (next : Result E A) {a : A}
    → (if c then err e else next) ≡ ok a
    → (c ≡ false) × (next ≡ ok a)
else_ok true e next h = cc
else_ok false e next h = (refl, h)
