-- ===== src/Base/Result.antt =====
-- Code that throws: a value, or the error that is thrown.
use mathlib.Core.Path.{◌≡◌, refl}
use mathlib.Core.Logic.{◌⊎◌, inl, inr}
use mathlib.Core.Bool.{Bool, true, false}

pub data Result {ℓ κ} (E : Type κ) (A : Type ℓ) : Type (ℓ ⊔ κ) where
  ok : A → Result E A
  err : E → Result E A

infixl 5 ◌>>=◌ ◌>>◌
abbrev pub ◌>>=◌ : {E A B : Type 0} → Result E A → (A → Result E B) → Result E B
ok a >>= f = f a
err e >>= f = err e

abbrev pub ◌>>◌ : {E B : Type 0} → Result E (Unit {0}) → Result E B → Result E B
m >> k = m >>= λ _. k

-- `if (!test) throw error`
abbrev pub require : {E : Type 0} → Bool → E → Result E (Unit {0})
require true e = ok tt
require false e = err e

pub bind-eq-ok :
    {E A B : Type 0} (m : Result E A) (f : A → Result E B) {b : B}
    → (m >>= f) ≡ ok b
    → (a : A) × (m ≡ ok a) × (f a ≡ ok b)
bind-eq-ok (ok a) f h = (a, refl, h)
bind-eq-ok (err e) f h = cc

pub require-eq-ok : {E : Type 0} (b : Bool) (e : E) {u : Unit {0}} → require b e ≡ ok u → b ≡ true
require-eq-ok true e h = refl
require-eq-ok false e h = cc

-- A computation throws, or it gives a value.
abbrev pub Gives : {E A : Type 0} → Result E A → A → Type 0
Gives {E} m a = ((e : E) × (m ≡ err e)) ⊎ (m ≡ ok a)

pub Gives-then :
    {E A : Type 0} (m : Result E (Unit {0})) (k : Result E A) (a : A) → Gives k a → Gives (m >> k) a
Gives-then (ok u) k a h = h
Gives-then (err e) k a h = inl (e, refl)

-- A guard throws its error, or lets the rest go on.
pub require-cases :
    {E A : Type 0} (b : Bool) (e : E) (k : Result E A)
    → ((require b e >> k) ≡ err e) ⊎ ((b ≡ true) × ((require b e >> k) ≡ k))
require-cases true e k = inr (refl, refl)
require-cases false e k = inl refl

pub ok-injective : {E A : Type 0} (m : Result E A) {a b : A} → m ≡ ok a → m ≡ ok b → a ≡ b
ok-injective (ok c) h k = cc
ok-injective (err e) h k = cc

pub then-eq-ok :
    {E B : Type 0} (m : Result E (Unit {0})) (k : Result E B) {b : B}
    → (m >> k) ≡ ok b
    → (m ≡ ok tt) × (k ≡ ok b)
then-eq-ok (ok tt) k h = (refl, h)
then-eq-ok (err e) k h = cc

pub Result-cases :
    {E A : Type 0} (m : Result E A) → ((a : A) × (m ≡ ok a)) ⊎ ((e : E) × (m ≡ err e))
Result-cases (ok a) = inl (a, refl)
Result-cases (err e) = inr (e, refl)
