-- ===== src/Base/Guards.antt =====
-- The guards of code that throws, shut: a proof that goes through many of them step by step keeps each
-- as it is written.
use mathlib.Core.Path.{◌≡◌, refl}
use mathlib.Core.Bool.{Bool, true, false}
use chunsik_bot.Base.Result.{Result, ok, err}

infixl 5 ◌>>=◌ ◌>>◌
unfoldable pub ◌>>=◌ : {E A B : Type 0} → Result E A → (A → Result E B) → Result E B
m >>= f = elim m [ ok a ↦ f a | err e ↦ err e ]

unfoldable pub ◌>>◌ : {E B : Type 0} → Result E (Unit {0}) → Result E B → Result E B
unfolding ◌>>=◌
m >> k = m >>= λ _. k

-- `if (!test) throw error`
unfoldable pub require : {E : Type 0} → Bool → E → Result E (Unit {0})
require test e = elim test [ true ↦ ok tt | false ↦ err e ]

pub require-eq-ok :
    {E B : Type 0} (test : Bool) (e : E) (k : Result E B) {b : B}
    → (require test e >> k) ≡ ok b
    → (test ≡ true) × (k ≡ ok b)
unfolding ◌>>=◌ ◌>>◌ require
require-eq-ok true e k h = (refl, h)
require-eq-ok false e k h = cc

pub bind-eq-ok :
    {E A B : Type 0} (m : Result E A) (f : A → Result E B) {b : B}
    → (m >>= f) ≡ ok b
    → (a : A) × (m ≡ ok a) × (f a ≡ ok b)
unfolding ◌>>=◌
bind-eq-ok (ok a) f h = (a, refl, h)
bind-eq-ok (err e) f h = cc

pub require_last-eq-ok :
    {E : Type 0} (test : Bool) (e : E) {u : Unit {0}} → require test e ≡ ok u → test ≡ true
unfolding require
require_last-eq-ok true e h = refl
require_last-eq-ok false e h = cc

pub then-eq-ok :
    {E B : Type 0} (m : Result E (Unit {0})) (k : Result E B) {b : B}
    → (m >> k) ≡ ok b
    → (m ≡ ok tt) × (k ≡ ok b)
unfolding ◌>>=◌ ◌>>◌
then-eq-ok (ok tt) k h = (refl, h)
then-eq-ok (err e) k h = cc
