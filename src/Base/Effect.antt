-- ===== src/Base/Effect.antt =====
-- Code that calls its environment and may throw. The calls are recorded, the latest first; the
-- environment answers each as a function of what was called and answered before.
use mathlib.Core.Bool.{Bool, true, false}
use mathlib.Core.Option.{Option, none, some}
use mathlib.Core.List.{List, ◌∷◌}
use chunsik_bot.Base.Result.{Result, ok, err}
pub mod Steps

-- How a run ends, with the calls until then.
pub data Outcome (Event E A : Type 0) : Type 0 where
  returned : A → List Event → Outcome Event E A
  threw : E → List Event → Outcome Event E A

abbrev pub Effect : Type 0 → Type 0 → Type 0 → Type 0
Effect Event E A = List Event → Outcome Event E A

-- What follows a run that has ended.
unfoldable pub resume :
    {Event E A B : Type 0} → Outcome Event E A → (A → Effect Event E B) → Outcome Event E B
resume outcome k = elim outcome [ returned a later ↦ k a later | threw e later ↦ threw e later ]

infixl 5 ◌>>=◌ ◌>>◌
unfoldable pub ◌>>=◌ :
    {Event E A B : Type 0} → Effect Event E A → (A → Effect Event E B) → Effect Event E B
unfolding resume
(m >>= k) history = resume (m history) k

unfoldable pub ◌>>◌ :
    {Event E B : Type 0} → Effect Event E (Unit {0}) → Effect Event E B → Effect Event E B
unfolding ◌>>=◌
m >> k = m >>= λ _. k

abbrev pub return : {Event E A : Type 0} → A → Effect Event E A
return a history = returned a history

-- `if (!test) throw error`
unfoldable pub check : {Event E : Type 0} → Bool → E → Effect Event E (Unit {0})
check b e history = elim b [ true ↦ returned tt history | false ↦ threw e history ]

-- A value that must be there.
unfoldable pub present : {Event E A : Type 0} → Option A → E → Effect Event E A
present o e history = elim o [ none ↦ threw e history | some a ↦ returned a history ]

-- A call of the environment, whose error is caught and thrown as another.
unfoldable pub call :
    {Event E F A : Type 0}
    → (List Event → Result E A)
    → (Result E A → Event)
    → (E → F)
    → Effect Event F A
call answer event caught history = elim (answer history) [
  | ok a ↦ returned a (event (ok a) ∷ history)
  | err e ↦ threw (caught e) (event (err e) ∷ history)
]

-- The end of code that calls nothing; its error is thrown as another.
unfoldable pub given : {Event E F A : Type 0} → (F → E) → Result F A → Effect Event E A
given caught m history = elim m [ ok a ↦ returned a history | err e ↦ threw (caught e) history ]
