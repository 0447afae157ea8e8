-- ===== src/Base/Effect/Steps.antt =====
-- What holds when a run ends, by its steps: a guard, a value that must be there, a call.
use mathlib.Core.Path.{◌≡◌, refl}
use mathlib.Core.Bool.{Bool, true, false}
use mathlib.Core.Option.{Option, none, some}
use mathlib.Core.List.{List, ◌∷◌}
use chunsik_bot.Base.Result.{Result, ok, err}
use chunsik_bot.Base.Effect.{
  Outcome, returned, threw, Effect, ◌>>=◌, ◌>>◌, check, present, call, given, resume,
}

module _ {Event E A : Type 0} (Q : Outcome Event E A → Type 0) where
  pub check-then :
      (b : Bool) (e : E) (k : Effect Event E A) (history : List Event)
      → Q (threw e history)
      → (b ≡ true → Q (k history))
      → Q ((check b e >> k) history)
  unfolding ◌>>=◌ ◌>>◌ check resume
  check-then true e k history fails goes_on = goes_on refl
  check-then false e k history fails goes_on = fails

  pub check-either :
      (b : Bool) (e : E) (k : Effect Event E A) (history : List Event)
      → (b ≡ false → Q (threw e history))
      → (b ≡ true → Q (k history))
      → Q ((check b e >> k) history)
  unfolding ◌>>=◌ ◌>>◌ check resume
  check-either true e k history fails goes_on = goes_on refl
  check-either false e k history fails goes_on = fails refl

  pub present-then :
      {B : Type 0} (o : Option B) (e : E) (k : B → Effect Event E A) (history : List Event)
      → Q (threw e history)
      → ((b : B) → o ≡ some b → Q (k b history))
      → Q ((present o e >>= k) history)
  unfolding ◌>>=◌ present resume
  present-then none e k history fails goes_on = fails
  present-then (some b) e k history fails goes_on = goes_on b refl

  pub given-then :
      {F B : Type 0} (caught : F → E) (m : Result F B) (k : B → Effect Event E A)
      (history : List Event)
      → ((e : F) → Q (threw (caught e) history))
      → ((b : B) → m ≡ ok b → Q (k b history))
      → Q ((given caught m >>= k) history)
  unfolding ◌>>=◌ given resume
  given-then caught (ok b) k history fails goes_on = goes_on b refl
  given-then caught (err e) k history fails goes_on = fails e

  pub given-and :
      {F : Type 0} (caught : F → E) (m : Result F (Unit {0})) (k : Effect Event E A)
      (history : List Event)
      → ((e : F) → Q (threw (caught e) history))
      → (m ≡ ok tt → Q (k history))
      → Q ((given caught m >> k) history)
  unfolding ◌>>=◌ ◌>>◌ given resume
  given-and caught (ok b) k history fails goes_on = goes_on refl
  given-and caught (err e) k history fails goes_on = fails e

  -- The call under the reply that it has.
  after_reply :
      {F B : Type 0} (reply : Result F B) (event : Result F B → Event) (caught : F → E)
      (k : B → Effect Event E A) (history : List Event)
      → ((e : F) → Q (threw (caught e) (event (err e) ∷ history)))
      → ((b : B) → Q (k b (event (ok b) ∷ history)))
      → Q ((call (λ _. reply) event caught >>= k) history)
  unfolding ◌>>=◌ call resume
  after_reply (ok b) event caught k history fails goes_on = goes_on b
  after_reply (err e) event caught k history fails goes_on = fails e

  pub call-then :
      {F B : Type 0} (answer : List Event → Result F B) (event : Result F B → Event)
      (caught : F → E) (k : B → Effect Event E A) (history : List Event)
      → ((e : F) → Q (threw (caught e) (event (err e) ∷ history)))
      → ((b : B) → Q (k b (event (ok b) ∷ history)))
      → Q ((call answer event caught >>= k) history)
  unfolding ◌>>=◌ call resume
  call-then answer event caught k history = after_reply (answer history) event caught k history

  -- A run in two phases: what the second makes of the end of the first.
  pub bind-then :
      {B : Type 0} (m : Effect Event E B) (k : B → Effect Event E A) (history : List Event)
      → Q (resume (m history) k)
      → Q ((m >>= k) history)
  unfolding ◌>>=◌
  bind-then m k history h = h

  -- A call that ends the run.
  pub call-last :
      {F : Type 0} (answer : List Event → Result F A) (event : Result F A → Event) (caught : F → E)
      (history : List Event)
      → ((e : F) → Q (threw (caught e) (event (err e) ∷ history)))
      → ((a : A) → Q (returned a (event (ok a) ∷ history)))
      → Q (call answer event caught history)
  unfolding call
  call-last {F} answer event caught history fails ends = by_reply (answer history)
    where
      by_reply :
          (reply : Result F A)
          → Q (elim reply [
            | ok a ↦ returned a (event (ok a) ∷ history)
            | err e ↦ threw (caught e) (event (err e) ∷ history)
          ])
      by_reply (ok a) = ends a
      by_reply (err e) = fails e

-- The steps of a run in which nothing is thrown.
module _ {Event E A : Type 0} where
  pub check-passes :
      {b : Bool} (e : E) (k : Effect Event E A) (history : List Event)
      → b ≡ true
      → (check b e >> k) history ≡ k history
  unfolding ◌>>=◌ ◌>>◌ check resume
  check-passes e k history t = rw t refl

  pub present-gives :
      {B : Type 0} (b : B) (e : E) (k : B → Effect Event E A) (history : List Event)
      → (present (some b) e >>= k) history ≡ k b history
  unfolding ◌>>=◌ present resume
  present-gives b e k history = refl

  pub call-answers :
      {F B : Type 0} (answer : List Event → Result F B) (event : Result F B → Event)
      (caught : F → E) (k : B → Effect Event E A) (history : List Event) {b : B}
      → answer history ≡ ok b
      → (call answer event caught >>= k) history ≡ k b (event (ok b) ∷ history)
  unfolding ◌>>=◌ call resume
  call-answers answer event caught k history q = rw (call, q) refl
