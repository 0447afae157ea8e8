-- ===== src/Base/Sort.antt =====
-- `Array.prototype.sort` with a comparator; it is stable, so is insertion from the right.
pub mod Laws
use Prim.Native.Nat.{Ordering}
use mathlib.Core.Path.{◌≡◌}
use mathlib.Core.Logic.{◌≢◌}
use mathlib.Core.List.{List, [], ◌∷◌}

module _ {ℓ} {A : Type ℓ} (compare_fn : A → A → Ordering) where
  unfoldable pub insert : A → List A → List A
  insert a [] = a ∷ []
  insert a (x ∷ xs) = elim (compare_fn a x) [ Ordering.gt ↦ x ∷ insert a xs | _ ↦ a ∷ x ∷ xs ]

  unfoldable pub sort : List A → List A
  unfolding insert
  sort [] = []
  sort (x ∷ xs) = insert x (sort xs)

abbrev pub reversed : Ordering → Ordering
reversed Ordering.lt = Ordering.gt
reversed Ordering.eq = Ordering.eq
reversed Ordering.gt = Ordering.lt

-- A comparator that is a total preorder.
pub record IsPreorder {A : Type 0} (compare_fn : A → A → Ordering) : Type 0 where
  pub flips : (a b : A) → compare_fn b a ≡ reversed (compare_fn a b)
  pub chains :
      (a b c : A)
      → compare_fn a b ≢ Ordering.gt
      → compare_fn b c ≢ Ordering.gt
      → compare_fn a c ≢ Ordering.gt

-- `first || second` on the numbers that comparators return
abbrev pub or_compare : Ordering → Ordering → Ordering
or_compare Ordering.eq second = second
or_compare first second = first
