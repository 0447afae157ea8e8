-- ===== src/Base/Sort/Laws.antt =====
-- `Array.prototype.sort` under a comparator that is a total preorder.
use Prim.Native.Nat.{ℕ, Ordering, compare}
use mathlib.Core.Path.{◌≡◌, refl}
use mathlib.Core.Logic.{◌≢◌, ◌⊎◌, inl, inr, ◌↔◌}
use mathlib.Core.List.{List, [], ◌∷◌, Perm}
use mathlib.Core.List.Perm
use native.Mathlib.Omega.{arith}
use chunsik_bot.Base.Lists.{In, All}
use chunsik_bot.Base.Sort.{insert, sort, IsPreorder, or_compare}

Ordering-cases : (o : Ordering) → (o ≡ Ordering.lt) ⊎ ((o ≡ Ordering.eq) ⊎ (o ≡ Ordering.gt))
Ordering-cases Ordering.lt = inl refl
Ordering-cases Ordering.eq = inr (inl refl)
Ordering-cases Ordering.gt = inr (inr refl)

module _ {A : Type 0} (compare_fn : A → A → Ordering) where
  -- Every item is not after any later one.
  abbrev pub IsOrdered : List A → Type 0
  IsOrdered [] = Unit
  IsOrdered (x ∷ xs) = All (λ y. compare_fn x y ≢ Ordering.gt) xs × IsOrdered xs

  insert-perm : (a : A) (xs : List A) → Perm (insert compare_fn a xs) (a ∷ xs)
  unfolding insert
  insert-perm a [] = Perm.refl (a ∷ [])
  insert-perm a (x ∷ xs) = helper (compare_fn a x) refl (insert-perm a xs)
    where
      helper :
          (o : Ordering)
          → compare_fn a x ≡ o
          → Perm (insert compare_fn a xs) (a ∷ xs)
          → Perm (insert compare_fn a (x ∷ xs)) (a ∷ x ∷ xs)
      helper Ordering.lt e ih = rw (e, insert) (Perm.refl (a ∷ x ∷ xs))
      helper Ordering.eq e ih = rw (e, insert) (Perm.refl (a ∷ x ∷ xs))
      helper Ordering.gt e ih = rw (e, insert) (Perm.trans (Perm.cons x ih) (Perm.swap a x xs))

  pub sort-perm : (xs : List A) → Perm (sort compare_fn xs) xs
  unfolding sort
  sort-perm [] = Perm.refl []
  sort-perm (x ∷ xs) = Perm.trans (insert-perm x (sort compare_fn xs)) (Perm.cons x (sort-perm xs))

  In-insert_iff : (b a : A) (xs : List A) → In b (insert compare_fn a xs) ↔ In b (a ∷ xs)
  unfolding insert
  In-insert_iff b a [] = (λ h. h, λ h. h)
  In-insert_iff b a (x ∷ xs) = ground (arith, In-insert_iff b a xs)

  pub In-sort_iff : (b : A) (xs : List A) → In b (sort compare_fn xs) ↔ In b xs
  unfolding sort
  In-sort_iff b [] = (λ h. h, λ h. h)
  In-sort_iff b (x ∷ xs) = ground (arith, In-insert_iff b x (sort compare_fn xs), In-sort_iff b xs)

module _ {A : Type 0} (compare_fn : A → A → Ordering) (total : IsPreorder compare_fn) where
  flip_gt : (a b : A) → compare_fn a b ≡ Ordering.gt → compare_fn b a ≢ Ordering.gt
  flip_gt a b e = ground (arith, total.flips a b)

  All-after :
      (a x : A) (xs : List A)
      → compare_fn a x ≢ Ordering.gt
      → All (λ y. compare_fn x y ≢ Ordering.gt) xs
      → All (λ y. compare_fn a y ≢ Ordering.gt) xs
  All-after a x [] h k = tt
  All-after a x (y ∷ ys) h (k, ks) = (total.chains a x y h k, All-after a x ys h ks)

  All-insert :
      (P : A → Type 0) (a : A) (xs : List A) → P a → All P xs → All P (insert compare_fn a xs)
  unfolding insert
  All-insert P a [] p h = (p, tt)
  All-insert P a (x ∷ xs) p (q, h) = ground (arith, All-insert P a xs p h)

  insert-IsOrdered :
      (a : A) (xs : List A)
      → IsOrdered compare_fn xs
      → IsOrdered compare_fn (insert compare_fn a xs)
  unfolding insert
  insert-IsOrdered a [] h = (tt, tt)
  insert-IsOrdered a (x ∷ xs) (h, hs) = helper (compare_fn a x) refl (insert-IsOrdered a xs hs)
    where
      front : compare_fn a x ≢ Ordering.gt → IsOrdered compare_fn (a ∷ x ∷ xs)
      front le = ((le, All-after a x xs le h), (h, hs))

      helper :
          (o : Ordering)
          → compare_fn a x ≡ o
          → IsOrdered compare_fn (insert compare_fn a xs)
          → IsOrdered compare_fn (insert compare_fn a (x ∷ xs))
      helper Ordering.lt e ih = rw (e, insert) (front (λ g. cc))
      helper Ordering.eq e ih = rw (e, insert) (front (λ g. cc))
      helper Ordering.gt e ih =
          rw (e, insert) (All-insert (λ y. compare_fn x y ≢ Ordering.gt) a xs (flip_gt a x e) h, ih)

  pub sort-IsOrdered : (xs : List A) → IsOrdered compare_fn (sort compare_fn xs)
  unfolding sort
  sort-IsOrdered [] = tt
  sort-IsOrdered (x ∷ xs) = insert-IsOrdered x (sort compare_fn xs) (sort-IsOrdered xs)

-- Comparing by a number, in either direction, is a total preorder.
pub by_number-IsPreorder : {A : Type 0} (f : A → ℕ) → IsPreorder (λ a b. compare (f a) (f b))
by_number-IsPreorder f = record { flips = λ a b. ground arith; chains = λ a b c. ground arith }

pub flipped-IsPreorder :
    {A : Type 0} (compare_fn : A → A → Ordering)
    → IsPreorder compare_fn
    → IsPreorder (λ a b. compare_fn b a)
flipped-IsPreorder compare_fn total = record {
  flips = λ a b. total.flips b a;
  chains = λ a b c h k. total.chains c b a k h;
}

pub lexicographic-IsPreorder :
    {A : Type 0} (first second : A → A → Ordering)
    → IsPreorder first
    → IsPreorder second
    → IsPreorder (λ a b. or_compare (first a b) (second a b))
lexicographic-IsPreorder first second p q = record {
  flips = λ a b. ground (arith, p.flips a b, q.flips a b);
  chains = λ a b c. ground (
    arith,
    p.flips a b,
    p.flips b c,
    p.flips a c,
    p.chains a b c,
    p.chains b c a,
    p.chains c a b,
    q.chains a b c,
  );
}
