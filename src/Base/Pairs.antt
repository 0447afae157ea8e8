-- ===== src/Base/Pairs.antt =====
-- A relation between each item of a list and the items after it.
use mathlib.Core.Path.{◌≡◌}
use mathlib.Core.Bool.{Bool, true, false, ◌||◌}
use mathlib.Core.List.{List, [], ◌∷◌, ◌++◌}
use native.Mathlib.Omega.{arith}
use chunsik_bot.Base.Tests.{if◌then◌else◌}
use chunsik_bot.Base.Lists.{All, any, filter}

abbrev pub Pairwise : {A : Type 0} → (A → A → Type 0) → List A → Type 0
Pairwise R [] = Unit
Pairwise R (x ∷ xs) = All (R x) xs × Pairwise R xs

pub All-append :
    {A : Type 0} (P : A → Type 0) (xs : List A) (y : A) → All P xs → P y → All P (xs ++ (y ∷ []))
All-append P [] y h hy = (hy, tt)
All-append P (x ∷ xs) y (hx, hxs) hy = (hx, All-append P xs y hxs hy)

pub All-zip :
    {A : Type 0} (P Q R : A → Type 0) (xs : List A)
    → ((x : A) → P x → Q x → R x)
    → All P xs
    → All Q xs
    → All R xs
All-zip P Q R [] f h k = tt
All-zip P Q R (x ∷ xs) f (hx, hxs) (kx, kxs) = (f x hx kx, All-zip P Q R xs f hxs kxs)

pub All-filter :
    {A : Type 0} (P : A → Type 0) (test : A → Bool) (xs : List A)
    → All P xs
    → All P (filter test xs)
All-filter P test [] h = tt
All-filter P test (x ∷ xs) (hx, hxs) = helper (test x) (All-filter P test xs hxs)
  where
    helper :
        (b : Bool)
        → All P (filter test xs)
        → All P (if b then x ∷ filter test xs else filter test xs)
    helper true rest = (hx, rest)
    helper false rest = rest

pub any-false :
    {A H : Type 0} (test : A → Bool) (xs : List A)
    → (H → any test xs ≡ false)
    → All (λ x. H → test x ≡ false) xs
any-false test [] h = tt
any-false test (x ∷ xs) h =
    (λ k. or_left _ _ (h k), any-false test xs (λ k. or_right (test x) _ (h k)))
  where
    or_left : (a b : Bool) → (a || b) ≡ false → a ≡ false
    or_left a b e = ground arith

    or_right : (a b : Bool) → (a || b) ≡ false → b ≡ false
    or_right a b e = ground arith

module _ {A : Type 0} (R : A → A → Type 0) where
  pub Pairwise-append :
      (xs : List A) (y : A) → Pairwise R xs → All (λ x. R x y) xs → Pairwise R (xs ++ (y ∷ []))
  Pairwise-append [] y h k = (tt, tt)
  Pairwise-append (x ∷ xs) y (hx, hxs) (kx, kxs) =
      (All-append (R x) xs y hx kx, Pairwise-append xs y hxs kxs)

  pub Pairwise-filter :
      (test : A → Bool) (xs : List A) → Pairwise R xs → Pairwise R (filter test xs)
  Pairwise-filter test [] h = tt
  Pairwise-filter test (x ∷ xs) (hx, hxs) = helper (test x) (Pairwise-filter test xs hxs)
    where
      helper :
          (b : Bool)
          → Pairwise R (filter test xs)
          → Pairwise R (if b then x ∷ filter test xs else filter test xs)
      helper true rest = (All-filter (R x) test xs hx, rest)
      helper false rest = rest

  pub Pairwise-map :
      (S : A → A → Type 0) (Q : A → Type 0) (xs : List A)
      → ((x y : A) → Q x → R x y → S x y)
      → All Q xs
      → Pairwise R xs
      → Pairwise S xs
  Pairwise-map S Q [] f q h = tt
  Pairwise-map S Q (x ∷ xs) f (qx, qxs) (hx, hxs) =
      (All-zip (R x) (R x) (S x) xs (λ y r _. f x y qx r) hx hx, Pairwise-map S Q xs f qxs hxs)
