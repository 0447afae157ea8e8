-- ===== src/Base/Membership.antt =====
-- Membership in what `filter`, `map` and `find` give back.
use mathlib.Core.Path.{◌≡◌, refl, sym, ap, ◌∙◌}
use mathlib.Core.Logic.{◌⊎◌, inl, inr, ◌↔◌}
use mathlib.Core.Bool.{Bool, true, false}
use mathlib.Core.Option.{Option, none, some}
use mathlib.Core.List.{List, [], ◌∷◌, map}
use chunsik_bot.Base.Tests.{
  Bool-cases, if◌then◌else◌, some-injective, none_not_some, false_not_true,
}
use chunsik_bot.Base.Lists.{any, In, filter, find}

pub In-filter_iff :
    {A : Type 0} (p : A → Bool) (a : A) (xs : List A)
    → In a (filter p xs) ↔ (In a xs × (p a ≡ true))
In-filter_iff p a [] = (λ m. elim m [ ], λ h. elim h.0 [ ])
In-filter_iff p a (x ∷ xs) = helper (p x) refl (In-filter_iff p a xs)
  where
    helper :
        (b : Bool)
        → p x ≡ b
        → In a (filter p xs) ↔ (In a xs × (p a ≡ true))
        → In a (if b then x ∷ filter p xs else filter p xs) ↔ ((a ≡ x) ⊎ In a xs) × (p a ≡ true)
    helper true e ih = (
      λ m. elim m [ inl s ↦ (inl s, ap p s ∙ e) | inr t ↦ (inr (ih.0 t).0, (ih.0 t).1) ],
      λ h. elim h.0 [ inl s ↦ inl s | inr t ↦ inr (ih.1 (t, h.1)) ],
    )
    helper false e ih = (
      λ m. (inr (ih.0 m).0, (ih.0 m).1),
      λ h. elim h.0 [
        | inl s ↦ absurd (false_not_true e (sym (ap p s) ∙ h.1))
        | inr t ↦ ih.1 (t, h.1)
      ],
    )

pub In-map :
    {A B : Type 0} (f : A → B) (b : B) (xs : List A)
    → In b (map f xs)
    → (a : A) × In a xs × (f a ≡ b)
In-map f b [] m = elim m [ ]
In-map f b (x ∷ xs) (inl e) = (x, inl refl, sym e)
In-map f b (x ∷ xs) (inr m) = let (a, l, e) = In-map f b xs m in (a, inr l, e)

pub In-map_of : {A B : Type 0} (f : A → B) (a : A) (xs : List A) → In a xs → In (f a) (map f xs)
In-map_of f a [] m = elim m [ ]
In-map_of f a (x ∷ xs) (inl e) = inl (ap f e)
In-map_of f a (x ∷ xs) (inr m) = inr (In-map_of f a xs m)

pub find-some :
    {A : Type 0} (p : A → Bool) (xs : List A) {x : A} → find p xs ≡ some x → In x xs × (p x ≡ true)
find-some p [] e = absurd (none_not_some e)
find-some p (y ∷ ys) {x} e = helper (p y) refl e (find-some p ys {x = x})
  where
    helper :
        (b : Bool)
        → p y ≡ b
        → (if b then some y else find p ys) ≡ some x
        → (find p ys ≡ some x → In x ys × (p x ≡ true))
        → In x (y ∷ ys) × (p x ≡ true)
    helper true t e ih = (inl (sym (some-injective e)), ap p (sym (some-injective e)) ∙ t)
    helper false t e ih = (inr (ih e).0, (ih e).1)

pub find-none_iff :
    {A : Type 0} (p : A → Bool) (xs : List A)
    → (find p xs ≡ none) ↔ ((x : A) → In x xs → p x ≡ false)
find-none_iff p [] = (λ e x m. elim m [ ], λ h. refl)
find-none_iff {A} p (y ∷ ys) = helper (p y) refl (find-none_iff p ys)
  where
    helper :
        (b : Bool)
        → p y ≡ b
        → (find p ys ≡ none) ↔ ((x : A) → In x ys → p x ≡ false)
        → ((if b then some y else find p ys) ≡ none) ↔ ((x : A) → In x (y ∷ ys) → p x ≡ false)
    helper true t ih =
        (λ e. absurd (none_not_some (sym e)), λ h. absurd (false_not_true (h y (inl refl)) t))
    helper false t ih = (
      λ e x m. elim m [ inl s ↦ ap p s ∙ t | inr l ↦ ih.0 e x l ],
      λ h. ih.1 (λ x l. h x (inr l)),
    )

pub any-In :
    {A : Type 0} (p : A → Bool) (xs : List A) → any p xs ≡ true → (x : A) × In x xs × (p x ≡ true)
any-In p [] e = absurd (false_not_true refl e)
any-In p (x ∷ xs) e = elim (Bool-cases (p x)) [
  | inl t ↦ (x, inl refl, t)
  | inr f ↦ let (y, m, t) = any-In p xs (rw f at e) in (y, inr m, t)
]

-- The item that `find` gives where an item passes the test, and those that pass are equal.
pub find_unique :
    {A : Type 0} (p : A → Bool) (xs : List A) (x : A)
    → In x xs
    → p x ≡ true
    → ((y : A) → In y xs → p y ≡ true → y ≡ x)
    → find p xs ≡ some x
find_unique p xs x m t only = helper (find p xs) refl
  where
    helper : (found : Option _) → find p xs ≡ found → find p xs ≡ some x
    helper none e = absurd (false_not_true ((find-none_iff p xs).0 e x m) t)
    helper (some y) e = let (l, passes) = find-some p xs e in e ∙ ap some (only y l passes)
