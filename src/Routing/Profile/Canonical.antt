-- ===== src/Routing/Profile/Canonical.antt =====
-- validation-profile-registry.ts: the normal form of a profile, whose digest identifies it.
use chunsik_bot.Routing.Profile.{
  ValidationProfileConfiguration, rule_order, definition_of, by_rule_order, rule_eq,
  RuntimeValidationRule-discrete, RuntimeValidationRule, normalize,
}
use Prim.Native.Nat.{compare, Ordering}
use chunsik_bot.Base.{
  ℕ, ◌≡◌, refl, ap, ◌∙◌, subst, ◌||◌, List, [], ◌∷◌, is_empty, contains, distinct, arith, ◌==◌,
}
use mathlib.Core.Logic.{∥∥₁_elim}
use mathlib.Core.List.{Perm, Permᴰ}
use chunsik_bot.Base.Platform.{Platform}
use chunsik_bot.Base.Sort.{sort, insert}

module _ {A : Type 0} (f : A → ℕ) (injective : (a b : A) → f a ≡ f b → a ≡ b) where
  abbrev by : A → A → Ordering
  by a b = compare (f a) (f b)

  insert_comm :
      (a b : A) (xs : List A) → insert by a (insert by b xs) ≡ insert by b (insert by a xs)
  unfolding insert
  insert_comm a b [] = ground (arith, injective a b)
  insert_comm a b (x ∷ xs) =
      ground (arith, injective a b, injective a x, injective b x, insert_comm a b xs)

-- What a configuration reads of its rules does not depend on their order.
abbrev Agree : List RuntimeValidationRule → List RuntimeValidationRule → Type 0
Agree xs ys =
    ((rule : RuntimeValidationRule) → contains xs rule ≡ contains ys rule)
    × (distinct xs ≡ distinct ys)
    × (is_empty xs ≡ is_empty ys)
    × (sort by_rule_order xs ≡ sort by_rule_order ys)

rule_order_injective : (a b : RuntimeValidationRule) → rule_order a ≡ rule_order b → a ≡ b
rule_order_injective a b h = ground arith

Agree-swap :
    (x y : RuntimeValidationRule) (xs : List RuntimeValidationRule)
    → Agree (x ∷ y ∷ xs) (y ∷ x ∷ xs)
unfolding sort
Agree-swap x y xs = (
  λ rule. ground arith,
  ground (arith, rule_eq.agrees x y, rule_eq.agrees y x),
  refl,
  insert_comm rule_order rule_order_injective x y (sort by_rule_order xs),
)

Agree-cons :
    (x : RuntimeValidationRule) (xs ys : List RuntimeValidationRule)
    → Agree xs ys
    → Agree (x ∷ xs) (x ∷ ys)
unfolding sort
Agree-cons x xs ys (same, once, empty, sorted) = (
  λ rule. ap (λ b. rule == x || b) (same rule),
  ground (arith, same x),
  refl,
  ap (insert by_rule_order x) sorted,
)

Permᴰ-Agree : {xs ys : List RuntimeValidationRule} → Permᴰ xs ys → Agree xs ys
Permᴰ-Agree Permᴰ.nil = (λ rule. refl, refl, refl, refl)
Permᴰ-Agree (Permᴰ.cons {a} {b} {l₁} {l₂} e p) =
    subst (λ c. Agree (a ∷ l₁) (c ∷ l₂)) e (Agree-cons a l₁ l₂ (Permᴰ-Agree p))
Permᴰ-Agree (Permᴰ.swap {a} {b} {a'} {b'} {l} e f) =
    subst (λ c. Agree (a ∷ b ∷ l) (c ∷ b' ∷ l)) f
      (subst (λ c. Agree (a ∷ b ∷ l) (b ∷ c ∷ l)) e (Agree-swap a b l))
Permᴰ-Agree (Permᴰ.trans p q) =
    let (same, once, empty, sorted) = Permᴰ-Agree p in
    let (same', once', empty', sorted') = Permᴰ-Agree q in
    (λ rule. same rule ∙ same' rule, once ∙ once', empty ∙ empty', sorted ∙ sorted')

rule_list_set : IsSet (List RuntimeValidationRule)
rule_list_set = hlevel RuntimeValidationRule-discrete

-- The rules of a configuration may stand in any order: the profile that it is normalised to is the
-- same, with the same digest, and so is the error where it is refused.
pub normalize-perm :
    (platform : Platform) (c : ValidationProfileConfiguration) (rules : List RuntimeValidationRule)
    → Perm c.rules rules
    → normalize platform (record c { rules = rules }) ≡ normalize platform c
unfolding normalize definition_of
normalize-perm platform c rules p =
    let (once, empty, sorted) = facts in rw (← once, ← empty, ← sorted)
  where
    facts :
        (distinct c.rules ≡ distinct rules)
        × (is_empty c.rules ≡ is_empty rules)
        × (sort by_rule_order c.rules ≡ sort by_rule_order rules)
    facts = (
      ∥∥₁_elim p (hlevel) (λ q. (Permᴰ-Agree q).1),
      ∥∥₁_elim p (hlevel) (λ q. (Permᴰ-Agree q).2),
      ∥∥₁_elim p (rule_list_set _ _) (λ q. (Permᴰ-Agree q).3),
    )
