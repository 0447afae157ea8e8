-- ===== src/Base/Members.antt =====
-- Objects of plain data: own keys, the spread `{ ...a, ...b }`, `delete`, and `isDeepStrictEqual` of
-- node:util, for which the order of keys does not count.
use Prim.Native.Nat.{ℕ, suc}
use Prim.Native.String.{String}
use mathlib.Core.Path.{◌≡◌, refl}
use mathlib.Core.Logic.{◌≢◌}
use mathlib.Core.Bool.{Bool, true, false, ◌&&◌}
use mathlib.Core.Option.{Option, none, some}
use mathlib.Core.List.{List, [], ◌∷◌, ◌++◌}
use native.Mathlib.Omega.{arith}
use chunsik_bot.Base.Tests.{if◌then◌else◌}
use chunsik_bot.Base.Equality.{◌==◌, string_eq, nat_eq, beq_refl, eq_of_beq}
use chunsik_bot.Base.Lists.{all, contains}
use chunsik_bot.Base.Json.{
  Json, null, bool, num, str, arr, obj, Items, nil, cons, Members, end, member,
}

unfoldable pub lookup : String → Members → Option Json
lookup key end = none
lookup key (member k v ms) = let rest = lookup key ms in if k == key then some v else rest

unfoldable pub set_member : String → Json → Members → Members
set_member key v end = member key v end
set_member key v (member k w ms) =
    let rest = set_member key v ms in if k == key then member k v ms else member k w rest

unfoldable pub delete_member : String → Members → Members
delete_member key end = end
delete_member key (member k w ms) =
    let rest = delete_member key ms in if k == key then rest else member k w rest

-- `{ ...ms, ...ns }`
unfoldable pub assign : Members → Members → Members
assign ms end = ms
assign ms (member k v ns) = assign (set_member k v ms) ns

unfoldable pub own_keys : Members → List String
own_keys end = []
own_keys (member k v ms) = k ∷ own_keys ms

-- Every key is required or optional, and none of the required ones is missing.
unfoldable pub has_keys : List String → List String → Members → Bool
unfolding own_keys
has_keys required optional ms =
    all (contains (required ++ optional)) (own_keys ms) && all (contains (own_keys ms)) required

size : Members → ℕ
size end = 0
size (member k v ms) = suc (size ms)

bool_equal : Bool → Bool → Bool
bool_equal true b = b
bool_equal false true = false
bool_equal false false = true

unfoldable mutual
  unfolding lookup size bool_equal

  pub deep_equal : Json → Json → Bool
  deep_equal null null = true
  deep_equal (bool a) (bool b) = bool_equal a b
  deep_equal (num a) (num b) = a == b
  deep_equal (str a) (str b) = a == b
  deep_equal (arr a) (arr b) = equal_items a b
  deep_equal (obj a) (obj b) = size a == size b && equal_members a b
  deep_equal _ _ = false

  equal_items : Items → Items → Bool
  equal_items nil nil = true
  equal_items (cons a xs) (cons b ys) = deep_equal a b && equal_items xs ys
  equal_items _ _ = false

  equal_members : Members → Members → Bool
  equal_members end ns = true
  equal_members (member k v ms) ns =
      elim (lookup k ns) [ none ↦ false | some w ↦ deep_equal v w ] && equal_members ms ns

pub lookup-set_same :
    (key : String) (v : Json) (ms : Members) → lookup key (set_member key v ms) ≡ some v
unfolding lookup set_member
lookup-set_same key v end = ground (arith, beq_refl key)
lookup-set_same key v (member k w ms) =
    ground (arith, beq_refl key, eq_of_beq k key, lookup-set_same key v ms)

pub lookup-set_other :
    (key other : String) (v : Json) (ms : Members)
    → other ≢ key
    → lookup other (set_member key v ms) ≡ lookup other ms
unfolding lookup set_member
lookup-set_other key other v end n = ground (arith, eq_of_beq key other)
lookup-set_other key other v (member k w ms) n =
    ground (arith, eq_of_beq k key, eq_of_beq k other, lookup-set_other key other v ms n)

pub lookup-delete : (key : String) (ms : Members) → lookup key (delete_member key ms) ≡ none
unfolding lookup delete_member
lookup-delete key end = refl
lookup-delete key (member k w ms) = ground (arith, lookup-delete key ms)

pub lookup-assign :
    (key : String) (ms ns : Members)
    → lookup key ns ≡ none
    → lookup key (assign ms ns) ≡ lookup key ms
unfolding lookup assign
lookup-assign key ms end h = refl
lookup-assign key ms (member k v ns) h =
    ground
      (arith, beq_refl key, lookup-assign key (set_member k v ms) ns, lookup-set_other k key v ms)
