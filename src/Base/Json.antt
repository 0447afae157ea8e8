-- ===== src/Base/Json.antt =====
-- `JSON.stringify` of the values that the program digests: objects keep the order of their keys.
pub mod Sizes
use Prim.Native.Char.{Char, code}
use Prim.Native.Nat.{ℕ, zero, suc, ◌/◌, ◌%◌}
use Prim.Native.String
use Prim.Native.String.{String}
use mathlib.Core.Path.{◌≡◌, refl}
use mathlib.Core.Bool.{Bool, true, false}
use mathlib.Core.List.{List, [], ◌∷◌}
use chunsik_bot.Base.Tests.{ltb, if◌then◌else◌}
use chunsik_bot.Base.Equality.{◌==◌, nat_eq}

mutual
  pub data Json : Type 0 where
    null : Json
    bool : Bool → Json
    num : ℕ → Json
    str : String → Json
    arr : Items → Json
    obj : Members → Json

  pub data Items : Type 0 where
    nil : Items
    cons : Json → Items → Items

  pub data Members : Type 0 where
    end : Members
    member : String → Json → Members → Members

infixr 60 ◌⊕◌
abbrev pub ◌⊕◌ : String → String → String
s ⊕ t = String.◌++◌ s t

hex_letter : ℕ → String
hex_letter zero = "a"
hex_letter (suc zero) = "b"
hex_letter (suc (suc zero)) = "c"
hex_letter (suc (suc (suc zero))) = "d"
hex_letter (suc (suc (suc (suc zero)))) = "e"
hex_letter _ = "f"

unfoldable pub hex_digit_text : ℕ → String
unfolding hex_letter
hex_digit_text zero = "0"
hex_digit_text (suc zero) = "1"
hex_digit_text (suc (suc zero)) = "2"
hex_digit_text (suc (suc (suc zero))) = "3"
hex_digit_text (suc (suc (suc (suc zero)))) = "4"
hex_digit_text (suc (suc (suc (suc (suc zero))))) = "5"
hex_digit_text (suc (suc (suc (suc (suc (suc zero)))))) = "6"
hex_digit_text (suc (suc (suc (suc (suc (suc (suc zero))))))) = "7"
hex_digit_text (suc (suc (suc (suc (suc (suc (suc (suc zero)))))))) = "8"
hex_digit_text (suc (suc (suc (suc (suc (suc (suc (suc (suc zero))))))))) = "9"
hex_digit_text (suc (suc (suc (suc (suc (suc (suc (suc (suc (suc n)))))))))) = hex_letter n

-- Decimal digits, the number as fuel: each round divides by ten.
decimal_from : ℕ → ℕ → String → String
decimal_from zero n out = out
decimal_from (suc fuel) n out =
    let rest = decimal_from fuel (n / 10) (hex_digit_text (n % 10) ⊕ out) in
    if ltb n 10 then hex_digit_text n ⊕ out else rest

unfoldable pub decimal : ℕ → String
unfolding decimal_from hex_digit_text
decimal n = decimal_from (suc n) n ""

-- One character inside a JSON string.
escape_char : Char → String
unfolding hex_digit_text
escape_char c =
    if code c == 0x22
    then "\\\""
    else if code c == 0x5c
    then "\\\\"
    else if code c == 0x08
    then "\\b"
    else if code c == 0x09
    then "\\t"
    else if code c == 0x0a
    then "\\n"
    else if code c == 0x0c
    then "\\f"
    else if code c == 0x0d
    then "\\r"
    else if ltb (code c) 0x20
    then "\\u00" ⊕ hex_digit_text (code c / 16) ⊕ hex_digit_text (code c % 16)
    else String.◌∷◌ c ""

escape : String → String
escape String.[] = ""
escape (String.◌∷◌ c s) = escape_char c ⊕ escape s

quote : String → String
quote s = "\"" ⊕ escape s ⊕ "\""

unfoldable mutual
  unfolding quote escape escape_char decimal decimal_from hex_digit_text

  pub stringify : Json → String
  stringify null = "null"
  stringify (bool true) = "true"
  stringify (bool false) = "false"
  stringify (num n) = decimal n
  stringify (str s) = quote s
  stringify (arr nil) = "[]"
  stringify (arr (cons x xs)) = "[" ⊕ stringify x ⊕ stringify_items xs
  stringify (obj end) = "{}"
  stringify (obj (member k v ms)) = "{" ⊕ quote k ⊕ ":" ⊕ stringify v ⊕ stringify_members ms

  pub stringify_items : Items → String
  stringify_items nil = "]"
  stringify_items (cons x xs) = "," ⊕ stringify x ⊕ stringify_items xs

  pub stringify_members : Members → String
  stringify_members end = "}"
  stringify_members (member k v ms) = "," ⊕ quote k ⊕ ":" ⊕ stringify v ⊕ stringify_members ms

-- An object from its members, an array from its items.
abbrev members : List (String × Json) → Members
members [] = end
members ((k, v) ∷ ms) = member k v (members ms)

abbrev items : List Json → Items
items [] = nil
items (x ∷ xs) = cons x (items xs)

abbrev pub json_object : List (String × Json) → Json
json_object ms = obj (members ms)

abbrev pub json_array : List Json → Json
json_array xs = arr (items xs)

sample :
    stringify (json_object (("a\n", num 120) ∷ ("b", json_array (null ∷ str "é\"" ∷ [])) ∷ []))
    ≡ "{\"a\\n\":120,\"b\":[null,\"é\\\"\"]}"
unfolding stringify
sample = refl
