-- ===== src/Base/Json/Sizes.antt =====
-- How long a printed value is in UTF-8, beside the texts in it.
use Prim.Native.Char.{Char, code}
use Prim.Native.Nat.{ℕ, ◌+◌, ◌≤◌, ◌<◌, ◌/◌, ◌%◌}
use Prim.Native.String.{String}
use Prim.Native.String.append
use mathlib.Core.Path.{◌≡◌, refl, ap, ◌∙◌, sym, subst}
use mathlib.Core.Bool.{Bool, true, false}
use mathlib.Core.List.{List, [], ◌∷◌, ◌++◌}
use native.Mathlib.Omega.{arith}
use chunsik_bot.Base.Tests.{ltb, if◌then◌else◌}
use chunsik_bot.Base.Equality.{◌==◌, nat_eq, eq_of_beq}
use chunsik_bot.Base.Text.{codes}
use chunsik_bot.Base.Unicode.{utf8_length}
use chunsik_bot.Base.Json.{
  Json, Items, Members, null, bool, num, str, arr, obj, nil, cons, end, member, ◌⊕◌, quote, escape,
  escape_char, hex_digit_text, stringify, stringify_items, stringify_members, json_object,
}

-- `Buffer.byteLength(value, 'utf8')` of a text
abbrev pub byte_length : String → ℕ
byte_length s = utf8_length (codes s)

codes-append : (s t : String) → codes (s ⊕ t) ≡ codes s ++ codes t
codes-append String.[] t = ap codes (append.nil t)
codes-append (String.◌∷◌ c s) t =
    ap codes (append.cons c s t) ∙ ap (λ cs. code c ∷ cs) (codes-append s t)

utf8_length-append : (xs ys : List ℕ) → utf8_length (xs ++ ys) ≡ utf8_length xs + utf8_length ys
unfolding utf8_length
utf8_length-append [] ys = omega arith
utf8_length-append (c ∷ xs) ys = omega (arith, utf8_length-append xs ys)

byte_length-append : (s t : String) → byte_length (s ⊕ t) ≡ byte_length s + byte_length t
byte_length-append s t = rw (codes-append s t) (utf8_length-append (codes s) (codes t))

byte_length-cons :
    (c : Char) (s : String)
    → byte_length (String.◌∷◌ c s) ≡ utf8_length (code c ∷ []) + byte_length s
unfolding utf8_length
byte_length-cons c s = omega arith

byte_length-control : (s t : String) → 1 ≤ byte_length ("\\u00" ⊕ s ⊕ t)
unfolding utf8_length
byte_length-control s t = omega (arith, byte_length-append "\\u00" (s ⊕ t))

-- A character that is escaped takes one byte.
ascii-one : (n : ℕ) → n < 0x80 → utf8_length (n ∷ []) ≤ 1
unfolding utf8_length
ascii-one n h = ground arith

escaped-one : (n m : ℕ) → m < 0x80 → (n == m) ≡ true → utf8_length (n ∷ []) ≤ 1
escaped-one n m h e = ascii-one n (subst (λ k. k < 0x80) (sym (eq_of_beq n m e)) h)

control-one : (n : ℕ) → ltb n 0x20 ≡ true → utf8_length (n ∷ []) ≤ 1
control-one n e = ascii-one n (ground arith)

branch-grows :
    (b : Bool) (k : ℕ) (s t : String)
    → (b ≡ true → k ≤ 1)
    → 1 ≤ byte_length s
    → k ≤ byte_length t
    → k ≤ byte_length (if b then s else t)
branch-grows true k s t one grows otherwise = omega (arith, one refl)
branch-grows false k s t one grows otherwise = otherwise

escape_char-grows : (c : Char) → utf8_length (code c ∷ []) ≤ byte_length (escape_char c)
unfolding escape_char utf8_length
escape_char-grows c = escaped 0x22 "\\\"" _ (omega arith) (omega arith) (
    escaped 0x5c "\\\\" _ (omega arith) (omega arith) (
      escaped 0x08 "\\b" _ (omega arith) (omega arith) (
        escaped 0x09 "\\t" _ (omega arith) (omega arith) (
          escaped 0x0a "\\n" _ (omega arith) (omega arith) (
            escaped 0x0c "\\f" _ (omega arith) (omega arith) (
              escaped 0x0d "\\r" _ (omega arith) (omega arith) (
                branch-grows (ltb (code c) 0x20) _ _ _ (control-one (code c))
                  (byte_length-control (hex_digit_text (code c / 16))
                    (hex_digit_text (code c % 16)))
                  (omega arith))))))))
  where
    escaped :
        (m : ℕ) (s t : String)
        → m < 0x80
        → 1 ≤ byte_length s
        → utf8_length (code c ∷ []) ≤ byte_length t
        → utf8_length (code c ∷ []) ≤ byte_length (if code c == m then s else t)
    escaped m s t small grows otherwise =
        branch-grows (code c == m) _ s t (escaped-one (code c) m small) grows otherwise

escape-grows : (s : String) → byte_length s ≤ byte_length (escape s)
unfolding escape
escape-grows String.[] = omega arith
escape-grows (String.◌∷◌ c s) = omega (
  arith,
  byte_length-cons c s,
  byte_length-append (escape_char c) (escape s),
  escape_char-grows c,
  escape-grows s,
)

quote-grows : (s : String) → byte_length s ≤ byte_length (quote s)
unfolding quote
quote-grows s = omega (
  arith,
  byte_length-append "\"" (escape s ⊕ "\""),
  byte_length-append (escape s) "\"",
  escape-grows s,
)

-- The bytes of the texts in a value, without quotes, escapes and keys.
unfoldable mutual
  pub text_size : Json → ℕ
  text_size (str s) = byte_length s
  text_size (arr xs) = items_size xs
  text_size (obj ms) = members_size ms
  text_size _ = 0

  pub items_size : Items → ℕ
  items_size nil = 0
  items_size (cons x xs) = text_size x + items_size xs

  pub members_size : Members → ℕ
  members_size end = 0
  members_size (member k v ms) = text_size v + members_size ms

after-grows : (s t : String) → byte_length t ≤ byte_length (s ⊕ t)
after-grows s t = omega (arith, byte_length-append s t)

both-grow :
    (n m : ℕ) (s t : String) → n ≤ byte_length s → m ≤ byte_length t → n + m ≤ byte_length (s ⊕ t)
both-grow n m s t a b = omega (arith, byte_length-append s t)

after-keys : (s k t : String) → byte_length t ≤ byte_length (s ⊕ quote k ⊕ ":" ⊕ t)
after-keys s k t =
    omega
      (arith, after-grows s (quote k ⊕ ":" ⊕ t), after-grows (quote k) (":" ⊕ t), after-grows ":" t)

mutual
  unfolding stringify text_size

  pub stringify-grows : (j : Json) → text_size j ≤ byte_length (stringify j)
  stringify-grows null = omega arith
  stringify-grows (bool b) = omega arith
  stringify-grows (num n) = omega arith
  stringify-grows (str s) = quote-grows s
  stringify-grows (arr nil) = omega arith
  stringify-grows (arr (cons x xs)) = items-grow "[" x (stringify-grows x) xs
  stringify-grows (obj end) = omega arith
  stringify-grows (obj (member k v ms)) = members-grow "{" k v (stringify-grows v) ms

  items-grow :
      (s : String) (x : Json)
      → text_size x ≤ byte_length (stringify x)
      → (xs : Items)
      → text_size x + items_size xs ≤ byte_length (s ⊕ stringify x ⊕ stringify_items xs)
  items-grow s x h nil = omega (
    arith,
    both-grow (text_size x) 0 (stringify x) "]" h (omega arith),
    after-grows s (stringify x ⊕ "]"),
  )
  items-grow s x h (cons y ys) = omega (
    arith,
    both-grow (text_size x) (text_size y + items_size ys) (stringify x)
        ("," ⊕ stringify y ⊕ stringify_items ys) h (items-grow "," y (stringify-grows y) ys),
    after-grows s (stringify x ⊕ "," ⊕ stringify y ⊕ stringify_items ys),
  )

  members-grow :
      (s k : String) (v : Json)
      → text_size v ≤ byte_length (stringify v)
      → (ms : Members)
      → text_size v + members_size ms
        ≤ byte_length (s ⊕ quote k ⊕ ":" ⊕ stringify v ⊕ stringify_members ms)
  members-grow s k v h end = omega (
    arith,
    both-grow (text_size v) 0 (stringify v) "}" h (omega arith),
    after-keys s k (stringify v ⊕ "}"),
  )
  members-grow s k v h (member l w ms) = omega (
    arith,
    both-grow (text_size v) (text_size w + members_size ms) (stringify v)
        ("," ⊕ quote l ⊕ ":" ⊕ stringify w ⊕ stringify_members ms) h
        (members-grow "," l w (stringify-grows w) ms),
    after-keys s k (stringify v ⊕ "," ⊕ quote l ⊕ ":" ⊕ stringify w ⊕ stringify_members ms),
  )

-- The bytes of the texts among the members that make an object.
unfoldable pub list_size : List (String × Json) → ℕ
list_size [] = 0
list_size (m ∷ ms) = text_size m.1 + list_size ms

pub list_size-append :
    (xs ys : List (String × Json)) → list_size (xs ++ ys) ≡ list_size xs + list_size ys
unfolding list_size
list_size-append [] ys = omega arith
list_size-append (x ∷ xs) ys = omega (arith, list_size-append xs ys)

pub text_size-json_object : (ms : List (String × Json)) → text_size (json_object ms) ≡ list_size ms
unfolding text_size list_size
text_size-json_object [] = refl
text_size-json_object (m ∷ ms) = ap (λ n. text_size m.1 + n) (text_size-json_object ms)
