-- ===== src/Base/Regex.antt =====
-- The regular expressions of JavaScript that the program uses, on the code points of a text. A
-- position is the character before it, for `\b`, and the characters after it.
use Prim.Native.Nat.{ℕ, zero, suc, ◌+◌}
use Prim.Native.String.{String}
use mathlib.Core.Bool.{Bool, true, false, not, ◌&&◌, ◌||◌}
use mathlib.Core.Option.{Option, none, some}
use mathlib.Core.List.{List, [], ◌∷◌, ◌++◌}
use chunsik_bot.Base.Tests.{leb, is_some, if◌then◌else◌}
use chunsik_bot.Base.Equality.{◌==◌, nat_eq}
use chunsik_bot.Base.Lists.{is_empty}
use chunsik_bot.Base.Text.{codes}

abbrev pub Position : Type 0
Position = Option ℕ × List ℕ

pub data Regex : Type 0 where
  -- one character of a class, and any number of them
  one many : (ℕ → Bool) → Regex
  seq alt : Regex → Regex → Regex
  -- `\b`, `^`, `$`
  boundary at_start at_end : Regex
  -- `\b` with the flags `iu`, and `(?=c)` for a class
  boundary_iu : Regex
  ahead : (ℕ → Bool) → Regex

infixr 30 ◌then◌
abbrev pub ◌then◌ : Regex → Regex → Regex
a then b = seq a b

is_word : ℕ → Bool
is_word c =
    leb b'A' c && leb c b'Z' || leb b'a' c && leb c b'z' || leb b'0' c && leb c b'9' || c == b'_'

-- The letters that `i` with `u` takes for `s` and `k` too: the long s and the Kelvin sign.
is_word_iu : ℕ → Bool
unfolding is_word
is_word_iu c = is_word c || c == 383 || c == 8490

holds_at : (ℕ → Bool) → Option ℕ → Bool
holds_at p none = false
holds_at p (some c) = p c

first_of : List ℕ → Option ℕ
first_of [] = none
first_of (c ∷ cs) = some c

differ : Bool → Bool → Bool
differ true b = not b
differ false b = b

-- The positions after a run of characters of the class.
runs : (ℕ → Bool) → Option ℕ → List ℕ → List Position
runs p before [] = (before, []) ∷ []
runs p before (c ∷ cs) =
    let longer = runs p (some c) cs in
    if p c then (before, c ∷ cs) ∷ longer else (before, c ∷ cs) ∷ []

one_of : (ℕ → Bool) → List ℕ → List Position
one_of p [] = []
one_of p (c ∷ cs) = if p c then (some c, cs) ∷ [] else []

flat : List Position → (Position → List Position) → List Position
flat [] f = []
flat (x ∷ xs) f = f x ++ flat xs f

-- The positions at which a match that starts at a position can end.
unfoldable pub ends : Regex → Position → List Position
unfolding is_word is_word_iu holds_at first_of differ runs one_of flat
ends (one p) (before, rest) = one_of p rest
ends (many p) (before, rest) = runs p before rest
ends (seq a b) at = flat (ends a at) (ends b)
ends (alt a b) at = ends a at ++ ends b at
ends boundary (before, rest) =
    if differ (holds_at is_word before) (holds_at is_word (first_of rest))
    then (before, rest) ∷ []
    else []
ends boundary_iu (before, rest) =
    if differ (holds_at is_word_iu before) (holds_at is_word_iu (first_of rest))
    then (before, rest) ∷ []
    else []
ends at_start (before, rest) = if is_some before then [] else (before, rest) ∷ []
ends (ahead p) (before, rest) = if holds_at p (first_of rest) then (before, rest) ∷ [] else []
ends at_end (before, rest) = if is_empty rest then (before, rest) ∷ [] else []

search_from : Regex → Option ℕ → List ℕ → Bool
search_from r before [] = not (is_empty (ends r (before, [])))
search_from r before (c ∷ cs) =
    not (is_empty (ends r (before, c ∷ cs))) || search_from r (some c) cs

-- `/r/.test(text)`, on code points
unfoldable pub test_codes : Regex → List ℕ → Bool
unfolding search_from ends
test_codes r cs = search_from r none cs

-- `/r/.test(text)`
unfoldable pub test_regex : Regex → String → Bool
unfolding search_from
test_regex r text = search_from r none (codes text)

-- `/^r/.test(text)`
unfoldable pub test_prefix : Regex → String → Bool
test_prefix r text = not (is_empty (ends r (none, codes text)))

abbrev pub char : ℕ → Regex
char c = one (λ d. d == c)

-- With the flag `i`, a letter given in lower case.
abbrev pub letter_i : ℕ → Regex
letter_i c = one (λ d. d == c || d + 32 == c && leb b'A' d && leb d b'Z')

-- With the flags `iu`: a letter given in lower case, under simple case folding.
abbrev pub fold_case : ℕ → ℕ
fold_case c =
    if leb b'A' c && leb c b'Z'
    then c + 32
    else if c == 383
    then b's'
    else if c == 8490
    then b'k'
    else c

abbrev pub letter_iu : ℕ → Regex
letter_iu c = one (λ d. fold_case d == c)

abbrev pub literal : (ℕ → Regex) → List ℕ → Regex
literal f [] = many (λ c. false)
literal f (c ∷ cs) = seq (f c) (literal f cs)

abbrev pub word : String → Regex
word text = literal char (codes text)

abbrev pub word_i : String → Regex
word_i text = literal letter_i (codes text)

-- `\s`
abbrev pub is_space : ℕ → Bool
is_space c =
    leb 9 c && leb c 13
    || c == 32
    || c == 160
    || c == 5760
    || leb 8192 c && leb c 8202
    || c == 8232
    || c == 8233
    || c == 8239
    || c == 8287
    || c == 12288
    || c == 65279

abbrev pub spaces : Regex
spaces = seq (one is_space) (many is_space)

-- `\s*`
abbrev pub optional_spaces : Regex
optional_spaces = many is_space

-- `.*`
abbrev pub anything : Regex
anything = many (λ c. not (c == 10 || c == 13 || c == 8232 || c == 8233))

-- The empty match, with which `r?` is `alt r nothing`.
abbrev pub nothing : Regex
nothing = many (λ c. false)

abbrev pub word_iu : String → Regex
word_iu text = literal letter_iu (codes text)

-- `(?:a|b|…)` of texts
abbrev pub words_iu : List String → Regex
words_iu [] = one (λ c. false)
words_iu (text ∷ texts) = alt (word_iu text) (words_iu texts)

abbrev pub optional : Regex → Regex
optional r = alt r nothing

-- `r{n}`, `r{n,}` of a class, `r{0,n}` of a class
abbrev pub times : ℕ → Regex → Regex
times zero r = many (λ c. false)
times (suc n) r = seq r (times n r)

abbrev pub at_least_times : ℕ → (ℕ → Bool) → Regex
at_least_times n p = seq (times n (one p)) (many p)

abbrev pub at_most_times : ℕ → (ℕ → Bool) → Regex
at_most_times zero p = many (λ c. false)
at_most_times (suc n) p = alt (many (λ c. false)) (seq (one p) (at_most_times n p))

-- `[A-Za-z0-9]`
abbrev pub is_alphanumeric : ℕ → Bool
is_alphanumeric c = leb b'A' c && leb c b'Z' || leb b'a' c && leb c b'z' || leb b'0' c && leb c b'9'

-- `.` without the flag `s`
abbrev pub is_dot : ℕ → Bool
is_dot c = not (c == 10 || c == 13 || c == 8232 || c == 8233)
