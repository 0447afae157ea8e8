-- ===== src/Routing/Response/Words.antt =====
-- runtime-response-validator.ts: the words of a text, their stems, and windows of twelve words. A text
-- is the list of its code points.
use Prim.Native.Nat.{zero, suc}
use chunsik_bot.Base.{
  ℕ, String, Bool, false, not, ◌&&◌, ◌||◌, List, [], ◌∷◌, map, filter, any, contains, if◌then◌else◌,
  ltb, leb, ◌+◌, ◌-◌, length, ◌==◌, list_eq, nat_eq,
}
use chunsik_bot.Base.Text.{codes}
use chunsik_bot.Base.Unicode.{
  Unicode, trim, collapse_spaces, runs_of, ends_with, take, utf16_length, join_codes,
}
use chunsik_bot.Base.Regex.{is_space}

abbrev pub token_window_size : ℕ
token_window_size = 12

abbrev pub max_recency_keywords : ℕ
max_recency_keywords = 24

recency_stopwords : List String
recency_stopwords =
    "a" ∷ "an" ∷ "and" ∷ "are" ∷ "as" ∷ "at" ∷ "be" ∷ "been" ∷ "but" ∷ "by" ∷ "for" ∷ "from" ∷ "has"
    ∷ "have" ∷ "i" ∷ "in" ∷ "is" ∷ "it" ∷ "my" ∷ "of" ∷ "on" ∷ "or" ∷ "said" ∷ "says" ∷ "that"
    ∷ "the" ∷ "this" ∷ "to" ∷ "turn" ∷ "user" ∷ "was" ∷ "were" ∷ "with" ∷ "you" ∷ "your" ∷ "current"
    ∷ "previous" ∷ "recent" ∷ "그" ∷ "그거" ∷ "그것" ∷ "그리고" ∷ "가장" ∷ "나는" ∷ "내가" ∷ "너는" ∷ "네가" ∷ "말"
    ∷ "바로" ∷ "사용자" ∷ "이" ∷ "이거" ∷ "이것" ∷ "저" ∷ "저거" ∷ "저것" ∷ "최근" ∷ "현재" ∷ "턴" ∷ []

unfoldable pub is_stopword : List ℕ → Bool
unfolding recency_stopwords
is_stopword word = contains (map codes recency_stopwords) word

korean_suffixes : List String
korean_suffixes =
    "에게서" ∷ "이라고" ∷ "이라는" ∷ "으로는" ∷ "에서는" ∷ "으로" ∷ "에서" ∷ "에게" ∷ "한테" ∷ "처럼" ∷ "까지" ∷ "부터" ∷ "보다"
    ∷ "하고" ∷ "이나" ∷ "라도" ∷ "이랑" ∷ "랑" ∷ "로" ∷ "은" ∷ "는" ∷ "이" ∷ "가" ∷ "을" ∷ "를" ∷ "의" ∷ "에" ∷ "와"
    ∷ "과" ∷ "도" ∷ "만" ∷ "야" ∷ []

-- The first suffix that leaves two characters is cut off; all are in the basic plane.
strip_suffix : List (List ℕ) → List ℕ → List ℕ
strip_suffix [] word = word
strip_suffix (suffix ∷ suffixes) word =
    let rest = strip_suffix suffixes word in
    if ends_with word suffix && leb (utf16_length suffix + 2) (utf16_length word)
    then take (length word - length suffix) word
    else rest

-- Windows of consecutive words, each joined by U+0000.
unfoldable pub windows : List (List ℕ) → List (List ℕ)
windows [] = []
windows (word ∷ words) =
    let rest = windows words in
    if ltb (length (word ∷ words)) token_window_size
    then []
    else join_codes (0 ∷ []) (take token_window_size (word ∷ words)) ∷ rest

unfoldable pub contains_token_window : List (List ℕ) → List (List ℕ) → Bool
unfolding windows
contains_token_window haystack needle =
    if ltb (length needle) token_window_size || ltb (length haystack) token_window_size
    then false
    else any (λ window. contains (windows needle) window) (windows haystack)

module _ (u : Unicode) where
  open u use {nfkc, lower_case, is_letter, is_number, is_upper, is_hangul}

  unfoldable pub normalize_text : List ℕ → List ℕ
  normalize_text value = trim (collapse_spaces (lower_case (nfkc value)))

  -- `[\p{L}\p{N}_-]`
  unfoldable pub is_token_char : ℕ → Bool
  is_token_char c = is_letter c || is_number c || c == b'_' || c == b'-'

  unfoldable pub tokens : List ℕ → List (List ℕ)
  unfolding normalize_text is_token_char
  tokens value = runs_of is_token_char (normalize_text value)

  unfoldable pub lexical_stem : List ℕ → List ℕ
  unfolding strip_suffix korean_suffixes
  lexical_stem value =
      if any is_hangul value then strip_suffix (map codes korean_suffixes) value else value

  -- The loop over the tokens, with the room that is left in the result.
  keywords_from : ℕ → List (List ℕ) → List (List ℕ) → List (List ℕ)
  unfolding is_stopword
  keywords_from zero seen words = []
  keywords_from (suc room) seen [] = []
  keywords_from (suc room) seen (word ∷ words) =
      let stem = lexical_stem word in
      let skipped = keywords_from (suc room) seen words in
      let taken = keywords_from room (stem ∷ seen) words in
      if ltb (utf16_length stem) 2 || is_stopword stem || contains seen stem
      then skipped
      else stem ∷ taken

  unfoldable pub recency_keywords : List ℕ → List (List ℕ)
  unfolding keywords_from tokens lexical_stem
  recency_keywords value = keywords_from max_recency_keywords [] (tokens value)

  -- `const [, ...candidateSegments] = text.split(/\s+/u)`
  abbrev after_first_segment : List ℕ → List ℕ
  after_first_segment [] = []
  after_first_segment (c ∷ cs) = if is_space c then c ∷ cs else after_first_segment cs

  abbrev starts_upper : List ℕ → Bool
  starts_upper [] = false
  starts_upper (c ∷ cs) = is_upper c

  -- The segments after the first, joined by single spaces.
  unfoldable pub recency_hard_anchors : List ℕ → List (List ℕ)
  unfolding is_token_char lexical_stem normalize_text is_stopword
  recency_hard_anchors value = take max_recency_keywords (
      filter (λ token. leb 2 (utf16_length token) && not (is_stopword token))
        (map (λ token. lexical_stem (normalize_text token))
          (filter (λ token. any is_number token || starts_upper token)
            (runs_of is_token_char
              (trim (collapse_spaces (after_first_segment (trim (nfkc value)))))))))
