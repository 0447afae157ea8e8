-- ===== src/Routing/Response/Recency.antt =====
-- runtime-response-validator.ts: whether an answer is grounded in the recent fact that the current turn
-- refers to.
use chunsik_bot.Base.{
  ℕ, String, Bool, true, false, not, ◌&&◌, ◌||◌, Option, none, some, List, [], ◌∷◌, filter, any,
  contains, is_empty, if◌then◌else◌, ltb, leb, ◌-◌, length, ◌==◌, list_eq, nat_eq,
}
use chunsik_bot.Base.Unicode.{Unicode, utf16_length, utf16_units, includes, starts_with, take}
use chunsik_bot.Base.Regex.{
  Regex, alt, one, many, boundary_iu, at_start, at_end, ahead, test_codes, ◌then◌, word_iu,
  words_iu, optional, is_space, spaces, optional_spaces,
}
use chunsik_bot.Routing.Response.Words.{normalize_text, recency_keywords, recency_hard_anchors}

abbrev max_recency_fact_characters : ℕ
max_recency_fact_characters = 4096

abbrev min_relevance_characters : ℕ
min_relevance_characters = 3

pointers : List String
pointers = "거" ∷ "것" ∷ "걸" ∷ "게" ∷ "건" ∷ []

-- `EXPLICIT_RECENCY_REFERENCE`
explicit_recency_reference : Regex
unfolding pointers
explicit_recency_reference = alt (words_iu ("그" ∷ "이" ∷ "저" ∷ []) then words_iu pointers) (
    alt (words_iu ("방금" ∷ "아까" ∷ [])) (
      alt (word_iu "위" then words_iu ("에" ∷ "에서" ∷ [])) (
        alt (word_iu "앞서") (
          alt (word_iu "전에" then optional_spaces then words_iu ("말" ∷ "얘기" ∷ [])) (
            alt
              (words_iu ("뭐" ∷ "무엇" ∷ "어떻" ∷ "어디" ∷ "누구" ∷ [])
                then optional (words_iu ("였" ∷ "했" ∷ "였었" ∷ []))
                then word_iu "지")
              (boundary_iu
                then alt
                    (words_iu
                      ("that" ∷ "above" ∷ "earlier" ∷ "previous" ∷ "previously" ∷ "you said" ∷ []))
                    (word_iu "what " then words_iu ("i" ∷ "we" ∷ "you" ∷ []) then word_iu " said")
                then boundary_iu))))))

is_closing : ℕ → Bool
is_closing c = is_space c || c == b'.' || c == b'!' || c == b'?' || c == b',' || c == b'~'

-- `GREETING_OR_ACKNOWLEDGEMENT`
greeting_or_acknowledgement : Regex
unfolding is_closing
greeting_or_acknowledgement =
    at_start
    then words_iu (
        "안녕" ∷ "안녕하세요" ∷ "안녕하십니까" ∷ "반가워" ∷ "반가워요" ∷ "감사" ∷ "감사합니다" ∷ "감사해요" ∷ "고마워" ∷ "고마워요" ∷ "네"
        ∷ "넵" ∷ "예" ∷ "응" ∷ "어" ∷ "알겠어" ∷ "알겠어요" ∷ "알겠습니다" ∷ "좋아" ∷ "좋아요" ∷ "okay" ∷ "ok" ∷ "thank"
        ∷ "thanks" ∷ "thank you" ∷ "thanks you" ∷ "hello" ∷ "hi" ∷ "hey" ∷ "got it" ∷ "sounds good"
        ∷ [])
    then many is_closing
    then at_end

-- `NEGATION`
negation : Regex
negation =
    alt
      (boundary_iu
        then words_iu (
            "not" ∷ "never" ∷ "no" ∷ "isn't" ∷ "aren't" ∷ "wasn't" ∷ "weren't" ∷ "don't" ∷ "doesn't"
            ∷ "didn't" ∷ "cannot" ∷ "can't" ∷ [])
        then boundary_iu)
      (alt
        (alt at_start (one is_space)
          then words_iu ("안" ∷ "못" ∷ [])
          then spaces
          then ahead (λ c. not (is_space c)))
        (alt (word_iu "아니" then words_iu ("야" ∷ "다" ∷ "에요" ∷ "예요" ∷ "었" ∷ []))
          (word_iu "않" then words_iu ("아" ∷ "다" ∷ "아요" ∷ "았" ∷ "는" ∷ "는다" ∷ []))))

unfoldable pub says_no : List ℕ → Bool
unfolding negation
says_no text = test_codes negation text

differ : Bool → Bool → Bool
differ true b = not b
differ false b = b

module _ (u : Unicode) where
  unfoldable pub is_recency_relevant : List ℕ → List ℕ → Bool
  unfolding greeting_or_acknowledgement explicit_recency_reference
  is_recency_relevant current_user_turn fact =
      let current = normalize_text u current_user_turn in
      let current_keywords = recency_keywords u current in
      let shared = filter (contains current_keywords) (recency_keywords u fact) in
      let anchors = recency_hard_anchors u current in
      if is_empty current || test_codes greeting_or_acknowledgement current
      then false
      else if test_codes explicit_recency_reference current
      then true
      else if leb 2 (length (filter (λ k. leb min_relevance_characters (utf16_length k)) shared))
      then true
      else any (contains anchors) (recency_hard_anchors u fact)

  -- A keyword that the turn itself does not hold, as it is or up to its last character.
  is_grounding : List ℕ → List (List ℕ) → List ℕ → Bool
  is_grounding current current_keywords keyword =
      not (includes current keyword)
      && not (
          any u.is_hangul keyword
          && leb min_relevance_characters (utf16_length keyword)
          && any
              (λ other.
                starts_with (utf16_units other)
                  (take (utf16_length keyword - 1) (utf16_units keyword)))
              current_keywords)

  -- The facts of the comparison, once the turn is known to refer to the fact.
  unfoldable pub is_ungrounded : List ℕ → List ℕ → List ℕ → Bool
  unfolding is_grounding says_no differ
  is_ungrounded fact current_user_turn response =
      let keywords = recency_keywords u fact in
      let response_keywords = recency_keywords u response in
      let current = normalize_text u current_user_turn in
      let grounding = filter (is_grounding current (recency_keywords u current)) keywords in
      let required = if is_empty grounding then keywords else grounding in
      if is_empty keywords
      then false
      else if any (λ anchor. not (contains response_keywords anchor)) (recency_hard_anchors u fact)
      then true
      else if not (any (contains response_keywords) required)
      then true
      else differ (says_no fact) (says_no response)

  unfoldable pub has_recency_grounding_violation : Option (List ℕ) → Option (List ℕ) → List ℕ → Bool
  unfolding is_recency_relevant is_ungrounded
  has_recency_grounding_violation none turn response = false
  has_recency_grounding_violation (some fact) none response = false
  has_recency_grounding_violation (some fact) (some turn) response =
      if is_empty fact
        || ltb max_recency_fact_characters (utf16_length fact)
        || not (is_recency_relevant turn fact)
      then false
      else is_ungrounded fact turn response
