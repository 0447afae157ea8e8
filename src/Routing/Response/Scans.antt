-- ===== src/Routing/Response/Scans.antt =====
-- runtime-response-validator.ts: scans of an answer for secrets, for the prompt, for entries of the
-- context and for claims of authority.
use chunsik_bot.Base.{
  ℕ, String, Bool, true, false, not, ◌&&◌, ◌||◌, List, [], ◌∷◌, filter, any, is_empty,
  if◌then◌else◌, ltb, leb, ◌+◌, length, ◌==◌, list_eq, nat_eq,
}
use chunsik_bot.Base.Unicode.{Unicode, utf16_length, includes}
use chunsik_bot.Base.Regex.{
  Regex, alt, one, many, boundary, boundary_iu, test_codes, ◌then◌, word, word_iu, words_iu,
  optional, is_space, spaces, optional_spaces, times, at_least_times, at_most_times,
  is_alphanumeric, is_dot, fold_case,
}
use chunsik_bot.Routing.Response.Words.{normalize_text, tokens, contains_token_window}

abbrev min_echo_entry_characters : ℕ
min_echo_entry_characters = 24

abbrev min_multi_entry_echo_characters : ℕ
min_multi_entry_echo_characters = 48

abbrev min_prompt_exact_characters : ℕ
min_prompt_exact_characters = 16

is_digit : ℕ → Bool
is_digit c = leb b'0' c && leb c b'9'

is_capital_or_digit : ℕ → Bool
unfolding is_digit
is_capital_or_digit c = leb b'A' c && leb c b'Z' || is_digit c

-- `[A-Z0-9 ]` with the flags `iu`
is_key_label : ℕ → Bool
unfolding is_digit
is_key_label c = leb b'a' (fold_case c) && leb (fold_case c) b'z' || is_digit c || c == 32

is_token_tail : ℕ → Bool
is_token_tail c = is_alphanumeric c || c == b'_' || c == b'-'

is_secret_char : ℕ → Bool
is_secret_char c = not (is_space c || c == b',' || c == b';')

-- `SECRET_PATTERNS`
secret_patterns : List Regex
unfolding is_capital_or_digit is_key_label is_token_tail is_secret_char
secret_patterns =
    (word_iu "-----begin " then many is_key_label then word_iu "private key-----")
    ∷ (boundary then word "AKIA" then times 16 (one is_capital_or_digit) then boundary)
    ∷ (boundary
        then alt (word "ghp_") (alt (word "github_pat_") (word "sk-"))
        then at_least_times 12 is_token_tail
        then boundary)
    ∷ (boundary_iu
        then alt
            (word_iu "api" then optional (one (λ c. c == b'_' || c == b'-')) then word_iu "key")
            (words_iu ("password" ∷ "secret" ∷ "token" ∷ []))
        then optional_spaces
        then one (λ c. c == b':' || c == b'=')
        then optional_spaces
        then at_least_times 8 is_secret_char)
    ∷ []

unfoldable pub exposes_secret : List ℕ → Bool
unfolding secret_patterns
exposes_secret response = any (λ pattern. test_codes pattern response) secret_patterns

states : List String
states =
    "is" ∷ "are" ∷ "has" ∷ "have" ∷ "work" ∷ "works" ∷ "connected" ∷ "available" ∷ "healthy"
    ∷ "deployed" ∷ "running" ∷ "enabled" ∷ "disabled" ∷ []

-- `\b(?:…)\b.{0,80}\b(?:…)\b`
claim : List String → Regex
unfolding states
claim heads =
    boundary_iu
    then words_iu heads
    then boundary_iu
    then at_most_times 80 is_dot
    then boundary_iu
    then words_iu states
    then boundary_iu

claims_verification : Regex
claims_verification =
    boundary_iu
    then words_iu ("i" ∷ "we" ∷ [])
    then spaces
    then optional (word_iu "have" then spaces)
    then words_iu ("verified" ∷ "confirmed" ∷ "checked" ∷ "validated" ∷ [])
    then boundary_iu

epistemic_guard : Regex
epistemic_guard =
    alt
      (boundary_iu
        then words_iu (
            "cannot" ∷ "can't" ∷ "unable to" ∷ "not able to" ∷ "have not" ∷ "haven't" ∷ "did not"
            ∷ "didn't" ∷ [])
        then spaces
        then optional (word_iu "independently" then spaces)
        then words_iu ("verify" ∷ "confirm" ∷ "check" ∷ "validate" ∷ []))
      (boundary_iu
        then alt (words_iu ("unverified" ∷ "unknown" ∷ "uncertain" ∷ [])) (
            word_iu "based on "
            then optional (word_iu "the ")
            then words_iu ("provided" ∷ "available" ∷ [])
            then word_iu " "
            then words_iu ("context" ∷ "information" ∷ []))
        then boundary_iu)

unfoldable pub has_authority_scope_violation : List ℕ → Bool
unfolding claim claims_verification epistemic_guard
has_authority_scope_violation response =
    if test_codes epistemic_guard response
    then false
    else test_codes claims_verification response
      || test_codes (claim ("currently" ∷ "right now" ∷ "at present" ∷ "now" ∷ [])) response
      || test_codes
          (claim ("officially" ∷ "definitely" ∷ "guaranteed" ∷ "authorized" ∷ "approved" ∷ []))
          response

module _ (u : Unicode) where
  unfoldable pub has_prompt_leak : List ℕ → List ℕ → Bool
  has_prompt_leak prompt response =
      let normalized_prompt = normalize_text u prompt in
      let normalized_response = normalize_text u response in
      if is_empty normalized_prompt || is_empty normalized_response
      then false
      else if leb min_prompt_exact_characters (utf16_length normalized_prompt)
          && (normalized_response == normalized_prompt
              || includes normalized_response normalized_prompt)
      then true
      else contains_token_window (tokens u normalized_response) (tokens u normalized_prompt)

  unfoldable pub echoed_entries : List ℕ → List (List ℕ) → List (List ℕ)
  echoed_entries response corpus =
      filter
        (λ entry.
          if ltb (utf16_length (normalize_text u entry)) min_echo_entry_characters
          then false
          else includes (normalize_text u response) (normalize_text u entry)
            || contains_token_window (tokens u response) (tokens u entry))
        corpus

  total_length : List (List ℕ) → ℕ
  total_length [] = 0
  total_length (entry ∷ entries) = utf16_length (normalize_text u entry) + total_length entries

  unfoldable pub echoes_entries : List ℕ → List (List ℕ) → Bool
  unfolding total_length echoed_entries
  echoes_entries response corpus =
      let echoed = echoed_entries response corpus in
      leb 2 (length echoed) && leb min_multi_entry_echo_characters (total_length echoed)
