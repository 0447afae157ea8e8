-- ===== src/Governance/Risk.antt =====
-- risk-policy.ts: the risk of a capability and of a command, and which risks need an approval.
use chunsik_bot.Base.{ℕ, String, Bool, true, false, List, [], ◌∷◌, if◌then◌else◌, any, ltb}
use chunsik_bot.Base.Regex.{
  Regex, alt, boundary, test_regex, ◌then◌, char, word, word_i, spaces, optional_spaces, anything,
  nothing,
}
use chunsik_bot.Domain.{RiskLevel, Capability}

-- The table CAPABILITY_RISK.
unfoldable pub assess_capability : Capability → RiskLevel
assess_capability Capability.code_implementation = RiskLevel.high
assess_capability Capability.test_execution = RiskLevel.medium
assess_capability _ = RiskLevel.low

-- The tables CRITICAL_PATTERNS and HIGH_PATTERNS.
unfoldable pub critical_patterns : List Regex
critical_patterns =
    (boundary then word "rm" then spaces then word "-r" then alt (char b'f') nothing then boundary)
    ∷ (boundary
        then word "git"
        then spaces
        then word "push"
        then boundary
        then anything
        then alt (word "--force") (word "-f")
        then boundary)
    ∷ (boundary then word "git" then spaces then word "push" then spaces then word "--force")
    ∷ (boundary
        then word_i "drop"
        then spaces
        then alt (word_i "table") (word_i "database")
        then boundary)
    ∷ (boundary then word "mkfs" then boundary)
    ∷ (boundary then word "dd" then spaces then word "if=")
    ∷ (word ":()" then optional_spaces then char 123 then anything then char 125 then word ";:")
    ∷ []

unfoldable pub high_patterns : List Regex
high_patterns =
    (boundary then word "git" then spaces then word "commit" then boundary)
    ∷ (boundary then word "git" then spaces then word "push" then boundary)
    ∷ (boundary
        then word "gh"
        then spaces
        then word "pr"
        then spaces
        then word "create"
        then boundary)
    ∷ (boundary then word "npm" then spaces then word "publish" then boundary)
    ∷ (boundary then word "deploy" then boundary)
    ∷ []

unfoldable pub assess_command : String → RiskLevel
assess_command command =
    if any (λ p. test_regex p command) critical_patterns
    then RiskLevel.critical
    else if any (λ p. test_regex p command) high_patterns
    then RiskLevel.high
    else RiskLevel.medium

unfoldable pub requires_approval : RiskLevel → Bool
requires_approval RiskLevel.high = true
requires_approval RiskLevel.critical = true
requires_approval _ = false

-- The index in the array `order`.
abbrev pub order : RiskLevel → ℕ
order RiskLevel.low = 0
order RiskLevel.medium = 1
order RiskLevel.high = 2
order RiskLevel.critical = 3

abbrev pub more_severe : RiskLevel → RiskLevel → RiskLevel
more_severe acc level = if ltb (order acc) (order level) then level else acc

max_from : RiskLevel → List RiskLevel → RiskLevel
max_from acc [] = acc
max_from acc (level ∷ levels) = max_from (more_severe acc level) levels

-- The method `max`, a `reduce` from LOW.
unfoldable pub max_risk : List RiskLevel → RiskLevel
unfolding max_from
max_risk levels = max_from RiskLevel.low levels
