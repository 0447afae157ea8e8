-- ===== src/Governance/Tests.antt =====
-- Risk at concrete commands.
mod Approvals
mod Commands
mod Tasks
use chunsik_bot.Base.{◌≡◌, refl, true, String}
use chunsik_bot.Base.Regex.{test_regex, ends}
use chunsik_bot.Base.Hash.{content_hash, fnv, fnv_step, hex_word, code_units}
use chunsik_bot.Base.Json.{hex_digit_text}
use chunsik_bot.Domain.{RiskLevel}
use chunsik_bot.Governance.Risk.{assess_command, critical_patterns, high_patterns}

removal_is_critical : assess_command "sudo rm -rf /" ≡ RiskLevel.critical
unfolding assess_command critical_patterns high_patterns test_regex ends
removal_is_critical = refl

forced_push_is_critical : assess_command "git push origin main --force" ≡ RiskLevel.critical
unfolding assess_command critical_patterns high_patterns test_regex ends
forced_push_is_critical = refl

push_is_high : assess_command "git push origin main" ≡ RiskLevel.high
unfolding assess_command critical_patterns high_patterns test_regex ends
push_is_high = refl

test_is_medium : assess_command "pnpm test" ≡ RiskLevel.medium
unfolding assess_command critical_patterns high_patterns test_regex ends
test_is_medium = refl

hash_of_abc : content_hash "abc" ≡ "1a47e90b9bb50634"
unfolding content_hash fnv fnv_step hex_word code_units hex_digit_text
hash_of_abc = refl
