-- ===== src/Delivery/Git/Discipline.antt =====
-- Which calls of the provider change a repository.
use chunsik_bot.Base.{ℕ, suc, Bool, true, false, List, [], ◌∷◌, if◌then◌else◌}
use chunsik_bot.Delivery.Git.{
  GitEvent, files_committed, commit_pushed, main_forwarded, branch_deleted,
}

abbrev pub is_mutation : GitEvent → Bool
is_mutation (files_committed root files message reply) = true
is_mutation (commit_pushed root remote branch commit reply) = true
is_mutation (main_forwarded root remote branch expected previous reply) = true
is_mutation (branch_deleted root branch commit reply) = true
is_mutation _ = false

-- How many calls of a history change a repository.
abbrev pub mutations : List GitEvent → ℕ
mutations [] = 0
mutations (event ∷ history) =
    let rest = mutations history in if is_mutation event then suc rest else rest
