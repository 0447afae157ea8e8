-- ===== src/Delivery/Names.antt =====
-- The names that may reach git: push-target.ts, commit-message.ts and `isUnsafeCommitPath` of
-- git-manager.ts. A control character has the same code in UTF-16 and as a code point.
use chunsik_bot.Base.{
  ℕ, String, Bool, false, not, ◌&&◌, ◌||◌, List, [], ◌∷◌, any, all, contains, is_empty,
  if◌then◌else◌, ltb, leb, ◌==◌, string_eq, nat_eq, list_eq,
}
use chunsik_bot.Base.Text.{codes}
use chunsik_bot.Base.Regex.{is_space}
use chunsik_bot.Base.Unicode.{utf16_length, starts_with, ends_with, includes, trim_text}

abbrev max_remote_len : ℕ
max_remote_len = 100

abbrev max_branch_len : ℕ
max_branch_len = 200

abbrev max_commit_message_chars : ℕ
max_commit_message_chars = 120

is_control_char : ℕ → Bool
is_control_char c = ltb c 0x20 || c == 0x7f

unfoldable pub has_control_char : String → Bool
unfolding is_control_char
has_control_char s = any is_control_char (codes s)

-- Of a length from 1 to a bound.
abbrev pub is_bounded : ℕ → String → Bool
is_bounded bound s = not (is_empty (codes s)) && leb (utf16_length (codes s)) bound

-- `/[\s/:]/`
is_remote_unsafe : ℕ → Bool
is_remote_unsafe c = is_space c || c == b'/' || c == b':'

unfoldable pub is_safe_push_remote : String → Bool
unfolding is_remote_unsafe
is_safe_push_remote remote =
    is_bounded max_remote_len remote
    && not (starts_with (codes remote) (codes "-"))
    && not (any is_remote_unsafe (codes remote))
    && not (has_control_char remote)

-- `/[:~^?*[\\]/`
is_ref_unsafe : ℕ → Bool
is_ref_unsafe c = contains (codes ":~^?*[\\") c

unfoldable pub is_safe_push_branch : String → Bool
unfolding is_ref_unsafe
is_safe_push_branch branch =
    is_bounded max_branch_len branch
    && not (starts_with (codes branch) (codes "-") || starts_with (codes branch) (codes "/"))
    && not (ends_with (codes branch) (codes "/") || ends_with (codes branch) (codes ".lock"))
    && not (any is_space (codes branch))
    && not (has_control_char branch)
    && not (any is_ref_unsafe (codes branch))
    && not (
        includes (codes branch) (codes "..")
        || includes (codes branch) (codes "@{")
        || includes (codes branch) (codes "//"))

-- `/^[0-9a-f]{7,40}$/i`
is_hex_i : ℕ → Bool
is_hex_i c = leb b'0' c && leb c b'9' || leb b'a' c && leb c b'f' || leb b'A' c && leb c b'F'

unfoldable pub is_sha_shaped : String → Bool
unfolding is_hex_i
is_sha_shaped s =
    leb 7 (utf16_length (codes s)) && leb (utf16_length (codes s)) 40 && all is_hex_i (codes s)

unfoldable pub is_valid_commit_message : String → Bool
is_valid_commit_message message =
    is_bounded max_commit_message_chars (trim_text message)
    && not (has_control_char (trim_text message))

is_separator : ℕ → Bool
is_separator c = c == b'/' || c == b'\\'

is_drive_letter : ℕ → Bool
is_drive_letter c = leb b'a' c && leb c b'z' || leb b'A' c && leb c b'Z'

-- `/^([a-zA-Z]:[\\/]|[\\/])/`
is_absolute : List ℕ → Bool
unfolding is_separator is_drive_letter
is_absolute [] = false
is_absolute (c ∷ colon ∷ slash ∷ cs) =
    is_separator c || is_drive_letter c && colon == b':' && is_separator slash
is_absolute (c ∷ cs) = is_separator c

-- A character before the first part of a split.
abbrev onto_first : ℕ → List (List ℕ) → List (List ℕ)
onto_first c [] = (c ∷ []) ∷ []
onto_first c (part ∷ parts) = (c ∷ part) ∷ parts

-- `split(/[\\/]/)`
segments : List ℕ → List (List ℕ)
unfolding is_separator
segments [] = [] ∷ []
segments (c ∷ cs) =
    let rest = segments cs in if is_separator c then [] ∷ rest else onto_first c rest

unfoldable pub is_unsafe_commit_path : String → Bool
unfolding is_absolute segments
is_unsafe_commit_path p =
    trim_text p == ""
    || is_absolute (codes (trim_text p))
    || trim_text p == ".."
    || contains (segments (codes (trim_text p))) (codes "..")
