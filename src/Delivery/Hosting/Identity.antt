-- ===== src/Delivery/Hosting/Identity.antt =====
-- domain/repository-hosting.ts: which identities and addresses are safe. The secret words are looked for
-- in names that the expressions have found to be ASCII.
use chunsik_bot.Base.{
  ℕ, String, Bool, true, false, not, ◌&&◌, ◌||◌, ◌+◌, List, [], ◌∷◌, map, any, all, contains,
  is_empty, if◌then◌else◌, ltb, leb, ◌==◌, string_eq, nat_eq,
}
use chunsik_bot.Base.Text.{codes}
use chunsik_bot.Base.Json.{◌⊕◌, decimal}
use chunsik_bot.Base.Regex.{is_space}
use chunsik_bot.Base.Unicode.{utf16_length, starts_with, ends_with, includes, trim_text}
use chunsik_bot.Delivery.Hosting.{RepositoryIdentity}
use Prim.Native.Char.{code}

abbrev max_repo_owner : ℕ
max_repo_owner = 39

abbrev max_repo_name : ℕ
max_repo_name = 100

abbrev pub max_pr_title : ℕ
max_pr_title = 200

abbrev pub max_pr_body : ℕ
max_pr_body = 8000

is_alphanumeric : ℕ → Bool
is_alphanumeric c = leb b'A' c && leb c b'Z' || leb b'a' c && leb c b'z' || leb b'0' c && leb c b'9'

unfoldable pub is_supported_hosting_provider : String → Bool
is_supported_hosting_provider p = p == "github"

abbrev secret_prefixes : List String
secret_prefixes = "ghp_" ∷ "github_pat_" ∷ "gho_" ∷ "ghu_" ∷ "ghs_" ∷ "ghr_" ∷ []

abbrev secret_substrings : List String
secret_substrings = "token" ∷ "secret" ∷ "password" ∷ "pat_" ∷ []

-- `toLowerCase` of ASCII
lower : ℕ → ℕ
lower c = if leb b'A' c && leb c b'Z' then c + 32 else c

unfoldable pub looks_like_secret : String → Bool
unfolding lower
looks_like_secret value =
    any (λ prefix. starts_with lowered (codes prefix)) secret_prefixes
    || any (λ part. includes lowered (codes part)) secret_substrings
  where
    lowered : List ℕ
    lowered = map lower (codes value)

-- `(?:-?[A-Za-z0-9])*$`; `dash` after a hyphen
owner_rest : Bool → List ℕ → Bool
unfolding is_alphanumeric
owner_rest dash [] = not dash
owner_rest dash (c ∷ cs) =
    if is_alphanumeric c then owner_rest false cs else c == b'-' && not dash && owner_rest true cs

owner_shaped : List ℕ → Bool
unfolding is_alphanumeric owner_rest
owner_shaped [] = false
owner_shaped (c ∷ cs) = is_alphanumeric c && owner_rest false cs

unfoldable pub is_safe_repo_owner : String → Bool
unfolding owner_shaped
is_safe_repo_owner s =
    leb (utf16_length (codes s)) max_repo_owner
    && owner_shaped (codes s)
    && not (looks_like_secret s)

is_name_char : ℕ → Bool
unfolding is_alphanumeric
is_name_char c = is_alphanumeric c || c == b'.' || c == b'_' || c == b'-'

unfoldable pub is_safe_repo_name : String → Bool
unfolding is_name_char lower
is_safe_repo_name s =
    not (is_empty (codes s))
    && leb (utf16_length (codes s)) max_repo_name
    && all is_name_char (codes s)
    && not (s == "." || s == "..")
    && not (starts_with (codes s) (codes "."))
    && not (ends_with (map lower (codes s)) (codes ".git"))
    && not (looks_like_secret s)

-- `replace(/\s+/g, ' ')`; `inside` after a white space
collapse : Bool → String → String
collapse inside String.[] = ""
collapse inside (String.◌∷◌ c s) =
    let rest = collapse (is_space (code c)) s in
    if is_space (code c) then (if inside then rest else " " ⊕ rest) else String.◌∷◌ c rest

unfoldable pub normalize_pr_title : String → String
unfolding collapse
normalize_pr_title raw = trim_text (collapse false raw)

-- The address of a pull request.
unfoldable pub pull_request_url_of : RepositoryIdentity → ℕ → String
pull_request_url_of identity number =
    "https://github.com/" ⊕ identity.owner ⊕ "/" ⊕ identity.repo ⊕ "/pull/" ⊕ decimal number

is_url_unsafe : ℕ → Bool
is_url_unsafe c = contains (codes "@?#%") c

unfoldable pub is_safe_github_pull_request_url : String → RepositoryIdentity → ℕ → Bool
unfolding is_url_unsafe
is_safe_github_pull_request_url url identity number =
    not (is_empty (codes url))
    && leb (utf16_length (codes url)) 300
    && not (any is_url_unsafe (codes url))
    && ltb 0 number
    && url == pull_request_url_of identity number
