-- ===== src/Base/Unicode.antt =====
-- Texts as JavaScript sees them, on their code points: lengths, `trim`, `split`, `includes`. The
-- tables of Unicode are a parameter: normalisation, case and the classes of characters.
use Prim.Native.Char.{code}
use Prim.Native.String.{String}
use Prim.Native.Nat.{ℕ, zero, suc, ◌+◌, ◌-◌, ◌/◌, ◌%◌}
use mathlib.Core.Bool.{Bool, true, false, not, ◌&&◌, ◌||◌}
use mathlib.Core.List.{List, [], ◌∷◌, ◌++◌, reverse}
use chunsik_bot.Base.Tests.{leb, ltb, if◌then◌else◌}
use chunsik_bot.Base.Equality.{◌==◌, nat_eq, list_eq, string_eq}
use chunsik_bot.Base.Lists.{is_empty}
use chunsik_bot.Base.Regex.{is_space}

-- `normalize('NFKC')`, `toLocaleLowerCase('en-US')`, `\p{L}`, `\p{N}`, `\p{Lu}`, `\p{Script=Hangul}`
pub record Unicode : Type 0 where
  pub nfkc : List ℕ → List ℕ
  pub lower_case : List ℕ → List ℕ
  pub is_letter : ℕ → Bool
  pub is_number : ℕ → Bool
  pub is_upper : ℕ → Bool
  pub is_hangul : ℕ → Bool

-- `value.length`, in UTF-16 code units
unfoldable pub utf16_length : List ℕ → ℕ
utf16_length [] = 0
utf16_length (c ∷ cs) =
    let rest = utf16_length cs in if leb 0x10000 c then suc (suc rest) else suc rest

-- The code units themselves.
unfoldable pub utf16_units : List ℕ → List ℕ
utf16_units [] = []
utf16_units (c ∷ cs) =
    let rest = utf16_units cs in
    if leb 0x10000 c
    then (0xd800 + (c - 0x10000) / 0x400) ∷ (0xdc00 + (c - 0x10000) % 0x400) ∷ rest
    else c ∷ rest

-- `Buffer.byteLength(value, 'utf8')`
unfoldable pub utf8_length : List ℕ → ℕ
utf8_length [] = 0
utf8_length (c ∷ cs) =
    (if ltb c 0x80 then 1 else if ltb c 0x800 then 2 else if ltb c 0x10000 then 3 else 4)
    + utf8_length cs

abbrev pub take : {A : Type 0} → ℕ → List A → List A
take zero xs = []
take (suc n) [] = []
take (suc n) (x ∷ xs) = x ∷ take n xs

abbrev pub drop : {A : Type 0} → ℕ → List A → List A
drop zero xs = xs
drop (suc n) [] = []
drop (suc n) (x ∷ xs) = drop n xs

-- `value.startsWith(prefix)`, `value.endsWith(suffix)`, `value.includes(part)`
abbrev pub starts_with : List ℕ → List ℕ → Bool
starts_with cs [] = true
starts_with [] (p ∷ ps) = false
starts_with (c ∷ cs) (p ∷ ps) = c == p && starts_with cs ps

unfoldable pub ends_with : List ℕ → List ℕ → Bool
ends_with cs suffix = starts_with (reverse cs) (reverse suffix)

unfoldable pub includes : List ℕ → List ℕ → Bool
includes [] part = is_empty part
includes (c ∷ cs) part = starts_with (c ∷ cs) part || includes cs part

-- Without the white space at the start, and at both ends.
abbrev pub skip_spaces : List ℕ → List ℕ
skip_spaces [] = []
skip_spaces (c ∷ cs) = if is_space c then skip_spaces cs else c ∷ cs

unfoldable pub trim : List ℕ → List ℕ
trim cs = reverse (skip_spaces (reverse (skip_spaces cs)))

-- The maximal runs of characters of a class: `match(/[…]+/gu) ?? []`.
first_run : (ℕ → Bool) → List ℕ → List ℕ
first_run p [] = []
first_run p (c ∷ cs) = let rest = first_run p cs in if p c then c ∷ rest else []

-- `inside` where the character before belongs to a run that is already taken.
runs_from : (ℕ → Bool) → Bool → List ℕ → List (List ℕ)
unfolding first_run
runs_from p inside [] = []
runs_from p inside (c ∷ cs) =
    let others = runs_from p (p c) cs in
    if p c && not inside then first_run p (c ∷ cs) ∷ others else others

unfoldable pub runs_of : (ℕ → Bool) → List ℕ → List (List ℕ)
unfolding runs_from
runs_of p cs = runs_from p false cs

-- `parts.join(separator)`
unfoldable pub join_codes : List ℕ → List (List ℕ) → List ℕ
join_codes separator [] = []
join_codes separator (part ∷ []) = part
join_codes separator (part ∷ other ∷ parts) =
    part ++ separator ++ join_codes separator (other ∷ parts)

-- `replace(/\s+/gu, ' ')`
collapse_from : Bool → List ℕ → List ℕ
collapse_from inside [] = []
collapse_from inside (c ∷ cs) =
    let rest = collapse_from (is_space c) cs in
    if is_space c then (if inside then rest else 32 ∷ rest) else c ∷ rest

unfoldable pub collapse_spaces : List ℕ → List ℕ
unfolding collapse_from
collapse_spaces cs = collapse_from false cs

-- `value.trim()` as a text.
trim_start : String → String
trim_start String.[] = ""
trim_start (String.◌∷◌ c s) = if is_space (code c) then trim_start s else String.◌∷◌ c s

trim_end : String → String
trim_end String.[] = ""
trim_end (String.◌∷◌ c s) =
    let rest = trim_end s in if is_space (code c) && rest == "" then "" else String.◌∷◌ c rest

unfoldable pub trim_text : String → String
unfolding trim_start trim_end
trim_text s = trim_end (trim_start s)
