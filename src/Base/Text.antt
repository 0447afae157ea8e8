-- ===== src/Base/Text.antt =====
-- The regular expressions by which the program recognises identifiers, versions and digests.
use Prim.Native.Char.{code}
use Prim.Native.Nat.{ℕ}
use Prim.Native.String.{String}
use mathlib.Core.Bool.{Bool, false, ◌&&◌, ◌||◌}
use mathlib.Core.List.{List, [], ◌∷◌}
use chunsik_bot.Base.Tests.{leb}
use chunsik_bot.Base.Equality.{◌==◌, nat_eq}
use chunsik_bot.Base.Lists.{length, all}

-- The code points of a text; these expressions accept ASCII alone.
abbrev pub codes : String → List ℕ
codes String.[] = []
codes (String.◌∷◌ c s) = code c ∷ codes s

is_alphanumeric : ℕ → Bool
is_alphanumeric c = leb b'A' c && leb c b'Z' || leb b'a' c && leb c b'z' || leb b'0' c && leb c b'9'

is_identifier_char : ℕ → Bool
unfolding is_alphanumeric
is_identifier_char c = is_alphanumeric c || c == b'.' || c == b'_' || c == b':' || c == b'-'

is_version_char : ℕ → Bool
unfolding is_alphanumeric
is_version_char c = is_alphanumeric c || c == b'.' || c == b'_' || c == b'-'

is_hex_digit : ℕ → Bool
is_hex_digit c = leb b'a' c && leb c b'f' || leb b'0' c && leb c b'9'

-- A first character of one class, then at most 127 of another.
bounded_word : (ℕ → Bool) → (ℕ → Bool) → List ℕ → Bool
bounded_word first rest [] = false
bounded_word first rest (c ∷ cs) = first c && leb (length cs) 127 && all rest cs

-- `/^[A-Za-z0-9][A-Za-z0-9._:-]{0,127}$/`
unfoldable pub is_routing_identifier : String → Bool
unfolding bounded_word is_alphanumeric is_identifier_char
is_routing_identifier s = bounded_word is_alphanumeric is_identifier_char (codes s)

-- `/^[A-Za-z0-9][A-Za-z0-9._-]{0,127}$/`
unfoldable pub is_version : String → Bool
unfolding bounded_word is_alphanumeric is_version_char
is_version s = bounded_word is_alphanumeric is_version_char (codes s)

-- `/^[a-f0-9]{64}$/`
unfoldable pub is_sha256 : String → Bool
unfolding is_hex_digit
is_sha256 s = length (codes s) == 64 && all is_hex_digit (codes s)
