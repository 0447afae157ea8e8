-- ===== src/Base/Platform.antt =====
-- What the program takes from its platform: `createHash('sha256')…digest('hex')` of node:crypto and
-- `String.prototype.localeCompare` of the ICU collation, with what the code relies on.
use Prim.Native.Nat.{Ordering}
use Prim.Native.String.{String}
use mathlib.Core.Path.{◌≡◌}
use mathlib.Core.Bool.{true}
use chunsik_bot.Base.Text.{is_sha256}
use chunsik_bot.Base.Sort.{IsPreorder}

pub record Platform : Type 0 where
  pub sha256 : String → String
  pub locale_compare : String → String → Ordering

-- A digest in hexadecimal has 64 digits of 0-9, a-f.
abbrev pub HasHexDigests : Platform → Type 0
HasHexDigests p = (text : String) → is_sha256 (p.sha256 text) ≡ true

-- The collation is a total preorder.
abbrev pub HasCollation : Platform → Type 0
HasCollation p = IsPreorder p.locale_compare
