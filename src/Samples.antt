-- ===== src/Samples.antt =====
-- A concrete platform for the tests: one digest for all texts, and a collation by length.
use Prim.Native.Nat.{compare}
use chunsik_bot.Base.{String, refl, length, map, leb, ◌&&◌, ◌||◌}
use chunsik_bot.Base.Unicode.{Unicode}
use chunsik_bot.Base.Regex.{fold_case}
use chunsik_bot.Base.Text.{codes, is_sha256}
use chunsik_bot.Base.Sort.Laws.{by_number-IsPreorder}
use chunsik_bot.Base.Platform.{Platform, HasHexDigests, HasCollation}

abbrev pub sample_digest : String
sample_digest = "e3b0c44298fc1c149afbf4c8996fb92427ae41e4649b934ca495991b7852b855"

abbrev pub sample_platform : Platform
sample_platform = record {
  sha256 = λ text. sample_digest;
  locale_compare = λ a b. compare (length (codes a)) (length (codes b));
}

pub sample_platform-HasHexDigests : HasHexDigests sample_platform
unfolding is_sha256
sample_platform-HasHexDigests text = refl

pub sample_platform-HasCollation : HasCollation sample_platform
sample_platform-HasCollation = by_number-IsPreorder (λ text. length (codes text))

-- The Unicode tables on ASCII and Hangul syllables alone.
abbrev pub sample_unicode : Unicode
sample_unicode = record {
  nfkc = λ cs. cs;
  lower_case = λ cs. map fold_case cs;
  is_letter =
      λ c. leb b'a' c && leb c b'z' || leb b'A' c && leb c b'Z' || leb 0xac00 c && leb c 0xd7a3;
  is_number = λ c. leb b'0' c && leb c b'9';
  is_upper = λ c. leb b'A' c && leb c b'Z';
  is_hangul = λ c. leb 0xac00 c && leb c 0xd7a3;
}
