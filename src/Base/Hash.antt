-- ===== src/Base/Hash.antt =====
-- packages/core/src/util/hash.ts: the content hash, two passes of FNV-1a on 32-bit words.
use Prim.Native.Nat.{ℕ, zero, suc, ◌+◌, ◌*◌, ◌/◌, ◌%◌, ◌-◌, bit_xor}
use Prim.Native.String.{String}
use mathlib.Core.List.{List, [], ◌∷◌}
use chunsik_bot.Base.Tests.{ltb, if◌then◌else◌}
use chunsik_bot.Base.Text.{codes}
use chunsik_bot.Base.Json.{◌⊕◌, hex_digit_text}

-- `charCodeAt`: a code point above the basic plane is two code units.
unfoldable pub code_units : List ℕ → List ℕ
code_units [] = []
code_units (c ∷ cs) =
    let rest = code_units cs in
    if ltb c 65536
    then c ∷ rest
    else (55296 + (c - 65536) / 1024) ∷ (56320 + (c - 65536) % 1024) ∷ rest

-- `Math.imul(h ^ c, 0x01000193)`, as the word that it is modulo 2^32
unfoldable pub fnv_step : ℕ → ℕ → ℕ
fnv_step h c = bit_xor h c * 16777619 % 4294967296

unfoldable pub fnv : ℕ → List ℕ → ℕ
fnv h [] = h
fnv h (c ∷ cs) = fnv (fnv_step h c) cs

-- `toString(16).padStart(8, '0')`
unfoldable pub hex_word : ℕ → ℕ → String
hex_word zero h = ""
hex_word (suc digits) h = hex_word digits (h / 16) ⊕ hex_digit_text (h % 16)

-- The offsets are 0x811c9dc5 and 0x811c9dc5 ^ 0x9e3779b9.
unfoldable pub content_hash : String → String
content_hash input =
    hex_word 8 (fnv 2166136261 (code_units (codes input)))
    ⊕ hex_word 8 (fnv (bit_xor 2166136261 2654435769) (code_units (codes input)))
