-- ===== src/Base/Base64.antt =====
-- encoding/base64's StdEncoding, and the bytes of a text.
use cluster_api_provider_ver.Base.{
  ◌||◌, false, ◌≡◌, ◌+◌, ◌∷◌, some, refl, none, suc, Option, Bool, ◌*◌, List, [], zero, ◌++◌, ℕ,
  true, String,
}
use Prim.Native.Char.{Char, nul, code}
use cluster_api_provider_ver.Base.Tests.{if◌then◌else◌, nat_eq, ltb}
use Prim.Native.Nat.{◌%◌, ◌/◌}

-- The UTF-8 of a code point.
abbrev utf8 : ℕ → List ℕ
utf8 c =
    if ltb c 128
    then c ∷ []
    else if ltb c 2048
    then (192 + c / 64) ∷ (128 + c % 64) ∷ []
    else if ltb c 65536
    then (224 + c / 4096) ∷ (128 + c / 64 % 64) ∷ (128 + c % 64) ∷ []
    else (240 + c / 262144) ∷ (128 + c / 4096 % 64) ∷ (128 + c / 64 % 64) ∷ (128 + c % 64) ∷ []

unfoldable pub bytes_of : String → List ℕ
bytes_of String.[] = []
bytes_of (String.◌∷◌ c s) = utf8 (code c) ++ bytes_of s

abbrev alphabet : String
alphabet = "ABCDEFGHIJKLMNOPQRSTUVWXYZabcdefghijklmnopqrstuvwxyz0123456789+/"

-- The character at a position of a text; NUL beyond its end.
abbrev pick : ℕ → String → Char
pick n String.[] = nul
pick zero (String.◌∷◌ c s) = c
pick (suc n) (String.◌∷◌ c s) = pick n s

unfoldable pub digit : ℕ → Char
digit n = pick n alphabet

-- The position of a character in a text.
abbrev find_code : ℕ → ℕ → String → Option ℕ
find_code n k String.[] = none
find_code n k (String.◌∷◌ c s) = if nat_eq (code c) k then some n else find_code (suc n) k s

unfoldable pub value : Char → Option ℕ
value c = find_code 0 (code c) alphabet

unfoldable pub encode : List ℕ → String
unfolding digit
encode [] = ""
encode (a ∷ []) = String.◌∷◌ (digit (a / 4)) (String.◌∷◌ (digit (a % 4 * 16)) "==")
encode (a ∷ b ∷ []) =
    String.◌∷◌ (digit (a / 4))
      (String.◌∷◌ (digit (a % 4 * 16 + b / 16)) (String.◌∷◌ (digit (b % 16 * 4)) "="))
encode (a ∷ b ∷ c ∷ rest) = String.◌∷◌ (digit (a / 4)) (
    String.◌∷◌ (digit (a % 4 * 16 + b / 16))
      (String.◌∷◌ (digit (b % 16 * 4 + c / 64)) (String.◌∷◌ (digit (c % 64)) (encode rest))))

abbrev is_end : String → Bool
is_end String.[] = true
is_end (String.◌∷◌ c s) = false

abbrev pub is_pad : Char → Bool
is_pad c = nat_eq (code c) b'='

-- The last quantum, where its fourth character is padding.
abbrev padded : ℕ → ℕ → Char → Option (List ℕ)
padded p q c = if is_pad c then some ((p * 4 + q / 16) ∷ []) else elim (value c) [
  | none ↦ none
  | some r ↦ some ((p * 4 + q / 16) ∷ (q % 16 * 16 + r / 4) ∷ [])
]

abbrev full : ℕ → ℕ → Option ℕ → Option ℕ → Option (List ℕ) → Option (List ℕ)
full p q (some r) (some s) (some rest) =
    some ((p * 4 + q / 16) ∷ (q % 16 * 16 + r / 4) ∷ (r % 4 * 64 + s) ∷ rest)
full p q _ _ _ = none

abbrev quantum : Option ℕ → Option ℕ → Char → Char → Bool → Option (List ℕ) → Option (List ℕ)
quantum (some p) (some q) c d last rest =
    if is_pad d then (if last then padded p q c else none) else full p q (value c) (value d) rest
quantum _ _ c d last rest = none

-- Quanta of four characters; the bits that a padded quantum leaves over are ignored, as in Go.
unfoldable pub decode_quanta : String → Option (List ℕ)
unfolding value
decode_quanta String.[] = some []
decode_quanta (String.◌∷◌ a (String.◌∷◌ b (String.◌∷◌ c (String.◌∷◌ d rest)))) =
    quantum (value a) (value b) c d (is_end rest) (decode_quanta rest)
decode_quanta _ = none

-- The text without its line ends, which DecodeString skips.
unfoldable pub strip_lines : String → String
strip_lines String.[] = ""
strip_lines (String.◌∷◌ c s) =
    if nat_eq (code c) b'\n' || nat_eq (code c) b'\r'
    then strip_lines s
    else String.◌∷◌ c (strip_lines s)

-- DecodeString; nothing where the text is corrupt.
unfoldable pub decode : String → Option (List ℕ)
unfolding decode_quanta
decode s = decode_quanta (strip_lines s)

-- base64.StdEncoding.EncodeToString([]byte(s))
abbrev pub encode_text : String → String
encode_text s = encode (bytes_of s)

encode_ok : (encode_text "Ma" ≡ "TWE=") × (decode "TWE=" ≡ some (77 ∷ 97 ∷ []))
unfolding encode decode strip_lines bytes_of
encode_ok = (refl, refl)
