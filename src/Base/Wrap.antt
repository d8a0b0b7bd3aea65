-- ===== src/Base/Wrap.antt =====
-- wrapBase64: a text in lines of 76 characters. Its texts are base64, of one byte a character.
use cluster_api_provider_ver.Base.{zero, suc, ℕ, ◌<>◌, String}
use cluster_api_provider_ver.Base.Tests.{if◌then◌else◌, ltb}

unfoldable pub chars : String → ℕ
chars String.[] = 0
chars (String.◌∷◌ c s) = suc (chars s)

unfoldable pub take_chars : ℕ → String → String
take_chars zero s = ""
take_chars (suc n) String.[] = ""
take_chars (suc n) (String.◌∷◌ c s) = String.◌∷◌ c (take_chars n s)

unfoldable pub drop_chars : ℕ → String → String
drop_chars zero s = s
drop_chars (suc n) String.[] = ""
drop_chars (suc n) (String.◌∷◌ c s) = drop_chars n s

-- The loop on fuel: a turn takes 76 characters.
unfoldable pub wrap_lines : ℕ → String → String
wrap_lines zero s = ""
wrap_lines (suc fuel) s =
    let later = wrap_lines fuel (drop_chars 76 s) in
    if ltb 76 (chars s) then take_chars 76 s <> ("\n" <> later) else s <> "\n"

unfoldable pub wrap_base64 : String → String
unfolding wrap_lines
wrap_base64 s = wrap_lines (suc (chars s)) s
