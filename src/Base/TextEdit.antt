-- ===== src/Base/TextEdit.antt =====
-- More of Go's packages strings and bytes on texts: replacing, trimming, and joining.
-- strings.ReplaceAll of one character.
use Prim.Native.Char.{Char, code}
use cluster_api_provider_ver.Base.{
  true, false, List, ℕ, [], ◌≡◌, ◌∷◌, ◌==◌, suc, refl, ◌&&◌, zero, String, ◌-◌, ◌<>◌, ◌||◌, Bool,
}
use cluster_api_provider_ver.Base.Tests.{if◌then◌else◌, ltb, nat_eq}
use text.Mathlib.Text.{starts_with}
use cluster_api_provider_ver.Base.Wrap.{chars}

unfoldable pub replace_char : ℕ → String → String → String
replace_char old new String.[] = ""
replace_char old new (String.◌∷◌ c s) =
    let rest = replace_char old new s in
    if nat_eq (code c) old then new <> rest else String.◌∷◌ c rest

-- strings.ReplaceAll of a text that is not empty; the number is what is left of a match.
abbrev emit : Bool → String → Char → String → String
emit true new c rest = new <> rest
emit false new c rest = String.◌∷◌ c rest

abbrev left_of : Bool → String → ℕ
left_of true old = chars old - 1
left_of false old = 0

unfoldable replace_from : ℕ → String → String → String → String
replace_from skip old new String.[] = ""
replace_from (suc skip) old new (String.◌∷◌ c s) = replace_from skip old new s
replace_from zero old new (String.◌∷◌ c s) =
    let hit = starts_with (String.◌∷◌ c s) old in
    emit hit new c (replace_from (left_of hit old) old new s)

unfoldable pub replace_all : String → String → String → String
unfolding replace_from chars
replace_all s old new = replace_from zero old new s

-- ASCII white space.
abbrev is_space : Char → Bool
is_space c = nat_eq (code c) b' ' || (ltb 8 (code c) && ltb (code c) 14)

unfoldable trim_left : String → String
trim_left String.[] = ""
trim_left (String.◌∷◌ c s) = let rest = trim_left s in if is_space c then rest else String.◌∷◌ c s

unfoldable trim_right : String → String
trim_right String.[] = ""
trim_right (String.◌∷◌ c s) =
    let rest = trim_right s in if rest == "" && is_space c then "" else String.◌∷◌ c rest

-- strings.TrimSpace
unfoldable pub trim_space : String → String
unfolding trim_left trim_right
trim_space s = trim_right (trim_left s)

-- strings.Join
unfoldable pub join_texts : String → List String → String
join_texts sep [] = ""
join_texts sep (x ∷ []) = x
join_texts sep (x ∷ y ∷ rest) = x <> sep <> join_texts sep (y ∷ rest)

replace_ok : replace_all "a {{h}} {{h}}" "{{h}}" "w" ≡ "a w w"
unfolding replace_all
replace_ok = refl

edits_ok : (trim_space " \t a b \n" ≡ "a b") × (join_texts " " ("a" ∷ "b" ∷ []) ≡ "a b")
unfolding trim_space join_texts
edits_ok = (refl, refl)
