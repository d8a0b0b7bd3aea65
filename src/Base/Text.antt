-- ===== src/Base/Text.antt =====
-- Operations of Go's package strings on texts. Lengths and positions count bytes, as Go's do.
-- Letters are folded as ASCII: what the program folds are names and keywords of that alphabet.
use Prim.Native.Nat.{zero, suc, ◌+◌, ℕ}
use Prim.Native.Char.{Char, code}
use Prim.Native.String.{◌++◌ as ◌<>◌, String, len, slice}
use mathlib.Core.Bool.{Bool}
use mathlib.Core.Option.{Option, none, some}
use mathlib.Core.Path.{◌≡◌, refl}
use mathlib.Core.List.{List, [], ◌∷◌}
use text.Mathlib.Text.{◌==◌, starts_with}
use cluster_api_provider_ver.Base.Tests.{ltb, nat_eq, if◌then◌else◌}

abbrev fold_letter : String → String → Char → Char
fold_letter (String.◌∷◌ u us) (String.◌∷◌ l ls) c =
    if nat_eq (code c) (code u) then l else fold_letter us ls c
fold_letter _ _ c = c

abbrev pub lower_char : Char → Char
lower_char c = fold_letter "ABCDEFGHIJKLMNOPQRSTUVWXYZ" "abcdefghijklmnopqrstuvwxyz" c

-- strings.ToLower
unfoldable pub to_lower : String → String
to_lower String.[] = ""
to_lower (String.◌∷◌ c s) = String.◌∷◌ (lower_char c) (to_lower s)

-- strings.EqualFold
abbrev pub equal_fold : String → String → Bool
equal_fold s t = to_lower s == to_lower t

-- strings.Cut at a separator of one character: the text before it and the text after it, and
-- nothing where the separator does not occur.
unfoldable pub cut : ℕ → String → Option (String × String)
cut sep String.[] = none
cut sep (String.◌∷◌ c s) =
    let rest = cut sep s in
    if nat_eq (code c) sep
    then some ("", s)
    else elim rest [ none ↦ none | some (before, after) ↦ some (String.◌∷◌ c before, after) ]

-- strings.HasPrefix and strings.TrimPrefix
abbrev pub has_prefix : String → String → Bool
has_prefix s p = starts_with s p

abbrev pub trim_prefix : String → String → String
trim_prefix s p = if starts_with s p then slice s (len p) (len s) else s

-- The code points of a text: its bytes, if it is ASCII.
abbrev pub codes : String → List ℕ
codes String.[] = []
codes (String.◌∷◌ first rest) = code first ∷ codes rest

-- The decimal digits of a number, the last first, by counting up.
next_digits : List ℕ → List ℕ
next_digits [] = 1 ∷ []
next_digits (d ∷ ds) = let carried = 0 ∷ next_digits ds in if ltb d 9 then (d + 1) ∷ ds else carried

digits : ℕ → List ℕ
digits zero = 0 ∷ []
digits (suc n) = next_digits (digits n)

abbrev digit_text : ℕ → List String → String
digit_text n [] = ""
digit_text zero (t ∷ ts) = t
digit_text (suc n) (t ∷ ts) = digit_text n ts

write_digits : List ℕ → String → String
write_digits [] out = out
write_digits (d ∷ ds) out =
    write_digits ds
      (digit_text d ("0" ∷ "1" ∷ "2" ∷ "3" ∷ "4" ∷ "5" ∷ "6" ∷ "7" ∷ "8" ∷ "9" ∷ []) <> out)

-- fmt's %d
unfoldable pub decimal : ℕ → String
unfolding write_digits digits next_digits
decimal n = write_digits (digits n) ""

decimal_ok : (decimal 0 ≡ "0") × (decimal 443 ≡ "443") × (decimal 100 ≡ "100")
unfolding decimal
decimal_ok = (refl, refl, refl)

lower_ok : to_lower "Ab-Z9" ≡ "ab-z9"
unfolding to_lower
lower_ok = refl

cut_ok : cut b'@' "running@12@3" ≡ some ("running", "12@3")
unfolding cut
cut_ok = refl

trim_ok : trim_prefix "verda://a" "verda://" ≡ "a"
trim_ok = refl
