-- ===== src/Base/Wrapping.antt =====
-- wrapBase64: its lines, and what is left of them without their ends.
use text.Mathlib.TextLemmas.{append-nil, nil-append, cons-append}
use cluster_api_provider_ver.Base.{
  true, inr, ◌&&◌, zero, String, Bool, suc, ◌∙◌, refl, ℕ, ◌≤◌, ◌-◌, ◌<>◌, arith, ◌≡◌, ap, false,
  inl, sym, ◌<◌,
}
use cluster_api_provider_ver.Base.Base64.{strip_lines}
use cluster_api_provider_ver.Base.Tests.{if◌then◌else◌, Bool-cases, ltb}
use cluster_api_provider_ver.Base.Wrap.{drop_chars, take_chars, chars, wrap_lines}
use cluster_api_provider_ver.Base.Decoding.{is_line_end}
use Prim.Native.Char.{Char}

unfoldable pub IsBare : String → Type 0
IsBare String.[] = Unit
IsBare (String.◌∷◌ c s) = (is_line_end c ≡ false) × IsBare s

-- No line has more than 76 characters, and the first no more than the number.
unfoldable pub lines_within : ℕ → String → Bool
lines_within k String.[] = true
lines_within zero (String.◌∷◌ c s) = let next = lines_within 76 s in is_line_end c && next
lines_within (suc k) (String.◌∷◌ c s) =
    let next = lines_within 76 s in
    let same = lines_within k s in if is_line_end c then next else same

strip_lines_lem : (s : String) → IsBare s → strip_lines s ≡ s
unfolding strip_lines IsBare
strip_lines_lem String.[] h = refl
strip_lines_lem (String.◌∷◌ c s) (here, rest) =
    ground arith ∙ ap (String.◌∷◌ c) (strip_lines_lem s rest)

abbrev unless : Bool → Char → String → String
unless b c s = if b then s else String.◌∷◌ c s

unless-append : (b : Bool) (c : Char) (s t : String) → unless b c s <> t ≡ unless b c (s <> t)
unless-append true c s t = refl
unless-append false c s t = cons-append c s t

strip_lines-append : (s t : String) → strip_lines (s <> t) ≡ strip_lines s <> strip_lines t
unfolding strip_lines
strip_lines-append String.[] t = ap strip_lines (nil-append t) ∙ sym (nil-append (strip_lines t))
strip_lines-append (String.◌∷◌ c s) t =
    let b = is_line_end c in
    ap strip_lines (cons-append c s t)
    ∙ ap (unless b c) (strip_lines-append s t)
    ∙ sym (unless-append b c (strip_lines s) (strip_lines t))

-- A text of one character in front.
pub one-append : (c : Char) (s : String) → String.◌∷◌ c "" <> s ≡ String.◌∷◌ c s
one-append c s = cons-append c "" s ∙ ap (String.◌∷◌ c) (nil-append s)

take-drop : (n : ℕ) (s : String) → take_chars n s <> drop_chars n s ≡ s
unfolding take_chars drop_chars
take-drop zero s = nil-append s
take-drop (suc n) String.[] = nil-append ""
take-drop (suc n) (String.◌∷◌ c s) =
    cons-append c (take_chars n s) (drop_chars n s) ∙ ap (String.◌∷◌ c) (take-drop n s)

drop-IsBare : (n : ℕ) (s : String) → IsBare s → IsBare (drop_chars n s)
unfolding drop_chars IsBare
drop-IsBare zero s h = h
drop-IsBare (suc n) String.[] h = tt
drop-IsBare (suc n) (String.◌∷◌ c s) (here, rest) = drop-IsBare n s rest

take-IsBare : (n : ℕ) (s : String) → IsBare s → IsBare (take_chars n s)
unfolding take_chars IsBare
take-IsBare zero s h = tt
take-IsBare (suc n) String.[] h = tt
take-IsBare (suc n) (String.◌∷◌ c s) (here, rest) = (here, take-IsBare n s rest)

chars-drop : (n : ℕ) (s : String) → chars (drop_chars n s) ≡ chars s - n
unfolding drop_chars chars
chars-drop zero s = omega arith
chars-drop (suc n) String.[] = omega arith
chars-drop (suc n) (String.◌∷◌ c s) = ground (arith, chars-drop n s)

chars-take : (n : ℕ) (s : String) → chars (take_chars n s) ≤ n
unfolding take_chars chars
chars-take zero s = omega arith
chars-take (suc n) String.[] = omega arith
chars-take (suc n) (String.◌∷◌ c s) = ground (arith, chars-take n s)

lines_within-append :
    (k : ℕ) (s t : String)
    → IsBare s
    → chars s ≤ k
    → lines_within k (s <> ("\n" <> t)) ≡ lines_within 76 t
unfolding lines_within IsBare chars
lines_within-append zero String.[] t h small =
    ap (lines_within 0) (nil-append _ ∙ one-append "\n" t)
lines_within-append (suc k) String.[] t h small =
    ap (lines_within (suc k)) (nil-append _ ∙ one-append "\n" t)
lines_within-append zero (String.◌∷◌ c s) t h small = absurd (omega arith)
lines_within-append (suc k) (String.◌∷◌ c s) t (here, rest) small =
    ap (lines_within (suc k)) (cons-append c s ("\n" <> t))
    ∙ ground arith
    ∙ lines_within-append k s t rest (omega arith)

-- Without its line ends the second text is the first, and its lines have at most 76 characters.
abbrev pub IsWrapped : String → String → Type 0
IsWrapped s out = (strip_lines out ≡ s) × (lines_within 76 out ≡ true)

strip_end : (s : String) → IsBare s → strip_lines (s <> "\n") ≡ s
unfolding strip_lines
strip_end s h = strip_lines-append s "\n" ∙ append-nil (strip_lines s) ∙ strip_lines_lem s h

strip_line :
    (s later : String)
    → IsBare s
    → strip_lines later ≡ drop_chars 76 s
    → strip_lines (take_chars 76 s <> ("\n" <> later)) ≡ s
unfolding strip_lines
strip_line s later h rest =
    let line = take_chars 76 s in
    strip_lines-append line ("\n" <> later)
    ∙ ap (λ (u : String). u <> strip_lines ("\n" <> later))
        (strip_lines_lem line (take-IsBare 76 s h))
    ∙ ap (λ (u : String). line <> u) (ap strip_lines (one-append "\n" later) ∙ rest)
    ∙ take-drop 76 s

pub wrap_lines-IsWrapped :
    (fuel : ℕ) (s : String) → IsBare s → chars s < fuel → IsWrapped s (wrap_lines fuel s)
unfolding wrap_lines lines_within
wrap_lines-IsWrapped zero s h enough = absurd (omega arith)
wrap_lines-IsWrapped (suc fuel) s h enough = elim (Bool-cases (ltb 76 (chars s))) [
  | inl e ↦
      let later = wrap_lines fuel (drop_chars 76 s) in
      let rest =
        wrap_lines-IsWrapped fuel (drop_chars 76 s) (drop-IsBare 76 s h)
          (ground (arith, chars-drop 76 s)) in
      let step : wrap_lines (suc fuel) s ≡ take_chars 76 s <> ("\n" <> later) = ground arith in
      (
        ap strip_lines step ∙ strip_line s later h rest.0,
        ap (lines_within 76) step
            ∙ lines_within-append 76 (take_chars 76 s) later (take-IsBare 76 s h) (chars-take 76 s)
            ∙ rest.1,
      )
  | inr e ↦
      let step : wrap_lines (suc fuel) s ≡ s <> ("\n" <> "") = ground arith in
      (
        ap strip_lines step ∙ strip_end s h,
        ap (lines_within 76) step ∙ lines_within-append 76 s "" h (ground arith),
      )
]

pub same_lines :
    (m n : ℕ) (s : String) → chars s < m → chars s < n → wrap_lines m s ≡ wrap_lines n s
unfolding wrap_lines
same_lines zero n s x y = absurd (omega arith)
same_lines (suc m) zero s x y = absurd (omega arith)
same_lines (suc m) (suc n) s x y = elim (Bool-cases (ltb 76 (chars s))) [
  | inl e ↦
      let rest =
        same_lines m n (drop_chars 76 s) (ground (arith, chars-drop 76 s))
          (ground (arith, chars-drop 76 s)) in
      ground arith
  | inr e ↦ ground arith
]
