-- ===== src/Base/Decoding.antt =====
-- Base64: decoding gives back what was encoded.
-- A test at the numbers below a bound.
use cluster_api_provider_ver.Base.{
  true, ◌+◌, ap, refl, ℕ, ◌∙◌, ◌||◌, ◌*◌, zero, arith, ◌∷◌, ◌<◌, inr, not, Bool, none, suc, Option,
  List, [], some, ◌&&◌, false, ◌≡◌, inl, String,
}
use Prim.Native.Char.{Char, code}
use cluster_api_provider_ver.Base.Base64.{digit, is_pad, value, encode, decode_quanta}
use cluster_api_provider_ver.Base.Tests.{Bool-cases, nat_eq}
use Prim.Native.Nat.{◌%◌, ◌/◌}

abbrev all_below : ℕ → (ℕ → Bool) → Bool
all_below zero test = true
all_below (suc n) test = test n && all_below n test

both_true : (a b : Bool) → a && b ≡ true → (a ≡ true) × (b ≡ true)
both_true a b h = ground arith

all_below_lem :
    (n : ℕ) (test : ℕ → Bool) → all_below n test ≡ true → (k : ℕ) → k < n → test k ≡ true
all_below_lem zero test h k small = absurd (omega arith)
all_below_lem (suc n) test h k small =
    let parts = both_true (test n) (all_below n test) h in
    elim (Bool-cases (nat_eq k n)) [
      | inl e ↦ ap test (ground arith) ∙ parts.0
      | inr e ↦ all_below_lem n test parts.1 k (ground arith)
    ]

abbrev pub is_line_end : Char → Bool
is_line_end c = nat_eq (code c) b'\n' || nat_eq (code c) b'\r'

abbrev has_value : ℕ → Option ℕ → Bool
has_value n none = false
has_value n (some k) = nat_eq k n

abbrev reads_back : ℕ → Bool
reads_back n =
    not (is_pad (digit n)) && (not (is_line_end (digit n)) && has_value n (value (digit n)))

digits_read_back : (n : ℕ) → n < 64 → reads_back n ≡ true
unfolding digit value
digits_read_back = all_below_lem 64 reads_back refl

abbrev pub IsDigit : ℕ → Char → Type 0
IsDigit n c = (is_pad c ≡ false) × (is_line_end c ≡ false) × (value c ≡ some n)

value_from : (n : ℕ) (o : Option ℕ) → has_value n o ≡ true → o ≡ some n
value_from n none h = ground arith
value_from n (some k) h = ap some (ground arith)

pub digit-IsDigit : (n : ℕ) → n < 64 → IsDigit n (digit n)
digit-IsDigit n small =
    let known = digits_read_back n small in
    (ground arith, ground arith, value_from n (value (digit n)) (ground arith))

abbrev pub IsBytes : List ℕ → Type 0
IsBytes [] = Unit
IsBytes (a ∷ bs) = (a < 256) × IsBytes bs

first_of : (a b : ℕ) → a < 256 → b < 256 → a / 4 * 4 + (a % 4 * 16 + b / 16) / 16 ≡ a
first_of a b x y = omega arith

second_of :
    (a b c : ℕ)
    → a < 256
    → b < 256
    → c < 256
    → (a % 4 * 16 + b / 16) % 16 * 16 + (b % 16 * 4 + c / 64) / 4 ≡ b
second_of a b c x y z = omega arith

third_of : (b c : ℕ) → b < 256 → c < 256 → (b % 16 * 4 + c / 64) % 4 * 64 + c % 64 ≡ c
third_of b c y z = omega arith

pub bounds_of :
    (a b : ℕ)
    → a < 256
    → b < 256
    → (a / 4 < 64)
      × (a % 4 * 16 < 64)
      × (a % 4 * 16 + b / 16 < 64)
      × (b % 16 * 4 < 64)
      × (a % 64 < 64)
bounds_of a b x y = (omega arith, omega arith, omega arith, omega arith, omega arith)

decode_full :
    (p q r s : ℕ) (cp cq cr cs : Char) (rest : String) (bs : List ℕ)
    → IsDigit p cp
    → IsDigit q cq
    → IsDigit r cr
    → IsDigit s cs
    → decode_quanta rest ≡ some bs
    → decode_quanta (String.◌∷◌ cp (String.◌∷◌ cq (String.◌∷◌ cr (String.◌∷◌ cs rest))))
      ≡ some ((p * 4 + q / 16) ∷ (q % 16 * 16 + r / 4) ∷ (r % 4 * 64 + s) ∷ bs)
unfolding decode_quanta
decode_full p q r s cp cq cr cs rest bs (_, _, vp) (_, _, vq) (_, _, vr) (pad, _, vs) h =
    ground arith

decode_two :
    (p q r : ℕ) (cp cq cr : Char)
    → IsDigit p cp
    → IsDigit q cq
    → IsDigit r cr
    → decode_quanta (String.◌∷◌ cp (String.◌∷◌ cq (String.◌∷◌ cr "=")))
      ≡ some ((p * 4 + q / 16) ∷ (q % 16 * 16 + r / 4) ∷ [])
unfolding decode_quanta
decode_two p q r cp cq cr (_, _, vp) (_, _, vq) (pad, _, vr) = ground arith

decode_one :
    (p q : ℕ) (cp cq : Char)
    → IsDigit p cp
    → IsDigit q cq
    → decode_quanta (String.◌∷◌ cp (String.◌∷◌ cq "==")) ≡ some ((p * 4 + q / 16) ∷ [])
unfolding decode_quanta
decode_one p q cp cq (_, _, vp) (_, _, vq) = ground arith

same_three :
    (a b c x y z : ℕ) (bs : List ℕ)
    → x ≡ a
    → y ≡ b
    → z ≡ c
    → some (x ∷ y ∷ z ∷ bs) ≡ some (a ∷ b ∷ c ∷ bs)
same_three a b c x y z bs p q r = ground arith

pub decode_quanta-encode : (bs : List ℕ) → IsBytes bs → decode_quanta (encode bs) ≡ some bs
unfolding decode_quanta encode
decode_quanta-encode [] h = refl
decode_quanta-encode (a ∷ []) (x, _) =
    let small = bounds_of a 0 x (omega arith) in
    decode_one (a / 4) (a % 4 * 16) (digit (a / 4)) (digit (a % 4 * 16))
      (digit-IsDigit (a / 4) small.0) (digit-IsDigit (a % 4 * 16) small.1)
    ∙ ap (λ (n : ℕ). some (n ∷ [])) (omega arith)
decode_quanta-encode (a ∷ b ∷ []) (x, (y, _)) =
    let small = bounds_of a b x y in
    decode_two (a / 4) (a % 4 * 16 + b / 16) (b % 16 * 4) (digit (a / 4))
      (digit (a % 4 * 16 + b / 16)) (digit (b % 16 * 4)) (digit-IsDigit (a / 4) small.0)
      (digit-IsDigit (a % 4 * 16 + b / 16) small.2) (digit-IsDigit (b % 16 * 4) small.3)
    ∙ ap (λ (n : ℕ). some (n ∷ ((a % 4 * 16 + b / 16) % 16 * 16 + b % 16 * 4 / 4) ∷ []))
        (first_of a b x y)
    ∙ ap (λ (n : ℕ). some (a ∷ n ∷ [])) (omega arith)
decode_quanta-encode (a ∷ b ∷ c ∷ rest) (x, (y, (z, h))) =
    let small = bounds_of a b x y in
    let small_c = bounds_of c 0 z (omega arith) in
    decode_full (a / 4) (a % 4 * 16 + b / 16) (b % 16 * 4 + c / 64) (c % 64) (digit (a / 4))
      (digit (a % 4 * 16 + b / 16)) (digit (b % 16 * 4 + c / 64)) (digit (c % 64)) (encode rest)
      rest (digit-IsDigit (a / 4) small.0) (digit-IsDigit (a % 4 * 16 + b / 16) small.2)
      (digit-IsDigit (b % 16 * 4 + c / 64) (omega arith)) (digit-IsDigit (c % 64) small_c.4)
      (decode_quanta-encode rest h)
    ∙ same_three a b c _ _ _ rest (first_of a b x y) (second_of a b c x y z) (third_of b c y z)
