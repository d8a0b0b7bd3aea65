-- ===== src/Bootstrap/Payload.antt =====
-- write_files: what `base64 -d` reads of a here document.
use cluster_api_provider_ver.Base.Base64.{decode, encode, decode_quanta}
use cluster_api_provider_ver.Base.Decoding.{decode_quanta-encode, bounds_of, IsBytes, digit-IsDigit}
use cluster_api_provider_ver.Base.Wrapping.{wrap_lines-IsWrapped, same_lines, IsBare, lines_within}
use cluster_api_provider_ver.Base.{
  ◌*◌, suc, arith, List, ◌+◌, ◌∙◌, ◌<◌, ◌≡◌, ℕ, ap, refl, [], some, ◌∷◌, true,
}
use Prim.Native.Nat.{◌%◌, ◌/◌}
use cluster_api_provider_ver.Base.Wrap.{wrap_base64, chars, wrap_lines}

encode-IsBare : (bs : List ℕ) → IsBytes bs → IsBare (encode bs)
unfolding encode IsBare
encode-IsBare [] h = tt
encode-IsBare (a ∷ []) (x, _) =
    let small = bounds_of a 0 x (omega arith) in
    (
      (digit-IsDigit (a / 4) small.0).1,
      ((digit-IsDigit (a % 4 * 16) small.1).1, (refl, (refl, tt))),
    )
encode-IsBare (a ∷ b ∷ []) (x, (y, _)) =
    let small = bounds_of a b x y in
    (
      (digit-IsDigit (a / 4) small.0).1,
      (
        (digit-IsDigit (a % 4 * 16 + b / 16) small.2).1,
        ((digit-IsDigit (b % 16 * 4) small.3).1, (refl, tt)),
      ),
    )
encode-IsBare (a ∷ b ∷ c ∷ rest) (x, (y, (z, h))) =
    let small = bounds_of a b x y in
    (
      (digit-IsDigit (a / 4) small.0).1,
      (
        (digit-IsDigit (a % 4 * 16 + b / 16) small.2).1,
        (
          (digit-IsDigit (b % 16 * 4 + c / 64) (omega arith)).1,
          ((digit-IsDigit (c % 64) (bounds_of c 0 z (omega arith)).4).1, encode-IsBare rest h),
        ),
      ),
    )

-- For the encoding of bytes, the loop of wrapBase64 ends with any fuel above the length, with the
-- same lines; they have at most 76 characters, and they decode to those bytes.
pub payload_read_back :
    (bs : List ℕ) (fuel : ℕ)
    → IsBytes bs
    → chars (encode bs) < fuel
    → let out = wrap_lines fuel (encode bs) in
      (out ≡ wrap_base64 (encode bs)) × (lines_within 76 out ≡ true) × (decode out ≡ some bs)
unfolding decode wrap_base64
payload_read_back bs fuel h enough =
    let wrapped = wrap_lines-IsWrapped fuel (encode bs) (encode-IsBare bs h) enough in
    (
      same_lines fuel (suc (chars (encode bs))) (encode bs) enough (omega arith),
      wrapped.1,
      ap decode_quanta wrapped.0 ∙ decode_quanta-encode bs h,
    )
