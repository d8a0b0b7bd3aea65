-- ===== src/Machine/Throttle.antt =====
-- deleteRequestDue: how often a deletion is asked for.
use Prim.Native.String.append
use cluster_api_provider_ver.Base.{
  String, ◌≡◌, ◌<>◌, none, some, arith, ℕ, true, if◌then◌else◌, ◌==◌, leb, ◌+◌, eq_iff,
}
use cluster_api_provider_ver.Platform.{Clock, IsRfc3339}
use cluster_api_provider_ver.Base.Text.{cut}
use cluster_api_provider_ver.Machine.Helpers.{
  delete_request_due, recently_requested, delete_retry_interval, annotation_key,
}
use cluster_api_provider_ver.Base.Dict.{Dict, get_text-insert}
use text.Mathlib.TextPositions.{eq_refl}

abbrev pub LacksSeparator : String → Type 0
LacksSeparator s = cut b'@' s ≡ none

cut-append :
    (state rest : String)
    → LacksSeparator state
    → cut b'@' (state <> "@" <> rest) ≡ some (state, rest)
unfolding cut
cut-append String.[] rest h = rw (append.nil, append.cons, append.nil)
cut-append (String.◌∷◌ c s) rest h =
    rw (append.cons c s ("@" <> rest)) (ground (arith, cut-append s rest))

module _ {W : Type 0} (clock : Clock W) (time : IsRfc3339 clock) where
  -- Once a deletion was requested for a state, another request for the same state is due exactly
  -- when the retry interval has passed since the recorded second, and a request for any other state
  -- is due at once. A state holds no '@'.
  pub due_again :
      (now stamp later again : ℕ) (annotations : Dict String) (suffix state other : String)
      → LacksSeparator state
      → (delete_request_due clock now stamp annotations suffix state).0 ≡ true
      → let kept = (delete_request_due clock now stamp annotations suffix state).1 in
        (delete_request_due clock later again kept suffix other).0
        ≡ (if state == other then leb (time.floor stamp + delete_retry_interval) later else true)
  unfolding delete_request_due recently_requested
  due_again now stamp later again annotations suffix state other h due = ground (
    arith,
    get_text-insert (annotation_key suffix) (annotation_key suffix)
        (state <> "@" <> clock.format stamp) annotations,
    eq_refl (annotation_key suffix),
    cut-append state (clock.format stamp) h,
    time.parse-format stamp,
    eq_iff state other,
  )
