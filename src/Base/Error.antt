-- ===== src/Base/Error.antt =====
-- Go's errors as values: sentinels, the errors of the two remote APIs, and %w wrapping.
use Prim.Native.Nat.{ℕ}
use Prim.Native.String.{String, ◌++◌ as ◌<>◌}
use mathlib.Core.Bool.{Bool, true, false, ◌||◌}
use mathlib.Core.Option.{Option, none, some}
use cluster_api_provider_ver.Base.Tests.{nat_eq}

pub data Sentinel : Type 0 where
  not_found not_managed hostname_in_use : Sentinel

-- What apierrors.IsNotFound and apierrors.IsAlreadyExists tell apart.
pub data KubeReason : Type 0 where
  missing already_exists unclassified : KubeReason

-- `wrap m e` is fmt.Errorf("m: %w", e), `join` is fmt.Errorf("%w; %w", a, b), `noted e m` is
-- fmt.Errorf("%w: m", e), and `plain` any error that wraps nothing.
pub data Error : Type 0 where
  sentinel : Sentinel → Error
  api_error : ℕ → String → Error
  kube_error : KubeReason → String → Error
  plain : String → Error
  wrap : String → Error → Error
  join : Error → Error → Error
  noted : Error → String → Error

abbrev sentinel_text : Sentinel → String
sentinel_text not_found = "resource not found"
sentinel_text not_managed = "resource is not managed by cluster-api-provider-verda"
sentinel_text hostname_in_use =
    "hostname is in use by an instance not managed by cluster-api-provider-verda"

-- err.Error()
unfoldable pub error_text : Error → String
error_text (sentinel s) = sentinel_text s
error_text (api_error _ m) = m
error_text (kube_error _ m) = m
error_text (plain m) = m
error_text (wrap m e) = m <> ": " <> error_text e
error_text (noted e m) = error_text e <> ": " <> m
error_text (join a b) = error_text a <> "; " <> error_text b

abbrev same_sentinel : Sentinel → Sentinel → Bool
same_sentinel not_found not_found = true
same_sentinel not_managed not_managed = true
same_sentinel hostname_in_use hostname_in_use = true
same_sentinel _ _ = false

-- errors.Is(err, target) for a sentinel.
abbrev pub errors_is : Sentinel → Error → Bool
errors_is t (sentinel s) = same_sentinel t s
errors_is t (wrap m e) = errors_is t e
errors_is t (noted e m) = errors_is t e
errors_is t (join a b) = errors_is t a || errors_is t b
errors_is t _ = false

abbrev first_of_two : Option ℕ → Option ℕ → Option ℕ
first_of_two none b = b
first_of_two (some a) b = some a

-- errors.As(err, &apiErr): the status code of the first API error in the tree.
abbrev pub api_status : Error → Option ℕ
api_status (api_error c m) = some c
api_status (wrap m e) = api_status e
api_status (noted e m) = api_status e
api_status (join a b) = first_of_two (api_status a) (api_status b)
api_status _ = none

abbrev pub has_status : ℕ → Error → Bool
has_status c e = elim (api_status e) [ none ↦ false | some d ↦ nat_eq d c ]

abbrev first_reason : Option KubeReason → Option KubeReason → Option KubeReason
first_reason none b = b
first_reason (some a) b = some a

abbrev kube_reason : Error → Option KubeReason
kube_reason (kube_error r m) = some r
kube_reason (wrap m e) = kube_reason e
kube_reason (noted e m) = kube_reason e
kube_reason (join a b) = first_reason (kube_reason a) (kube_reason b)
kube_reason _ = none

-- apierrors.IsNotFound and apierrors.IsAlreadyExists
abbrev pub kube_not_found : Error → Bool
kube_not_found e = elim (kube_reason e) [ some missing ↦ true | _ ↦ false ]

abbrev pub kube_already_exists : Error → Bool
kube_already_exists e = elim (kube_reason e) [ some already_exists ↦ true | _ ↦ false ]
