-- ===== src/Webhook/ClusterRules.antt =====
-- What the webhooks guarantee of a VerdaCluster that they admit.
use cluster_api_provider_ver.Base.{
  ◌≤◌, eq_iff, ◌↔◌, ◌≡◌, arith, false, ℕ, [], ◌∷◌, none, List, ◌⊎◌, ◌≢◌,
}
use cluster_api_provider_ver.Api.{ControlPlaneLoadBalancer, VerdaCluster, is_set, VerdaClusterSpec}
use cluster_api_provider_ver.Webhook.Validation.{
  validate_cluster_spec, is_disabled, validate_cluster_spec_update,
}
use cluster_api_provider_ver.Webhook.Admission.{validate_cluster_update, validate_cluster_create}
use cluster_api_provider_ver.Base.Int.{int_eq_iff}
use cluster_api_provider_ver.Webhook.Reports.{aggregate-append}

abbrev IsUpper : ℕ → Type 0
IsUpper c = (b'A' ≤ c) × (c ≤ b'Z')

abbrev IsDigit : ℕ → Type 0
IsDigit c = (b'0' ≤ c) × (c ≤ b'9')

abbrev pub IsLocation : List ℕ → Type 0
IsLocation (a ∷ b ∷ c ∷ d ∷ e ∷ f ∷ []) =
    IsUpper a × IsUpper b × IsUpper c × (d ≡ b'-') × IsDigit e × IsDigit f
IsLocation _ = ⊥

-- A load balancer whose settings agree: nothing is set where it is switched off.
abbrev pub IsConsistent : ControlPlaneLoadBalancer → Type 0
IsConsistent lb =
    (is_disabled lb.enabled ≡ false)
    ⊎ ((lb.instance_type ≡ "") × (lb.image ≡ "") × (lb.ssh_key_ids ≡ []))

-- A load balancer that is switched on has an instance type and an image.
abbrev pub IsEquipped : ControlPlaneLoadBalancer → Type 0
IsEquipped lb = (is_set lb.enabled ≡ false) ⊎ ((lb.instance_type ≢ "") × (lb.image ≢ ""))

-- What an update leaves alone.
abbrev pub KeepsPlace : VerdaClusterSpec → VerdaClusterSpec → Type 0
KeepsPlace old new =
    (new.location ≡ old.location)
    × (is_set new.control_plane_load_balancer.enabled
        ≡ is_set old.control_plane_load_balancer.enabled)
    × ((old.control_plane_endpoint.host ≡ "")
        ⊎ (new.control_plane_endpoint ≡ old.control_plane_endpoint))

validate_cluster_spec_update_exact :
    (old new : VerdaClusterSpec)
    → (validate_cluster_spec_update old new "spec" ≡ []) ↔ KeepsPlace old new
unfolding validate_cluster_spec_update
validate_cluster_spec_update_exact old new = (
  λ h. ground (
    arith,
    eq_iff old.location new.location,
    eq_iff old.control_plane_endpoint.host "",
    eq_iff old.control_plane_endpoint.host new.control_plane_endpoint.host,
    int_eq_iff old.control_plane_endpoint.port new.control_plane_endpoint.port,
  ),
  λ h. ground (
    arith,
    eq_iff old.location new.location,
    eq_iff old.control_plane_endpoint.host "",
    eq_iff old.control_plane_endpoint.host new.control_plane_endpoint.host,
    int_eq_iff old.control_plane_endpoint.port new.control_plane_endpoint.port,
  ),
)

-- An update of a cluster is admitted exactly when the new object would be admitted as a new one, the
-- location is the old one, the control plane load balancer is switched on as before, and an endpoint
-- whose host was set is the old one.
pub cluster_update_exact :
    (old new : VerdaCluster)
    → (validate_cluster_update old new ≡ none)
      ↔ ((validate_cluster_create new ≡ none) × KeepsPlace old.spec new.spec)
unfolding validate_cluster_update validate_cluster_create
cluster_update_exact old new =
    let split =
      aggregate-append (validate_cluster_spec new.spec "spec")
        (validate_cluster_spec_update old.spec new.spec "spec") in
    let kept = validate_cluster_spec_update_exact old.spec new.spec in
    (λ h. ((split.0 h).0, kept.0 (split.0 h).1), λ h. split.1 (h.0, kept.1 h.1))
