-- ===== src/Webhook/Validation.antt =====
-- validation.go: the checks on specs and on their updates.
use cluster_api_provider_ver.Base.{
  false, List, String, ◌++◌, Option, Bool, nat_eq, ℕ, some, if◌then◌else◌, ◌||◌, not, none, leb, [],
  ◌&&◌, ◌∷◌, ◌<>◌, true, ◌==◌,
}
use cluster_api_provider_ver.Base.Int.{int_eq, pos}
use cluster_api_provider_ver.Api.{
  AdditionalVolume, ApiEndpoint, ControlPlaneLoadBalancer, VerdaMachineSpec, is_set,
  VerdaClusterSpec,
}
use cluster_api_provider_ver.Base.Text.{codes}

pub data FieldErrorType : Type 0 where
  required forbidden invalid : FieldErrorType

-- field.Error without the value that it quotes.
pub record FieldError : Type 0 where
  pub kind : FieldErrorType
  pub path : String
  pub detail : String

-- path.Child(name)
abbrev pub child : String → String → String
child path name = path <> "." <> name

-- if b { errs = append(errs, e) }, as the list that it adds.
abbrev pub report : Bool → FieldErrorType → String → String → List FieldError
report b kind path detail =
    if b then record { kind = kind; path = path; detail = detail } ∷ [] else []

abbrev is_upper : ℕ → Bool
is_upper c = leb b'A' c && leb c b'Z'

abbrev is_digit : ℕ → Bool
is_digit c = leb b'0' c && leb c b'9'

-- locationCodeRe, ^[A-Z]{3}-[0-9]{2}$
unfoldable pub matches_location : List ℕ → Bool
matches_location (a ∷ b ∷ c ∷ d ∷ e ∷ f ∷ []) =
    is_upper a && is_upper b && is_upper c && nat_eq d b'-' && is_digit e && is_digit f
matches_location _ = false

abbrev pub is_empty : String → Bool
is_empty s = s == ""

abbrev image_errors : VerdaMachineSpec → String → List FieldError
image_errors spec path =
    if is_empty spec.image && is_empty spec.os_volume_id
    then report true required (child path "image") "one of image or osVolumeID is required"
    else report (not (is_empty spec.image) && not (is_empty spec.os_volume_id)) forbidden
        (child path "osVolumeID") "osVolumeID cannot be set together with image"

unfoldable pub validate_machine_spec : VerdaMachineSpec → String → List FieldError
validate_machine_spec spec path =
    report (is_empty spec.instance_type) required (child path "instanceType")
      "instanceType is required"
    ++ (image_errors spec path
        ++ (report (not (is_empty spec.os_volume_id) && not (int_eq spec.os_volume_size_gb (pos 0)))
              forbidden (child path "osVolumeSizeGB")
              "osVolumeSizeGB cannot be set with osVolumeID; a clone keeps the size of its source"
            ++ (report (not (is_empty spec.spot_discontinue_policy) && not (is_set spec.spot))
                  forbidden (child path "spotDiscontinuePolicy")
                  "spotDiscontinuePolicy requires spot to be true"
                ++ report
                    (is_set spec.spot
                      && not (is_empty spec.contract)
                      && not (spec.contract == "SPOT"))
                    invalid (child path "contract")
                    "contract must be SPOT or empty when spot is true")))

abbrev pub bool_eq : Bool → Bool → Bool
bool_eq true b = b
bool_eq false b = not b

-- reflect.DeepEqual; a nil slice is the empty list.
abbrev pub volume_eq : AdditionalVolume → AdditionalVolume → Bool
volume_eq a b = a.name == b.name && int_eq a.size_gb b.size_gb && a.kind == b.kind

unfoldable pub volumes_eq : List AdditionalVolume → List AdditionalVolume → Bool
volumes_eq [] [] = true
volumes_eq (a ∷ xs) (b ∷ ys) = volume_eq a b && volumes_eq xs ys
volumes_eq _ _ = false

unfoldable pub validate_machine_spec_update :
    VerdaMachineSpec → VerdaMachineSpec → String → List FieldError
validate_machine_spec_update old new path =
    report (not (old.instance_type == new.instance_type)) forbidden (child path "instanceType")
      "instanceType is immutable"
    ++ (report (not (old.image == new.image)) forbidden (child path "image") "image is immutable"
        ++ (report (not (old.os_volume_id == new.os_volume_id)) forbidden (child path "osVolumeID")
              "osVolumeID is immutable"
            ++ (report (not (int_eq old.os_volume_size_gb new.os_volume_size_gb)) forbidden
                  (child path "osVolumeSizeGB") "osVolumeSizeGB is immutable"
                ++ (report (not (old.contract == new.contract)) forbidden (child path "contract")
                      "contract is immutable"
                    ++ (report (not (bool_eq (is_set old.spot) (is_set new.spot))) forbidden
                          (child path "spot") "spot is immutable"
                        ++ (report (not (volumes_eq old.additional_volumes new.additional_volumes))
                              forbidden (child path "additionalVolumes")
                              "additionalVolumes is immutable"
                            ++ (report
                                  (not (old.spot_discontinue_policy == new.spot_discontinue_policy))
                                  forbidden (child path "spotDiscontinuePolicy")
                                  "spotDiscontinuePolicy is immutable"
                                ++ report
                                    (not (is_empty old.provider_id)
                                      && not (old.provider_id == new.provider_id))
                                    forbidden (child path "providerID")
                                    "providerID cannot be changed once set")))))))

abbrev is_empty_list : {A : Type 0} → List A → Bool
is_empty_list [] = true
is_empty_list (_ ∷ _) = false

-- lb.Enabled != nil && !*lb.Enabled
abbrev pub is_disabled : Option Bool → Bool
is_disabled none = false
is_disabled (some b) = not b

abbrev pub load_balancer_errors : String → ControlPlaneLoadBalancer → String → List FieldError
load_balancer_errors name lb path =
    report
      (is_disabled lb.enabled
        && (not (is_empty lb.instance_type)
            || not (is_empty lb.image)
            || not (is_empty_list lb.ssh_key_ids)))
      invalid (child (child path name) "enabled")
      "load balancer settings are set but enabled is false"

abbrev pub location_errors : VerdaClusterSpec → String → List FieldError
location_errors spec path =
    if is_empty spec.location
    then report true required (child path "location") "location is required"
    else report (not (matches_location (codes spec.location))) invalid (child path "location")
        "must be a Verda location code such as FIN-01"

abbrev pub endpoint_errors : VerdaClusterSpec → String → List FieldError
endpoint_errors spec path =
    report
      (not (is_empty spec.control_plane_endpoint.host)
        && int_eq spec.control_plane_endpoint.port (pos 0))
      required (child (child path "controlPlaneEndpoint") "port")
      "port is required when host is set"

-- The code loops over a map of two load balancers, whose order Go leaves open.
unfoldable pub validate_cluster_spec : VerdaClusterSpec → String → List FieldError
validate_cluster_spec spec path =
    location_errors spec path
    ++ (endpoint_errors spec path
        ++ (load_balancer_errors "controlPlaneLoadBalancer" spec.control_plane_load_balancer path
            ++ load_balancer_errors "serviceLoadBalancer" spec.service_load_balancer path))

abbrev pub endpoint_eq : ApiEndpoint → ApiEndpoint → Bool
endpoint_eq a b = a.host == b.host && int_eq a.port b.port

unfoldable pub validate_cluster_spec_update :
    VerdaClusterSpec → VerdaClusterSpec → String → List FieldError
validate_cluster_spec_update old new path =
    report (not (old.location == new.location)) forbidden (child path "location")
      "location is immutable"
    ++ (report
          (not (
            bool_eq (is_set old.control_plane_load_balancer.enabled)
              (is_set new.control_plane_load_balancer.enabled)))
          forbidden (child (child path "controlPlaneLoadBalancer") "enabled")
          "the load balancer cannot be enabled or disabled after creation; the control plane endpoint is baked into the cluster's certificates"
        ++ report
            (not (is_empty old.control_plane_endpoint.host)
              && not (endpoint_eq old.control_plane_endpoint new.control_plane_endpoint))
            forbidden (child path "controlPlaneEndpoint")
            "controlPlaneEndpoint is immutable once set")
