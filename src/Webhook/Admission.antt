-- ===== src/Webhook/Admission.antt =====
-- verdamachine_webhook.go, verdacluster_webhook.go, and the webhooks of the two templates.
use cluster_api_provider_ver.Api.{
  default_load_balancer_instance_type, VerdaCluster, VerdaMachineSpec, is_set, VerdaMachineTemplate,
  ApiEndpoint, ControlPlaneLoadBalancer, VerdaClusterSpec, VerdaMachine,
  default_load_balancer_image, VerdaClusterTemplate,
}
use cluster_api_provider_ver.Base.Int.{int_eq, pos}
use cluster_api_provider_ver.Webhook.Validation.{
  validate_cluster_spec_update, validate_machine_spec, is_empty, validate_machine_spec_update,
  validate_cluster_spec, FieldError, report, forbidden, volumes_eq, bool_eq, endpoint_eq,
}
use cluster_api_provider_ver.Base.{
  List, [], ◌&&◌, ◌∷◌, ◌++◌, Option, some, if◌then◌else◌, not, none, Bool, ◌==◌, false, String,
  true,
}
use cluster_api_provider_ver.Base.Act.{Result, ok, err}
use cluster_api_provider_ver.Base.Error.{wrap}
use cluster_api_provider_ver.Base.Distinct.{texts_eq}

unfoldable pub default_machine_spec : VerdaMachineSpec → VerdaMachineSpec
default_machine_spec spec =
    if is_set spec.spot && is_empty spec.contract then record spec { contract = "SPOT" } else spec

unfoldable pub default_load_balancer : ControlPlaneLoadBalancer → ControlPlaneLoadBalancer
default_load_balancer lb = if not (is_set lb.enabled) then lb else record lb {
  instance_type =
      if is_empty lb.instance_type then default_load_balancer_instance_type else lb.instance_type;
  image = if is_empty lb.image then default_load_balancer_image else lb.image;
}

unfoldable pub default_endpoint : ApiEndpoint → ApiEndpoint
default_endpoint e =
    if not (is_empty e.host) && int_eq e.port (pos 0) then record e { port = pos 6443 } else e

unfoldable pub default_cluster_spec : VerdaClusterSpec → VerdaClusterSpec
unfolding default_load_balancer default_endpoint
default_cluster_spec spec = record spec {
  control_plane_endpoint = default_endpoint spec.control_plane_endpoint;
  control_plane_load_balancer = default_load_balancer spec.control_plane_load_balancer;
  service_load_balancer = default_load_balancer spec.service_load_balancer;
}

-- aggregate, the error that the validators return: nothing where there is no field error, or else
-- the invalid object with the list.
unfoldable pub aggregate : List FieldError → Option (List FieldError)
aggregate [] = none
aggregate (e ∷ es) = some (e ∷ es)

unfoldable pub validate_machine_create : VerdaMachine → Option (List FieldError)
validate_machine_create obj = aggregate (validate_machine_spec obj.spec "spec")

unfoldable pub validate_machine_update : VerdaMachine → VerdaMachine → Option (List FieldError)
validate_machine_update old new =
    aggregate (
      validate_machine_spec new.spec "spec"
      ++ validate_machine_spec_update old.spec new.spec "spec")

unfoldable pub validate_cluster_create : VerdaCluster → Option (List FieldError)
validate_cluster_create obj = aggregate (validate_cluster_spec obj.spec "spec")

unfoldable pub validate_cluster_update : VerdaCluster → VerdaCluster → Option (List FieldError)
validate_cluster_update old new =
    aggregate (
      validate_cluster_spec new.spec "spec"
      ++ validate_cluster_spec_update old.spec new.spec "spec")

unfoldable pub validate_template_create : VerdaMachineTemplate → Option (List FieldError)
validate_template_create obj = aggregate (validate_machine_spec obj.spec "spec.template.spec")

abbrev pointer_eq : Option Bool → Option Bool → Bool
pointer_eq none none = true
pointer_eq (some a) (some b) = bool_eq a b
pointer_eq _ _ = false

-- reflect.DeepEqual on the specs of two templates; a nil slice is the empty list.
unfoldable pub machine_spec_eq : VerdaMachineSpec → VerdaMachineSpec → Bool
machine_spec_eq a b =
    a.provider_id == b.provider_id
    && a.instance_type == b.instance_type
    && a.image == b.image
    && a.os_volume_id == b.os_volume_id
    && texts_eq a.ssh_key_ids b.ssh_key_ids
    && int_eq a.os_volume_size_gb b.os_volume_size_gb
    && a.contract == b.contract
    && pointer_eq a.spot b.spot
    && a.spot_discontinue_policy == b.spot_discontinue_policy
    && volumes_eq a.additional_volumes b.additional_volumes

-- `dry_run` is topology.IsDryRunRequest of the admission request, or the error where there is none.
unfoldable pub validate_template_update :
    Result Bool → VerdaMachineTemplate → VerdaMachineTemplate → Result (Option (List FieldError))
validate_template_update (err e) old new =
    err (wrap "expected an admission.Request inside context" e)
validate_template_update (ok dry_run) old new = ok (
    aggregate (
      validate_machine_spec new.spec "spec.template.spec"
      ++ report (not dry_run && not (machine_spec_eq old.spec new.spec)) forbidden
          "spec.template.spec"
          "VerdaMachineTemplate spec is immutable; create a new template to change machines"))

abbrev pub load_balancer_eq : ControlPlaneLoadBalancer → ControlPlaneLoadBalancer → Bool
load_balancer_eq a b =
    pointer_eq a.enabled b.enabled
    && a.instance_type == b.instance_type
    && a.image == b.image
    && texts_eq a.ssh_key_ids b.ssh_key_ids

abbrev pub name_eq : Option String → Option String → Bool
name_eq none none = true
name_eq (some a) (some b) = a == b
name_eq _ _ = false

-- reflect.DeepEqual on the specs of two cluster templates.
unfoldable pub cluster_spec_eq : VerdaClusterSpec → VerdaClusterSpec → Bool
cluster_spec_eq a b =
    a.location == b.location
    && endpoint_eq a.control_plane_endpoint b.control_plane_endpoint
    && name_eq a.identity_ref b.identity_ref
    && load_balancer_eq a.control_plane_load_balancer b.control_plane_load_balancer
    && load_balancer_eq a.service_load_balancer b.service_load_balancer

unfoldable pub validate_cluster_template_create : VerdaClusterTemplate → Option (List FieldError)
validate_cluster_template_create obj =
    aggregate (validate_cluster_spec obj.spec "spec.template.spec")

unfoldable pub validate_cluster_template_update :
    Result Bool → VerdaClusterTemplate → VerdaClusterTemplate → Result (Option (List FieldError))
validate_cluster_template_update (err e) old new =
    err (wrap "expected an admission.Request inside context" e)
validate_cluster_template_update (ok dry_run) old new = ok (
    aggregate (
      validate_cluster_spec new.spec "spec.template.spec"
      ++ report (not dry_run && not (cluster_spec_eq old.spec new.spec)) forbidden
          "spec.template.spec"
          "VerdaClusterTemplate spec is immutable; create a new template to change clusters"))
