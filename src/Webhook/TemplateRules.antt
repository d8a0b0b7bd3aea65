-- ===== src/Webhook/TemplateRules.antt =====
-- What the webhooks guarantee of the templates of machines and clusters.
use cluster_api_provider_ver.Base.{
  List, [], ◌≡◌, ◌↔◌, Option, String, Bool, refl, ◌∷◌, arith, eq_iff, ◌⊎◌, some, none, true, ◌++◌,
  not, ◌&&◌,
}
use cluster_api_provider_ver.Webhook.Admission.{
  machine_spec_eq, load_balancer_eq, name_eq, validate_template_create, cluster_spec_eq,
  validate_cluster_template_update, validate_cluster_template_create, validate_template_update,
  aggregate,
}
use cluster_api_provider_ver.Api.{
  VerdaClusterSpec, VerdaMachineSpec, VerdaMachineTemplate, ControlPlaneLoadBalancer,
  VerdaClusterTemplate,
}
use cluster_api_provider_ver.Base.Act.{ok}
use cluster_api_provider_ver.Base.Int.{int_eq_iff}
use cluster_api_provider_ver.Webhook.MachineRules.{volumes_eq-eq}
use cluster_api_provider_ver.Webhook.Validation.{
  report, validate_machine_spec, FieldError, forbidden, validate_cluster_spec,
}
use cluster_api_provider_ver.Webhook.Reports.{aggregate-append}
use cluster_api_provider_ver.Base.Distinct.{texts_eq}

texts_eq-eq : (xs ys : List String) → (texts_eq xs ys ≡ true) ↔ (xs ≡ ys)
unfolding texts_eq
texts_eq-eq [] [] = (λ h. refl, λ h. refl)
texts_eq-eq [] (y ∷ ys) = (λ h. cc, λ h. cc)
texts_eq-eq (x ∷ xs) [] = (λ h. cc, λ h. cc)
texts_eq-eq (x ∷ xs) (y ∷ ys) = (
  λ h. ground (arith, eq_iff x y, texts_eq-eq xs ys),
  λ h. ground (arith, eq_iff x y, texts_eq-eq xs ys),
)

machine_spec_eq-eq : (a b : VerdaMachineSpec) → (machine_spec_eq a b ≡ true) ↔ (a ≡ b)
unfolding machine_spec_eq
machine_spec_eq-eq a b = (
  λ h. ground (
    arith,
    eq_iff a.provider_id b.provider_id,
    eq_iff a.instance_type b.instance_type,
    eq_iff a.image b.image,
    eq_iff a.os_volume_id b.os_volume_id,
    texts_eq-eq a.ssh_key_ids b.ssh_key_ids,
    int_eq_iff a.os_volume_size_gb b.os_volume_size_gb,
    eq_iff a.contract b.contract,
    eq_iff a.spot_discontinue_policy b.spot_discontinue_policy,
    volumes_eq-eq a.additional_volumes b.additional_volumes,
  ),
  λ h. ground (
    arith,
    eq_iff a.provider_id b.provider_id,
    eq_iff a.instance_type b.instance_type,
    eq_iff a.image b.image,
    eq_iff a.os_volume_id b.os_volume_id,
    texts_eq-eq a.ssh_key_ids b.ssh_key_ids,
    int_eq_iff a.os_volume_size_gb b.os_volume_size_gb,
    eq_iff a.contract b.contract,
    eq_iff a.spot_discontinue_policy b.spot_discontinue_policy,
    volumes_eq-eq a.additional_volumes b.additional_volumes,
  ),
)

balancer_eq : (a b : ControlPlaneLoadBalancer) → (load_balancer_eq a b ≡ true) ↔ (a ≡ b)
balancer_eq a b = (
  λ h. ground (
    arith,
    eq_iff a.instance_type b.instance_type,
    eq_iff a.image b.image,
    texts_eq-eq a.ssh_key_ids b.ssh_key_ids,
  ),
  λ h. ground (
    arith,
    eq_iff a.instance_type b.instance_type,
    eq_iff a.image b.image,
    texts_eq-eq a.ssh_key_ids b.ssh_key_ids,
  ),
)

name_eq_iff : (a b : Option String) → (name_eq a b ≡ true) ↔ (a ≡ b)
name_eq_iff none none = (λ h. refl, λ h. refl)
name_eq_iff none (some b) = (λ h. cc, λ h. cc)
name_eq_iff (some a) none = (λ h. cc, λ h. cc)
name_eq_iff (some a) (some b) = (λ h. ground (arith, eq_iff a b), λ h. ground (arith, eq_iff a b))

cluster_spec_eq-eq : (a b : VerdaClusterSpec) → (cluster_spec_eq a b ≡ true) ↔ (a ≡ b)
unfolding cluster_spec_eq
cluster_spec_eq-eq a b = (
  λ h. ground (
    arith,
    eq_iff a.location b.location,
    eq_iff a.control_plane_endpoint.host b.control_plane_endpoint.host,
    int_eq_iff a.control_plane_endpoint.port b.control_plane_endpoint.port,
    name_eq_iff a.identity_ref b.identity_ref,
    balancer_eq a.control_plane_load_balancer b.control_plane_load_balancer,
    balancer_eq a.service_load_balancer b.service_load_balancer,
  ),
  λ h. ground (
    arith,
    eq_iff a.location b.location,
    eq_iff a.control_plane_endpoint.host b.control_plane_endpoint.host,
    int_eq_iff a.control_plane_endpoint.port b.control_plane_endpoint.port,
    name_eq_iff a.identity_ref b.identity_ref,
    balancer_eq a.control_plane_load_balancer b.control_plane_load_balancer,
    balancer_eq a.service_load_balancer b.service_load_balancer,
  ),
)

admitted_iff :
    (errs : List FieldError) (dry_run same : Bool) (path detail : String)
    → (aggregate (errs ++ report (not dry_run && not same) forbidden path detail) ≡ none)
      ↔ ((aggregate errs ≡ none) × ((dry_run ≡ true) ⊎ (same ≡ true)))
admitted_iff errs dry_run same path detail =
    let split = aggregate-append errs (report (not dry_run && not same) forbidden path detail) in
    (λ h. ground (arith, split), λ h. ground (arith, split))

-- In a request, an update of a machine template or of a cluster template is admitted exactly when
-- the new object would be admitted as a new one, and the spec is the old one or the request is a dry
-- run of the topology controller.
pub template_update_exact :
    (dry_run : Bool) (old new : VerdaMachineTemplate) (before after : VerdaClusterTemplate)
    → ((validate_template_update (ok dry_run) old new ≡ ok none)
        ↔ ((validate_template_create new ≡ none) × ((dry_run ≡ true) ⊎ (old.spec ≡ new.spec))))
      × ((validate_cluster_template_update (ok dry_run) before after ≡ ok none) ↔ (
          (validate_cluster_template_create after ≡ none)
          × ((dry_run ≡ true) ⊎ (before.spec ≡ after.spec))))
unfolding validate_template_update validate_template_create validate_cluster_template_update
    validate_cluster_template_create
template_update_exact dry_run old new before after =
    let machine =
      admitted_iff (validate_machine_spec new.spec "spec.template.spec") dry_run
        (machine_spec_eq old.spec new.spec) "spec.template.spec"
        "VerdaMachineTemplate spec is immutable; create a new template to change machines" in
    let cluster =
      admitted_iff (validate_cluster_spec after.spec "spec.template.spec") dry_run
        (cluster_spec_eq before.spec after.spec) "spec.template.spec"
        "VerdaClusterTemplate spec is immutable; create a new template to change clusters" in
    (
      (
        λ h. ground (arith, machine, machine_spec_eq-eq old.spec new.spec),
        λ h. ground (arith, machine, machine_spec_eq-eq old.spec new.spec),
      ),
      (
        λ h. ground (arith, cluster, cluster_spec_eq-eq before.spec after.spec),
        λ h. ground (arith, cluster, cluster_spec_eq-eq before.spec after.spec),
      ),
    )
