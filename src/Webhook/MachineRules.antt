-- ===== src/Webhook/MachineRules.antt =====
-- What the webhooks guarantee of a VerdaMachine that they admit.
use cluster_api_provider_ver.Webhook.Validation.{
  validate_machine_spec, validate_machine_spec_update, volumes_eq, volume_eq,
}
use cluster_api_provider_ver.Base.Int.{pos, int_eq, int_eq_iff}
use cluster_api_provider_ver.Api.{is_set, VerdaMachine, VerdaMachineSpec, AdditionalVolume}
use cluster_api_provider_ver.Webhook.Admission.{
  validate_machine_create, aggregate, validate_machine_update,
}
use cluster_api_provider_ver.Base.{
  ◌⊎◌, ◌≡◌, eq_iff, false, ◌↔◌, ◌≢◌, none, true, arith, refl, List, [], ◌∷◌,
}
use cluster_api_provider_ver.Webhook.Reports.{aggregate-append}

-- A spec that the reconciler can act on: an instance type, exactly one source to boot from, and
-- settings for spot instances and clones only where they apply.
abbrev pub IsBootable : VerdaMachineSpec → Type 0
IsBootable s =
    ((s.image ≡ "") × (s.os_volume_id ≢ "") × (int_eq s.os_volume_size_gb (pos 0) ≡ true))
    ⊎ ((s.image ≢ "") × (s.os_volume_id ≡ ""))

abbrev pub IsSpotConsistent : VerdaMachineSpec → Type 0
IsSpotConsistent s =
    ((is_set s.spot ≡ true) × ((s.contract ≡ "") ⊎ (s.contract ≡ "SPOT")))
    ⊎ ((is_set s.spot ≡ false) × (s.spot_discontinue_policy ≡ ""))

-- Validation of a machine's creation passes exactly for a spec with an instance type, exactly one of
-- image and osVolumeID (and with osVolumeID no osVolumeSizeGB), and spot settings that agree.
pub machine_create_exact :
    (m : VerdaMachine)
    → (validate_machine_create m ≡ none)
      ↔ ((m.spec.instance_type ≢ "") × IsBootable m.spec × IsSpotConsistent m.spec)
unfolding validate_machine_create aggregate validate_machine_spec
machine_create_exact m = (
  λ h. ground (
    arith,
    eq_iff m.spec.instance_type "",
    eq_iff m.spec.image "",
    eq_iff m.spec.os_volume_id "",
    eq_iff m.spec.contract "",
    eq_iff m.spec.contract "SPOT",
    eq_iff m.spec.spot_discontinue_policy "",
  ),
  λ h. ground (
    arith,
    eq_iff m.spec.instance_type "",
    eq_iff m.spec.image "",
    eq_iff m.spec.os_volume_id "",
    eq_iff m.spec.contract "",
    eq_iff m.spec.contract "SPOT",
    eq_iff m.spec.spot_discontinue_policy "",
  ),
)

volume_eq-eq : (a b : AdditionalVolume) → (volume_eq a b ≡ true) ↔ (a ≡ b)
volume_eq-eq a b = (
  λ h. ground (arith, eq_iff a.name b.name, eq_iff a.kind b.kind, int_eq_iff a.size_gb b.size_gb),
  λ h. ground (arith, eq_iff a.name b.name, eq_iff a.kind b.kind, int_eq_iff a.size_gb b.size_gb),
)

pub volumes_eq-eq : (xs ys : List AdditionalVolume) → (volumes_eq xs ys ≡ true) ↔ (xs ≡ ys)
unfolding volumes_eq
volumes_eq-eq [] [] = (λ h. refl, λ h. refl)
volumes_eq-eq [] (y ∷ ys) = (λ h. cc, λ h. cc)
volumes_eq-eq (x ∷ xs) [] = (λ h. cc, λ h. cc)
volumes_eq-eq (x ∷ xs) (y ∷ ys) = (
  λ h. ground (arith, volume_eq-eq x y, volumes_eq-eq xs ys),
  λ h. ground (arith, volume_eq-eq x y, volumes_eq-eq xs ys),
)

-- What an update leaves alone.
abbrev pub KeepsImmutable : VerdaMachineSpec → VerdaMachineSpec → Type 0
KeepsImmutable old new =
    (new.instance_type ≡ old.instance_type)
    × (new.image ≡ old.image)
    × (new.os_volume_id ≡ old.os_volume_id)
    × (new.os_volume_size_gb ≡ old.os_volume_size_gb)
    × (new.contract ≡ old.contract)
    × (is_set new.spot ≡ is_set old.spot)
    × (new.additional_volumes ≡ old.additional_volumes)
    × (new.spot_discontinue_policy ≡ old.spot_discontinue_policy)
    × ((old.provider_id ≡ "") ⊎ (new.provider_id ≡ old.provider_id))

validate_machine_spec_update_exact :
    (old new : VerdaMachineSpec)
    → (validate_machine_spec_update old new "spec" ≡ []) ↔ KeepsImmutable old new
unfolding validate_machine_spec_update
validate_machine_spec_update_exact old new = (
  λ h. ground (
    arith,
    eq_iff old.instance_type new.instance_type,
    eq_iff old.image new.image,
    eq_iff old.os_volume_id new.os_volume_id,
    int_eq_iff old.os_volume_size_gb new.os_volume_size_gb,
    eq_iff old.contract new.contract,
    volumes_eq-eq old.additional_volumes new.additional_volumes,
    eq_iff old.spot_discontinue_policy new.spot_discontinue_policy,
    eq_iff old.provider_id new.provider_id,
    eq_iff old.provider_id "",
  ),
  λ h. ground (
    arith,
    eq_iff old.instance_type new.instance_type,
    eq_iff old.image new.image,
    eq_iff old.os_volume_id new.os_volume_id,
    int_eq_iff old.os_volume_size_gb new.os_volume_size_gb,
    eq_iff old.contract new.contract,
    volumes_eq-eq old.additional_volumes new.additional_volumes,
    eq_iff old.spot_discontinue_policy new.spot_discontinue_policy,
    eq_iff old.provider_id new.provider_id,
    eq_iff old.provider_id "",
  ),
)

-- An update of a machine is admitted exactly when the new object would be admitted as a new one, and
-- the instance type, the source to boot from and its size, the contract, whether it is a spot
-- instance, its policy and the data volumes are the old ones, and a provider ID that was set stays.
pub machine_update_exact :
    (old new : VerdaMachine)
    → (validate_machine_update old new ≡ none)
      ↔ ((validate_machine_create new ≡ none) × KeepsImmutable old.spec new.spec)
unfolding validate_machine_update validate_machine_create
machine_update_exact old new =
    let split =
      aggregate-append (validate_machine_spec new.spec "spec")
        (validate_machine_spec_update old.spec new.spec "spec") in
    let kept = validate_machine_spec_update_exact old.spec new.spec in
    (λ h. ((split.0 h).0, kept.0 (split.0 h).1), λ h. split.1 (h.0, kept.1 h.1))

-- A machine that boots from an OS volume and names a size for it is refused, although the type's
-- documentation says that the size is ignored there.
pub size_with_volume_refused :
    (m : VerdaMachine)
    → m.spec.os_volume_id ≢ ""
    → m.spec.os_volume_size_gb ≢ pos 0
    → validate_machine_create m ≢ none
size_with_volume_refused m volume size admitted =
    ground (arith, (machine_create_exact m).0 admitted, int_eq_iff m.spec.os_volume_size_gb (pos 0))
