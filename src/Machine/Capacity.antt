-- ===== src/Machine/Capacity.antt =====
-- The machines that Verda has no capacity for: reconcileNormal against the webhook.
use cluster_api_provider_ver.Webhook.{validate_machine_update}
use cluster_api_provider_ver.Base.{◌≢◌, none, ◌≡◌, arith, some, Option, String}
use cluster_api_provider_ver.Cloud.{Instance, Volume}
use cluster_api_provider_ver.Machine.Provision.{
  record_id, settle, record_instance, track_instance, boot_clone, provision, ensure_instance,
  resync_instance, create_and_track, adopt_or_provision, reconcile_normal,
}
use cluster_api_provider_ver.Webhook.MachineRules.{machine_update_exact}
use cluster_api_provider_ver.Machine.Helpers.{
  MachineState, no_capacity_retry_interval, MachineScope,
}
use cluster_api_provider_ver.Machine.Volume.{ensure_os_volume_tag}
use cluster_api_provider_ver.Api.{VerdaCluster}
use cluster_api_provider_ver.Platform.{requeue, Cluster, Outcome, Machine}
use cluster_api_provider_ver.Base.Act.{ok, Result}

module _ {W : Type 0} (r : MachineScope W) (vc : VerdaCluster) where
  -- The answer of an instance that there is no capacity for: the provider ID is gone.
  abbrev Forgets : Result Outcome × MachineState W → Type 0
  Forgets (o, t) = o ≡ ok (requeue no_capacity_retry_interval) → t.vm.spec.provider_id ≡ ""

  settle-Forgets : (i : Instance) (s : MachineState W) → Forgets (settle r vc i s)
  unfolding settle
  settle-Forgets i s result = ground arith

  track_instance-Forgets : (i : Instance) (s : MachineState W) → Forgets (track_instance r vc i s)
  unfolding track_instance
  track_instance-Forgets i s result =
      let s₁ : MachineState W = record s { vm = record_id i s.vm } in
      let s₂ : MachineState W = record (ensure_os_volume_tag r s₁).1 {
        vm = record_instance i (ensure_os_volume_tag r s₁).1.vm;
      } in
      ground (arith, result, settle-Forgets i s₂)

  create_and_track-Forgets :
      (cluster : Cluster) (m : Machine) (secret boot : String) (s : MachineState W)
      → Forgets (create_and_track r cluster vc m secret boot s)
  unfolding create_and_track
  create_and_track-Forgets cluster m secret boot s result = grind (arith, track_instance-Forgets)

  boot_clone-Forgets :
      (cluster : Cluster) (m : Machine) (secret : String) (v : Volume) (s : MachineState W)
      → Forgets (boot_clone r cluster vc m secret v s)
  unfolding boot_clone
  boot_clone-Forgets cluster m secret v s result =
      ground (arith, result, create_and_track-Forgets cluster m secret v.id s)

  provision-Forgets :
      (cluster : Cluster) (m : Machine) (secret : String) (s : MachineState W)
      → Forgets (provision r cluster vc m secret s)
  unfolding provision
  provision-Forgets cluster m secret s result =
      grind (arith, create_and_track-Forgets cluster m secret s.vm.spec.image s, boot_clone-Forgets)

  adopt_or_provision-Forgets :
      (cluster : Cluster) (m : Machine) (secret : String) (found : Option Instance)
      (s : MachineState W)
      → Forgets (adopt_or_provision r cluster vc m secret found s)
  unfolding adopt_or_provision
  adopt_or_provision-Forgets cluster m secret none = provision-Forgets cluster m secret
  adopt_or_provision-Forgets cluster m secret (some i) = track_instance-Forgets i

  ensure_instance-Forgets :
      (cluster : Cluster) (m : Machine) (secret : Option String) (s : MachineState W)
      → Forgets (ensure_instance r cluster vc m secret s)
  unfolding ensure_instance
  ensure_instance-Forgets cluster m none s result = ground arith
  ensure_instance-Forgets cluster m (some secret) s result =
      grind (arith, adopt_or_provision-Forgets)

  reconcile_normal-Forgets :
      (cluster : Cluster) (m : Machine) (s : MachineState W)
      → Forgets (reconcile_normal r cluster vc m s)
  unfolding reconcile_normal resync_instance
  reconcile_normal-Forgets cluster m s result =
      ground (arith, result, ensure_instance-Forgets cluster m m.data_secret_name s)

  -- Where a machine has a provider ID and its reconciliation ends with the retry that follows a lack
  -- of capacity, the object that reconcileNormal leaves is one that the validation of updates
  -- refuses.
  pub no_capacity_patch_refused :
      (cluster : Cluster) (m : Machine) (s : MachineState W)
      → s.vm.spec.provider_id ≢ ""
      → (reconcile_normal r cluster vc m s).0 ≡ ok (requeue no_capacity_retry_interval)
      → validate_machine_update s.vm (reconcile_normal r cluster vc m s).1.vm ≢ none
  no_capacity_patch_refused cluster m s kept result admitted =
      let same = (machine_update_exact s.vm (reconcile_normal r cluster vc m s).1.vm).0 admitted in
      ground (arith, same.1, reconcile_normal-Forgets cluster m s result)
