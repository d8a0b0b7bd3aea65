-- ===== src/Machine/Resync.antt =====
-- resyncInstance: what the reconciliation of a provisioned machine changes.
use cluster_api_provider_ver.Machine.Helpers.{
  MachineScope, MachineState, instance_resync_interval, find_instance,
}
use cluster_api_provider_ver.Base.Act.{Result, ok, err}
use cluster_api_provider_ver.Base.{Option, ◌≡◌, true, arith}
use cluster_api_provider_ver.Machine.Provision.{reconcile_normal, resync_instance}
use cluster_api_provider_ver.Cloud.{Instance}
use cluster_api_provider_ver.Platform.{Outcome, Cluster, Machine, requeue}
use cluster_api_provider_ver.Api.{VerdaCluster, is_set}

-- The resync interval, or the error of the lookup.
abbrev pub outcome_of : Result (Option Instance) → Result Outcome
outcome_of (ok _) = ok (requeue instance_resync_interval)
outcome_of (err e) = err e

module _ {W : Type 0} (r : MachineScope W) where
  -- Once a machine is provisioned, reconcileNormal acts on the world by the lookup of the instance
  -- alone; the spec, the provisioned flag and the recorded ids stay as they were, whatever state the
  -- instance is in; and it comes back after the resync interval, or with the error of the lookup.
  pub resync_frame :
      (cluster : Cluster) (vc : VerdaCluster) (m : Machine) (s : MachineState W)
      → is_set s.vm.status.provisioned ≡ true
      → let (o, t) = reconcile_normal r cluster vc m s in
        let (found, w) = find_instance r s.vm s.world in
        (t.world ≡ w)
        × (t.vm.spec ≡ s.vm.spec)
        × (t.vm.metadata ≡ s.vm.metadata)
        × (t.vm.status.provisioned ≡ s.vm.status.provisioned)
        × (t.vm.status.instance_id ≡ s.vm.status.instance_id)
        × (t.vm.status.os_volume_id ≡ s.vm.status.os_volume_id)
        × (t.vm.status.startup_script_id ≡ s.vm.status.startup_script_id)
        × (o ≡ outcome_of found)
  unfolding reconcile_normal resync_instance
  resync_frame cluster vc m s h = ground arith
