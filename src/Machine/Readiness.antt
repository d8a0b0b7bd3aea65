-- ===== src/Machine/Readiness.antt =====
-- reconcileNormal: when a machine becomes provisioned.
use cluster_api_provider_ver.Base.{
  ◌≡◌, Bool, arith, true, false, eq_iff, String, Option, some, none,
}
use cluster_api_provider_ver.Api.{instance_ready_condition, VerdaCluster, is_set}
use cluster_api_provider_ver.Cloud.{status_running, Instance, Volume}
use cluster_api_provider_ver.Machine.Helpers.{running_condition, MachineScope, MachineState}
use cluster_api_provider_ver.Machine.Volume.{
  ensure_os_volume_tag, ensure_os_volume, clone_os_volume, tag_os_volume,
}
use cluster_api_provider_ver.Platform.{IsLawful, done, Cluster, Machine}
use cluster_api_provider_ver.Machine.Provision.{
  settle, track_instance, create_and_track, reconcile_normal, provision, record_instance, record_id,
  boot_clone, ensure_instance, adopt_or_provision,
}
use cluster_api_provider_ver.Base.Act.{ok}
use text.Mathlib.TextPositions.{eq_refl}

module _ {W : Type 0} (r : MachineScope W) where
  abbrev pub provisioned : MachineState W → Bool
  provisioned s = is_set s.vm.status.provisioned

  provisioned-ensure_os_volume_tag :
      (s : MachineState W) → provisioned (ensure_os_volume_tag r s).1 ≡ provisioned s
  unfolding ensure_os_volume_tag
  provisioned-ensure_os_volume_tag s = ground arith

  state-ensure_os_volume_tag :
      (s : MachineState W)
      → (ensure_os_volume_tag r s).1.vm.status.instance_state ≡ s.vm.status.instance_state
  unfolding ensure_os_volume_tag
  state-ensure_os_volume_tag s = ground arith

  provisioned-clone_os_volume :
      (vc : VerdaCluster) (s : MachineState W)
      → provisioned (clone_os_volume r vc s).1 ≡ provisioned s
  unfolding clone_os_volume
  provisioned-clone_os_volume vc s = ground arith

  provisioned-tag_os_volume :
      (v : Volume) (s : MachineState W) → provisioned (tag_os_volume r v s).1 ≡ provisioned s
  unfolding tag_os_volume
  provisioned-tag_os_volume v s = ground arith

  provisioned-ensure_os_volume :
      (vc : VerdaCluster) (s : MachineState W)
      → provisioned (ensure_os_volume r vc s).1 ≡ provisioned s
  unfolding ensure_os_volume
  provisioned-ensure_os_volume vc s =
      grind (arith, provisioned-clone_os_volume, provisioned-tag_os_volume)

  -- What a machine that has just become provisioned shows.
  abbrev pub IsRunning : MachineState W → Type 0
  IsRunning s =
      (s.vm.status.instance_state ≡ status_running)
      × (r.lib.is_true s.vm.status.conditions instance_ready_condition ≡ true)

  module _ (lawful : IsLawful r.lib) (vc : VerdaCluster) where
    settle_provisions :
        (i : Instance) (s : MachineState W)
        → s.vm.status.instance_state ≡ i.status
        → provisioned s ≡ false
        → provisioned (settle r vc i s).1 ≡ true
        → IsRunning (settle r vc i s).1 × ((settle r vc i s).0 ≡ ok done)
    unfolding settle
    settle_provisions i s e before after = ground (
      arith,
      eq_iff i.status status_running,
      eq_refl instance_ready_condition,
      lawful.is_true-set_condition s.vm.status.conditions (running_condition r)
          instance_ready_condition,
    )

    track_provisions :
        (i : Instance) (s : MachineState W)
        → provisioned s ≡ false
        → provisioned (track_instance r vc i s).1 ≡ true
        → IsRunning (track_instance r vc i s).1 × ((track_instance r vc i s).0 ≡ ok done)
    unfolding track_instance record_instance
    track_provisions i s before after =
        let s₁ : MachineState W = record s { vm = record_id i s.vm } in
        ground (
          arith,
          provisioned-ensure_os_volume_tag s₁,
          state-ensure_os_volume_tag s₁,
          settle_provisions i (record (ensure_os_volume_tag r s₁).1 {
            vm = record_instance i (ensure_os_volume_tag r s₁).1.vm;
          }),
        )

    create_provisions :
        (cluster : Cluster) (m : Machine) (secret boot : String) (s : MachineState W)
        → provisioned s ≡ false
        → provisioned (create_and_track r cluster vc m secret boot s).1 ≡ true
        → IsRunning (create_and_track r cluster vc m secret boot s).1
          × ((create_and_track r cluster vc m secret boot s).0 ≡ ok done)
    unfolding create_and_track
    create_provisions cluster m secret boot s before after = grind (arith, track_provisions)

    boot_provisions :
        (cluster : Cluster) (m : Machine) (secret : String) (v : Volume) (s : MachineState W)
        → provisioned s ≡ false
        → provisioned (boot_clone r cluster vc m secret v s).1 ≡ true
        → IsRunning (boot_clone r cluster vc m secret v s).1
          × ((boot_clone r cluster vc m secret v s).0 ≡ ok done)
    unfolding boot_clone
    boot_provisions cluster m secret v s before after =
        ground (arith, create_provisions cluster m secret v.id s)

    provision_provisions :
        (cluster : Cluster) (m : Machine) (secret : String) (s : MachineState W)
        → provisioned s ≡ false
        → provisioned (provision r cluster vc m secret s).1 ≡ true
        → IsRunning (provision r cluster vc m secret s).1
          × ((provision r cluster vc m secret s).0 ≡ ok done)
    unfolding provision
    provision_provisions cluster m secret s before after = grind (
      arith,
      create_provisions cluster m secret s.vm.spec.image s,
      boot_provisions,
      provisioned-ensure_os_volume vc s,
    )

    adopt_provisions :
        (cluster : Cluster) (m : Machine) (secret : String) (found : Option Instance)
        (s : MachineState W)
        → provisioned s ≡ false
        → provisioned (adopt_or_provision r cluster vc m secret found s).1 ≡ true
        → IsRunning (adopt_or_provision r cluster vc m secret found s).1
          × ((adopt_or_provision r cluster vc m secret found s).0 ≡ ok done)
    unfolding adopt_or_provision
    adopt_provisions cluster m secret none = provision_provisions cluster m secret
    adopt_provisions cluster m secret (some i) = track_provisions i

    ensure_provisions :
        (cluster : Cluster) (m : Machine) (secret : Option String) (s : MachineState W)
        → provisioned s ≡ false
        → provisioned (ensure_instance r cluster vc m secret s).1 ≡ true
        → IsRunning (ensure_instance r cluster vc m secret s).1
          × ((ensure_instance r cluster vc m secret s).0 ≡ ok done)
    unfolding ensure_instance
    ensure_provisions cluster m none s before after = ground arith
    ensure_provisions cluster m (some secret) s before after = grind (arith, adopt_provisions)

    -- A machine that reconcileNormal makes provisioned has an instance that is running, has the
    -- InstanceReady condition, and ends the reconciliation without an error or a requeue.
    pub reconcile_normal-IsRunning :
        (cluster : Cluster) (m : Machine) (s : MachineState W)
        → provisioned s ≡ false
        → provisioned (reconcile_normal r cluster vc m s).1 ≡ true
        → IsRunning (reconcile_normal r cluster vc m s).1
          × ((reconcile_normal r cluster vc m s).0 ≡ ok done)
    unfolding reconcile_normal
    reconcile_normal-IsRunning cluster m s before after =
        ground (arith, ensure_provisions cluster m m.data_secret_name s)
