-- ===== src/Machine/Teardown.antt =====
-- reconcileDelete: what has happened when the machine's finalizer goes.
use cluster_api_provider_ver.Base.{
  String, ◌≡◌, ◌≢◌, refl, Bool, false, not, Option, none, some, List, arith,
}
use cluster_api_provider_ver.Base.Act.{Result, ok, err}
use cluster_api_provider_ver.Cloud.{Instance}
use cluster_api_provider_ver.Platform.{done}
use cluster_api_provider_ver.Machine.Helpers.{
  MachineScope, MachineState, find_instance, instance_gone, machine_tag_value,
  set_instance_ready_false, delete_request_due,
}
use cluster_api_provider_ver.Machine.Volume.{delete_os_volume, delete_found_volume}
use cluster_api_provider_ver.Machine.Deletion.{
  delete_found, reconcile_delete, delete_live_instance, release_machine, delete_script,
  purge_gone_instance, request_due,
}

abbrev pub is_live : Option Instance → Bool
is_live none = false
is_live (some i) = not (instance_gone i)

module _ {W : Type 0} (r : MachineScope W) where
  abbrev pub finalizers : MachineState W → List String
  finalizers s = s.vm.metadata.finalizers

  finalizers-delete_live_instance :
      (i : Instance) (s : MachineState W) → finalizers (delete_live_instance r i s).1 ≡ finalizers s
  unfolding delete_live_instance request_due delete_request_due
  finalizers-delete_live_instance i s = ground arith

  finalizers-delete_script : (s : MachineState W) → finalizers (delete_script r s).1 ≡ finalizers s
  unfolding delete_script
  finalizers-delete_script s = ground arith

  finalizers-delete_os_volume :
      (s : MachineState W) → finalizers (delete_os_volume r s).1 ≡ finalizers s
  unfolding delete_os_volume delete_found_volume
  finalizers-delete_os_volume s = ground arith

  release_cases :
      (found : Option Instance) (s : MachineState W)
      → finalizers (release_machine r found s).1 ≢ finalizers s
      → ((release_machine r found s).0 ≡ ok done) × ((purge_gone_instance r found s.world).0 ≡ ok 0)
  unfolding release_machine
  release_cases found s h =
      let s₁ : MachineState W = record s { world = (purge_gone_instance r found s.world).1 } in
      ground
        (arith, finalizers-delete_script s₁, finalizers-delete_os_volume (delete_script r s₁).1)

  -- The state after reconcileDelete has set the condition with which it begins.
  abbrev marked : MachineState W → MachineState W
  marked s = record s {
    vm = set_instance_ready_false r r.lib.deleting_reason "Deleting Verda instance" s.vm;
  }

  find_instance-marked :
      (s : MachineState W) (w : W) → find_instance r (marked s).vm w ≡ find_instance r s.vm w
  unfolding find_instance machine_tag_value
  find_instance-marked s w = refl

  delete_found_cases :
      (found : Option Instance) (s : MachineState W)
      → finalizers (delete_found r found s).1 ≢ finalizers s
      → (is_live found ≡ false)
        × ((purge_gone_instance r found s.world).0 ≡ ok 0)
        × ((delete_found r found s).0 ≡ ok done)
  unfolding delete_found
  delete_found_cases none s h = ground (arith, release_cases none s)
  delete_found_cases (some i) s h =
      ground (arith, release_cases (some i) s, finalizers-delete_live_instance i s)

  finalizer_removal_from :
      (s : MachineState W) (x : Result (Option Instance) × W)
      → find_instance r s.vm s.world ≡ x
      → finalizers (reconcile_delete r s).1 ≢ finalizers s
      → (found : Option Instance) × (w : W) × (find_instance r s.vm s.world ≡ (ok found, w))
        × (is_live found ≡ false)
        × ((purge_gone_instance r found w).0 ≡ ok 0)
        × ((reconcile_delete r s).0 ≡ ok done)
  unfolding reconcile_delete
  finalizer_removal_from s (err e, w) p h =
      absurd (h (ground (arith, find_instance-marked s s.world)))
  finalizer_removal_from s (ok found, w) p h =
      let s₂ : MachineState W = record (marked s) { world = w } in
      (
        found,
        w,
        p,
        ground (arith, find_instance-marked s s.world, delete_found_cases found s₂),
        ground (arith, find_instance-marked s s.world, delete_found_cases found s₂),
        ground (arith, find_instance-marked s s.world, delete_found_cases found s₂),
      )

  -- When reconcileDelete changes the finalizers of the machine, the lookup of its instance
  -- succeeded and found none, or one that is gone; Verda holds none of its volumes back; and the
  -- reconciliation ended without an error and asks for no requeue.
  pub finalizer_removal :
      (s : MachineState W)
      → finalizers (reconcile_delete r s).1 ≢ finalizers s
      → (found : Option Instance) × (w : W) × (find_instance r s.vm s.world ≡ (ok found, w))
        × (is_live found ≡ false)
        × ((purge_gone_instance r found w).0 ≡ ok 0)
        × ((reconcile_delete r s).0 ≡ ok done)
  finalizer_removal s h = finalizer_removal_from s (find_instance r s.vm s.world) refl h
