-- ===== src/Machine/Convergence.antt =====
-- reconcileDelete over the in-memory cloud of fake.go.
use cluster_api_provider_ver.Cloud.Fake
use cluster_api_provider_ver.Platform.{IsLawful, Library, Clock, done, requeue}
use cluster_api_provider_ver.Base.{
  List, eq_iff, some, ◌==◌, ◌≡◌, arith, true, String, false, ◌∙◌, refl, none, ap,
}
use cluster_api_provider_ver.Base.Dict.{lookup, Dict, get_text, lookup-insert}
use cluster_api_provider_ver.Machine.Helpers.{
  MachineState, MachineScope, find_instance, instance_gone, delete_poll_interval,
  recently_requested, delete_requested_annotation, delete_request_due, set_instance_ready_false,
  annotation_key,
}
use cluster_api_provider_ver.Cloud.{
  Instance, tag_managed_by, status_discontinued, managed_by_value, status_deleting,
}
use cluster_api_provider_ver.Cloud.Fake.{Fake}
use cluster_api_provider_ver.Api.{machine_finalizer}
use cluster_api_provider_ver.Machine.Deletion.{
  delete_script, purge_gone_instance, reconcile_delete, release_machine, delete_found, request_due,
  delete_live_instance,
}
use cluster_api_provider_ver.Base.Act.{Act, ok}
use cluster_api_provider_ver.Machine.Volume.{delete_os_volume}
use cluster_api_provider_ver.Base.Distinct.{contains}
use cluster_api_provider_ver.Base.Text.{cut}
use text.Mathlib.TextPositions.{eq_refl}

-- What the reconciler takes from libraries, over the in-memory cloud.
abbrev pub over_fake :
    Library
    → Clock Fake
    → (String → String → Act Fake (Dict String))
    → (String → String → Act Fake (String × List String))
    → MachineScope Fake
over_fake library clock get_secret to_script = record {
  cloud = Fake.fake_client;
  lib = library;
  clock = clock;
  get_secret = get_secret;
  to_startup_script = to_script;
}

-- The instance that the machine has recorded, as the cloud has it.
abbrev pub IsRecorded : MachineState Fake → Instance → Type 0
IsRecorded s i =
    (s.vm.status.instance_id ≡ i.id)
    × ((i.id == "") ≡ false)
    × (lookup i.id s.world.instances ≡ some i)

module _ (library : Library) (lawful : IsLawful library) (clock : Clock Fake)
    (get_secret : String → String → Act Fake (Dict String))
    (to_script : String → String → Act Fake (String × List String)) where
  abbrev r : MachineScope Fake
  r = over_fake library clock get_secret to_script

  find_recorded :
      (s : MachineState Fake) (i : Instance)
      → IsRecorded s i
      → find_instance r s.vm s.world ≡ (ok (some i), s.world)
  unfolding find_instance Fake.fake_client Fake.get_instance
  find_recorded s i known = ground (arith, eq_iff s.vm.status.instance_id "", eq_iff i.id "")

  release_lem :
      (s : MachineState Fake) (i : Instance)
      → s.vm.status.os_volume_id ≡ ""
      → ((release_machine r (some i) s).0 ≡ ok done)
        × (contains machine_finalizer (release_machine r (some i) s).1.vm.metadata.finalizers
            ≡ false)
  unfolding release_machine purge_gone_instance delete_script delete_os_volume Fake.fake_client
      Fake.purge_instance_volumes Fake.delete_startup_script Fake.delete_startup_script_by_name
  release_lem s i none_cloned = ground (
    arith,
    eq_iff s.vm.status.os_volume_id "",
    lawful.contains-remove_finalizer machine_finalizer s.vm.metadata.finalizers,
  )

  -- The state after reconcileDelete has set the condition with which it begins.
  abbrev begun : MachineState Fake → MachineState Fake
  begun s = record s {
    vm = set_instance_ready_false r library.deleting_reason "Deleting Verda instance" s.vm;
  }

  reconcile_found :
      (s : MachineState Fake) (i : Instance)
      → IsRecorded s i
      → reconcile_delete r s ≡ delete_found r (some i) (begun s)
  unfolding reconcile_delete
  reconcile_found s i known = ground (arith, find_recorded (begun s) i known)

  release_gone :
      (s : MachineState Fake) (i : Instance)
      → IsRecorded s i
      → instance_gone i ≡ true
      → s.vm.status.os_volume_id ≡ ""
      → ((reconcile_delete r s).0 ≡ ok done)
        × (contains machine_finalizer (reconcile_delete r s).1.vm.metadata.finalizers ≡ false)
  unfolding delete_found
  release_gone s i known gone none_cloned =
      ground (arith, reconcile_found s i known, release_lem (begun s) i none_cloned)

  -- The instance as the in-memory cloud has it once its deletion was asked for.
  abbrev pub discontinued : Instance → Instance
  discontinued i = record i { status = status_discontinued }

  nothing_recorded :
      (annotations : Dict String)
      → get_text delete_requested_annotation annotations ≡ ""
      → cut b'@' (get_text (annotation_key "") annotations) ≡ none
  unfolding cut
  nothing_recorded annotations h = ap (cut b'@') h

  first_request :
      (s : MachineState Fake) (state : String)
      → get_text delete_requested_annotation s.vm.metadata.annotations ≡ ""
      → ((w : Fake) → (clock.now w).1 ≡ w)
      → let (o, t) = request_due r "" state s in
        (o ≡ ok true) × (t.world ≡ s.world) × (t.vm.status ≡ s.vm.status)
  unfolding request_due delete_request_due recently_requested
  first_request s state none_requested still = ground (
    arith,
    still s.world,
    still (clock.now s.world).1,
    nothing_recorded s.vm.metadata.annotations none_requested,
  )

  fake_deletes :
      (w : Fake) (i : Instance)
      → lookup i.id w.instances ≡ some i
      → (get_text tag_managed_by i.tags == managed_by_value) ≡ true
      → ((Fake.delete_instance i.id w).0 ≡ ok tt)
        × (lookup i.id (Fake.delete_instance i.id w).1.instances ≡ some (discontinued i))
  unfolding Fake.delete_instance
  fake_deletes w i known managed =
      ground (arith, lookup-insert i.id i.id (discontinued i) w.instances, eq_refl i.id)

  request_live :
      (s : MachineState Fake) (i : Instance)
      → IsRecorded s i
      → (get_text tag_managed_by i.tags == managed_by_value) ≡ true
      → instance_gone i ≡ false
      → (i.status == status_deleting) ≡ false
      → get_text delete_requested_annotation s.vm.metadata.annotations ≡ ""
      → ((w : Fake) → (clock.now w).1 ≡ w)
      → let (o, t) = delete_live_instance r i s in
        (o ≡ ok (requeue delete_poll_interval))
        × (t.vm.status.instance_id ≡ i.id)
        × (t.vm.status.os_volume_id ≡ s.vm.status.os_volume_id)
        × (lookup i.id t.world.instances ≡ some (discontinued i))
  unfolding delete_live_instance Fake.fake_client
  request_live s i known managed live waiting none_requested still =
      ground (
        arith,
        first_request s i.status none_requested still,
        fake_deletes s.world i known.2 managed,
      )

  -- A machine whose recorded instance is managed, and neither gone nor being deleted, which has no
  -- clone of an OS volume and has not asked for the deletion yet, is deleted in two reconciliations:
  -- the first asks for the deletion and comes back after the poll interval; the second ends without
  -- a requeue, and the machine's finalizer is gone. The clock's readings do not act on the cloud.
  pub deletion_converges :
      (s : MachineState Fake) (i : Instance)
      → IsRecorded s i
      → (get_text tag_managed_by i.tags == managed_by_value) ≡ true
      → instance_gone i ≡ false
      → (i.status == status_deleting) ≡ false
      → s.vm.status.os_volume_id ≡ ""
      → get_text delete_requested_annotation s.vm.metadata.annotations ≡ ""
      → ((w : Fake) → (clock.now w).1 ≡ w)
      → let (first, t) = reconcile_delete r s in
        let (second, u) = reconcile_delete r t in
        (first ≡ ok (requeue delete_poll_interval))
        × (lookup i.id t.world.instances ≡ some (discontinued i))
        × (second ≡ ok done)
        × (contains machine_finalizer u.vm.metadata.finalizers ≡ false)
  unfolding delete_found instance_gone
  deletion_converges s i known managed live waiting none_cloned none_requested still =
      let asked = request_live (begun s) i known managed live waiting none_requested still in
      let t = (delete_live_instance r i (begun s)).1 in
      let step : reconcile_delete r s ≡ delete_live_instance r i (begun s) =
        ground (arith, reconcile_found s i known, live) in
      let ended =
        release_gone t (discontinued i) (asked.1, known.1, asked.3) refl (asked.2 ∙ none_cloned) in
      rw (step) (asked.0, asked.3, ended.0, ended.1)
