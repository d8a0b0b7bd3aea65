-- ===== src/Tests/Machines.antt =====
-- The reconciler of machines, over the in-memory cloud.
use cluster_api_provider_ver.Cloud.Fake
use cluster_api_provider_ver.Base.Text.{to_lower, cut}
use cluster_api_provider_ver.Base.{
  arith, false, ◌+◌, if◌then◌else◌, eq_iff, some, ◌==◌, true, [], leb, ◌≢◌, none, Option, refl, ◌≡◌,
  ◌∷◌, inl, String, ap, sym, ◌∙◌,
}
use cluster_api_provider_ver.Machine.Resync.{resync_frame, outcome_of}
use cluster_api_provider_ver.Machine.{
  release_machine, delete_retry_interval, recently_requested, find_instance, adopt_or_provision,
  record_instance, delete_found_volume, settle, truncate_tag, machine_tag_value, instance_gone,
  delete_script, delete_os_volume, reconcile_normal, MachineState, reconcile_delete,
  ensure_instance, ensure_os_volume_tag, purge_gone_instance, delete_request_due, delete_found,
  track_instance, delete_poll_interval, MachineScope, ensure_os_volume,
}
use cluster_api_provider_ver.Tests.Fixtures.{
  scope, stopped, verda_cluster, cluster, stopped-IsRfc3339, library-IsLawful, cloud_with, machine,
  running_instance, verda_machine, fresh_status, machine_spec, library,
}
use cluster_api_provider_ver.Platform.{done, requeue}
use cluster_api_provider_ver.Machine.Teardown.{finalizers, is_live, finalizer_removal}
use cluster_api_provider_ver.Base.Act.{ok, pure, Act, raise}
use cluster_api_provider_ver.Base.Dict.{get_text, lookup}
use cluster_api_provider_ver.Cloud.{
  status_running, Instance, status_no_capacity, status_discontinued, Volume, volume_detached,
}
use cluster_api_provider_ver.Machine.Readiness.{IsRunning, reconcile_normal-IsRunning, provisioned}
use cluster_api_provider_ver.Cloud.Fake.{new_fake, fake_client, Fake, get_volume, of_option}
use cluster_api_provider_ver.Machine.Capacity.{no_capacity_patch_refused}
use cluster_api_provider_ver.Webhook.{validate_machine_update}
use cluster_api_provider_ver.Machine.Throttle.{due_again}
use cluster_api_provider_ver.Machine.Convergence.{deletion_converges, over_fake}
use cluster_api_provider_ver.Api.{machine_finalizer}
use cluster_api_provider_ver.Base.Distinct.{contains}
use cluster_api_provider_ver.Machine.Clones.{
  clone_found_once, recorded, deleting, only_clone_deleted, AgreeOnClone,
}
use cluster_api_provider_ver.Base.Error.{plain}
use mathlib.Core.Path.{subst}

-- A machine whose instance is gone, or was never made.
abbrev deleted_state : MachineState Fake
deleted_state = record { vm = verda_machine; world = new_fake }

finalizers_change :
    finalizers scope (reconcile_delete scope deleted_state).1 ≢ finalizers scope deleted_state
unfolding reconcile_delete find_instance machine_tag_value truncate_tag to_lower delete_found
    release_machine purge_gone_instance delete_script delete_os_volume delete_found_volume new_fake
    fake_client Fake.find_instance_by_tag Fake.scan Fake.delete_startup_script_by_name
    Fake.drop_scripts
finalizers_change p = cc

finalizer_removal_example :
    (found : Option Instance) × (w : Fake) × (find_instance scope verda_machine new_fake
      ≡ (ok found, w))
    × (is_live found ≡ false)
    × ((purge_gone_instance scope found w).0 ≡ ok 0)
    × ((reconcile_delete scope deleted_state).0 ≡ ok done)
finalizer_removal_example = finalizer_removal scope deleted_state finalizers_change

-- A machine that finds its running instance.
abbrev adopting_state : MachineState Fake
adopting_state = record { vm = verda_machine; world = cloud_with running_instance }

becomes_provisioned :
    provisioned scope (reconcile_normal scope cluster verda_cluster machine adopting_state).1 ≡ true
unfolding reconcile_normal ensure_instance adopt_or_provision find_instance machine_tag_value
    truncate_tag to_lower track_instance ensure_os_volume_tag record_instance settle instance_gone
    fake_client Fake.find_instance_by_tag Fake.scan get_text lookup
becomes_provisioned = refl

reconcile_normal-IsRunning_example :
    let (outcome, t) = reconcile_normal scope cluster verda_cluster machine adopting_state in
    IsRunning scope t × (outcome ≡ ok done)
reconcile_normal-IsRunning_example =
    reconcile_normal-IsRunning scope library-IsLawful verda_cluster cluster machine adopting_state
      refl becomes_provisioned

abbrev provisioned_state : MachineState Fake
provisioned_state = record {
  vm = record verda_machine {
    status = record fresh_status { provisioned = some true; instance_id = "inst-1" };
  };
  world = cloud_with running_instance;
}

resync_frame_example :
    let s = provisioned_state in
    let (o, t) = reconcile_normal scope cluster verda_cluster machine s in
    let (found, w) = find_instance scope s.vm s.world in
    (t.world ≡ w)
    × (t.vm.spec ≡ s.vm.spec)
    × (t.vm.metadata ≡ s.vm.metadata)
    × (t.vm.status.provisioned ≡ s.vm.status.provisioned)
    × (t.vm.status.instance_id ≡ s.vm.status.instance_id)
    × (t.vm.status.os_volume_id ≡ s.vm.status.os_volume_id)
    × (t.vm.status.startup_script_id ≡ s.vm.status.startup_script_id)
    × (o ≡ outcome_of found)
resync_frame_example = resync_frame scope cluster verda_cluster machine provisioned_state refl

due_again_example :
    let kept = (delete_request_due stopped 5 5 [] "" status_running).1 in
    (delete_request_due stopped 30 30 kept "" status_running).0 ≡ (
      if status_running == status_running
      then leb (stopped-IsRfc3339.floor 5 + delete_retry_interval) 30
      else true)
unfolding cut delete_request_due recently_requested get_text lookup
due_again_example =
    due_again stopped stopped-IsRfc3339 5 5 30 30 [] "" status_running status_running refl refl

abbrev starved : Instance
starved = record running_instance { status = status_no_capacity }

abbrev starved_state : MachineState Fake
starved_state = record {
  vm = record verda_machine { spec = record machine_spec { provider_id = "verda://worker" } };
  world = cloud_with starved;
}

no_capacity_patch_refused_example :
    validate_machine_update starved_state.vm
      (reconcile_normal scope cluster verda_cluster machine starved_state).1.vm
    ≢ none
unfolding reconcile_normal ensure_instance adopt_or_provision find_instance machine_tag_value
    truncate_tag to_lower track_instance ensure_os_volume_tag record_instance settle instance_gone
    fake_client Fake.find_instance_by_tag Fake.scan Fake.delete_instance get_text lookup
no_capacity_patch_refused_example =
    no_capacity_patch_refused scope verda_cluster cluster machine starved_state
      (λ p. ground (arith, eq_iff "verda://worker" "")) refl

abbrev doomed_state : MachineState Fake
doomed_state = record {
  vm = record verda_machine { status = record fresh_status { instance_id = "inst-1" } };
  world = cloud_with running_instance;
}

abbrev doomed_scope : MachineScope Fake
doomed_scope = over_fake library stopped (λ namespace name. pure []) (λ text name. pure (text, []))

deletion_converges_example :
    let (first, t) = reconcile_delete doomed_scope doomed_state in
    let (second, u) = reconcile_delete doomed_scope t in
    (first ≡ ok (requeue delete_poll_interval))
    × (lookup "inst-1" t.world.instances
        ≡ some (record running_instance { status = status_discontinued }))
    × (second ≡ ok done)
    × (contains machine_finalizer u.vm.metadata.finalizers ≡ false)
unfolding lookup get_text instance_gone
deletion_converges_example =
    deletion_converges library library-IsLawful stopped (λ namespace name. pure [])
      (λ text name. pure (text, [])) doomed_state running_instance (refl, refl, refl) refl refl refl
      refl refl (λ w. refl)

-- A volume of the machine's clone's name, and one of another name.
abbrev clone : Volume
clone = record {
  id = "vol-1";
  name = "default-worker-os";
  status = volume_detached;
  location = "FIN-01";
  is_os_volume = true;
  instance_id = "";
  managed = true;
}

abbrev cloud_of : Volume → Fake
cloud_of v = record {
  next_id = 1;
  instances = [];
  scripts = [];
  script_names = [];
  volumes = ("vol-1", v) ∷ [];
  instance_types = [];
  created = [];
}

abbrev with_volume : Volume → MachineState Fake
with_volume v = record {
  vm = record verda_machine { status = record fresh_status { os_volume_id = "vol-1" } };
  world = cloud_of v;
}

abbrev stray : Volume
stray = record clone { name = "golden-image" }

-- DeleteVolume, for volumes of the name of the clone alone.
abbrev delete_clone : Fake → Option Volume → Act Fake (Unit {0})
delete_clone w none = raise (plain "no volume")
delete_clone w (some v) =
    if v.name == "default-worker-os"
    then fake_client.delete_volume "vol-1"
    else raise (plain v.name)

abbrev guarded : String → Act Fake (Unit {0})
guarded id w = delete_clone w (lookup id w.volumes) w

of_option-ok : (o : Option Volume) (v : Volume) → of_option o ≡ ok v → o ≡ some v
of_option-ok none v p = ground arith
of_option-ok (some u) v p = ground (arith, p)

guarded-AgreeOnClone : AgreeOnClone scope (with_volume stray).vm fake_client.delete_volume guarded
unfolding fake_client get_volume
guarded-AgreeOnClone v w w' read named live kept =
    let found : lookup "vol-1" w.volumes ≡ some v =
      of_option-ok (lookup "vol-1" w.volumes) v (ap (λ x. x.0) read) in
    let same : w ≡ w' = ap (λ x. x.1) read in
    subst (λ x. fake_client.delete_volume "vol-1" x ≡ guarded "vol-1" x) same
      (sym (
        ap (λ o. delete_clone w o w) found
        ∙ ap
            (λ name.
              (if name == "default-worker-os"
                  then fake_client.delete_volume "vol-1"
                  else raise (plain name))
                w)
            named))

only_clone_deleted_example :
    delete_os_volume (deleting scope fake_client.delete_volume) (with_volume stray)
    ≡ delete_os_volume (deleting scope guarded) (with_volume stray)
only_clone_deleted_example =
    only_clone_deleted scope fake_client.delete_volume guarded (with_volume stray)
      guarded-AgreeOnClone

clone_found_once_example :
    let (result, t) = ensure_os_volume scope verda_cluster (with_volume clone) in
    (recorded scope t ≡ "vol-1") × (t.world ≡ cloud_of clone) × (result ≡ ok clone)
unfolding fake_client get_volume lookup
clone_found_once_example =
    clone_found_once scope verda_cluster (with_volume clone) clone (cloud_of clone)
      (inl (λ p. ground (arith, eq_iff "vol-1" ""), refl))
