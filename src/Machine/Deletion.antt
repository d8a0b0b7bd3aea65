-- ===== src/Machine/Deletion.antt =====
-- verdamachine_controller.go: reconcileDelete, the two-phase teardown.
use cluster_api_provider_ver.Base.{
  ℕ, String, ◌<>◌, Bool, false, not, Option, none, some, ◌==◌, ltb, if◌then◌else◌,
}
use cluster_api_provider_ver.Base.Dict.{Dict}
use cluster_api_provider_ver.Base.Act.{Act, ok, pure, gets, ◌>>=◌, ◌>>◌}
use cluster_api_provider_ver.Api.{VerdaMachine, machine_finalizer}
use cluster_api_provider_ver.Cloud.{Instance, status_deleting, status_not_found}
use cluster_api_provider_ver.Platform.{Outcome, done, requeue}
use cluster_api_provider_ver.Machine.Helpers.{
  MachineScope, MachineState, lift, edit, set_instance_ready_false, find_instance, instance_gone,
  delete_request_due, delete_poll_interval,
}
use cluster_api_provider_ver.Machine.Volume.{delete_os_volume}

abbrev set_annotations : VerdaMachine → Dict String → VerdaMachine
set_annotations vm annotations = record vm {
  metadata = record vm.metadata { annotations = annotations };
}

abbrev set_state : String → VerdaMachine → VerdaMachine
set_state state vm = record vm { status = record vm.status { instance_state = state } }

abbrev forget_script : VerdaMachine → VerdaMachine
forget_script vm = record vm { status = record vm.status { startup_script_id = "" } }

module _ {W : Type 0} (r : MachineScope W) where
  abbrev remove_finalizer : VerdaMachine → VerdaMachine
  remove_finalizer vm = record vm {
    metadata = record vm.metadata {
      finalizers = r.lib.remove_finalizer machine_finalizer vm.metadata.finalizers;
    };
  }

  -- deleteRequestDue on the machine, which keeps the annotation.
  unfoldable pub request_due : String → String → Act (MachineState W) Bool
  request_due suffix state s =
      let (now, w) = r.clock.now s.world in
      let (stamp, w') = r.clock.now w in
      let (due, annotations) =
        delete_request_due r.clock now stamp s.vm.metadata.annotations suffix state in
      (ok due, record { vm = set_annotations s.vm annotations; world = w' })

  -- The instance is there: ask for its deletion unless that was done lately, and come back.
  unfoldable pub delete_live_instance : Instance → Act (MachineState W) Outcome
  delete_live_instance i = do
    due ← if not (i.status == status_deleting) then request_due "" i.status else pure false
    if due
        then (do
          lift (r.cloud.delete_instance i.id)
          edit (
              set_instance_ready_false r "InstanceDeleteRequested"
                ("Delete requested for Verda instance " <> i.id <> " (was " <> i.status <> ")")))
        else pure tt
    edit (set_state i.status)
    pure (requeue delete_poll_interval)

  -- The number of volumes that Verda has not released yet.
  unfoldable pub purge_gone_instance : Option Instance → Act W ℕ
  purge_gone_instance none = pure 0
  purge_gone_instance (some i) =
      if not (i.status == status_not_found) then r.cloud.purge_instance_volumes i.id else pure 0

  unfoldable pub delete_script : Act (MachineState W) (Unit {0})
  delete_script = do
    vm ← gets (λ s. s.vm)
    if not (vm.status.startup_script_id == "")
        then (lift (r.cloud.delete_startup_script vm.status.startup_script_id)
            >> edit forget_script)
        else lift (r.cloud.delete_startup_script_by_name vm.metadata.name)

  -- The instance is gone: release what belonged to it, and let the object go.
  unfoldable pub release_machine : Option Instance → Act (MachineState W) Outcome
  release_machine found = do
    pending ← lift (purge_gone_instance found)
    if ltb 0 pending
        then pure (requeue delete_poll_interval)
        else (do delete_script; delete_os_volume r; edit remove_finalizer; pure done)

  unfoldable pub delete_found : Option Instance → Act (MachineState W) Outcome
  delete_found none = release_machine none
  delete_found (some i) =
      if not (instance_gone i) then delete_live_instance i else release_machine (some i)

  unfoldable pub reconcile_delete : Act (MachineState W) Outcome
  reconcile_delete = do
    edit (set_instance_ready_false r r.lib.deleting_reason "Deleting Verda instance")
    vm ← gets (λ s. s.vm)
    found ← lift (find_instance r vm)
    delete_found found
