-- ===== src/Machine/Provision.antt =====
-- verdamachine_controller.go: creation of the instance from bootstrap data, and its tracking.
use cluster_api_provider_ver.Base.{
  Option, String, ◌<>◌, true, not, none, some, List, [], ◌∷◌, map, ◌==◌, ◌||◌, if◌then◌else◌,
}
use cluster_api_provider_ver.Base.Int.{ℤ, pos}
use cluster_api_provider_ver.Base.Dict.{lookup}
use cluster_api_provider_ver.Base.Error.{Error, plain, wrap, errors_is, error_text, hostname_in_use}
use cluster_api_provider_ver.Base.Act.{Act, pure, raise, handle, gets, ◌>>=◌, ◌>>◌}
use cluster_api_provider_ver.Api.{VerdaMachine, VerdaCluster, provider_id, is_set}
use cluster_api_provider_ver.Cloud.{
  Instance, InstanceSpec, DataVolumeSpec, bare_instance, tag_managed_by, managed_by_value,
  tag_cluster, tag_machine, tag_role, status_running, status_no_capacity, status_error,
  status_discontinued, status_not_found, volume_detached, Volume,
}
use cluster_api_provider_ver.Platform.{Outcome, done, requeue, Cluster, Machine}
use cluster_api_provider_ver.Machine.Helpers.{
  MachineScope, MachineState, lift, edit, quoted, set_instance_ready_false, set_instance_ready_true,
  find_instance, instance_gone, instance_addresses, machine_tag_value, instance_poll_interval,
  instance_resync_interval, no_capacity_retry_interval,
}
use cluster_api_provider_ver.Machine.Volume.{ensure_os_volume, ensure_os_volume_tag}

abbrev data_volumes : VerdaMachine → List DataVolumeSpec
data_volumes vm =
    map (λ v. record { name = v.name; size_gb = v.size_gb; kind = v.kind })
      vm.spec.additional_volumes

abbrev os_volume_size : VerdaMachine → ℤ
os_volume_size vm = if not (vm.spec.os_volume_id == "") then pos 0 else vm.spec.os_volume_size_gb

abbrev in_state : Instance → String
in_state i = "Verda instance " <> i.id <> " is in state " <> quoted i.status

-- What the status takes over from the instance before the clone is tagged, and after.
abbrev pub record_id : Instance → VerdaMachine → VerdaMachine
record_id i vm = record vm {
  status = record vm.status { instance_id = i.id; instance_state = i.status };
}

unfoldable pub record_instance : Instance → VerdaMachine → VerdaMachine
record_instance i vm = record vm {
  spec = record vm.spec { provider_id = provider_id i.hostname };
  status = record vm.status {
    startup_script_id =
        if not (i.startup_script_id == "")
        then i.startup_script_id
        else vm.status.startup_script_id;
    failure_domain = i.location;
    addresses = instance_addresses i;
  };
}

abbrev set_provisioned : VerdaMachine → VerdaMachine
set_provisioned vm = record vm { status = record vm.status { provisioned = some true } }

abbrev forget_instance : VerdaMachine → VerdaMachine
forget_instance vm = record vm {
  spec = record vm.spec { provider_id = "" };
  status = record vm.status { instance_id = ""; addresses = [] };
}

module _ {W : Type 0} (r : MachineScope W) where
  unfoldable pub get_bootstrap_data : Machine → String → Act W String
  get_bootstrap_data machine secret_name =
      let key = machine.namespace <> "/" <> secret_name in
      handle (r.get_secret machine.namespace secret_name)
        (λ e. raise (wrap ("getting bootstrap data secret " <> key) e))
        λ secret. elim (lookup "value" secret) [
          | none ↦
              raise
                (plain ("bootstrap data secret " <> key <> " has no " <> quoted "value" <> " key"))
          | some value ↦ pure value
        ]

  unfoldable pub instance_spec :
      Cluster → VerdaCluster → Machine → VerdaMachine → String → String → InstanceSpec
  instance_spec cluster verda_cluster machine vm boot_from script =
      let role = if r.lib.is_control_plane_machine machine then "control-plane" else "worker" in
      let of_cluster = cluster.namespace <> "/" <> cluster.name in
      record {
        hostname = vm.metadata.name;
        description = "Cluster API " <> role <> " node for cluster " <> of_cluster;
        instance_type = vm.spec.instance_type;
        image = boot_from;
        location = verda_cluster.spec.location;
        ssh_key_ids = vm.spec.ssh_key_ids;
        os_volume_size_gb = os_volume_size vm;
        contract = vm.spec.contract;
        spot = is_set vm.spec.spot;
        spot_discontinue_policy = vm.spec.spot_discontinue_policy;
        data_volumes = data_volumes vm;
        startup_script = script;
        tags =
            (tag_managed_by, managed_by_value)
            ∷ (tag_cluster, of_cluster)
            ∷ (tag_machine, machine_tag_value vm)
            ∷ (tag_role, role)
            ∷ [];
      }

  unfoldable pub create_instance :
      Cluster → VerdaCluster → Machine → VerdaMachine → String → String → Act W Instance
  create_instance cluster verda_cluster machine vm secret_name boot_from = do
    bootstrap_data ← get_bootstrap_data machine secret_name
    script ←
        handle (r.to_startup_script bootstrap_data vm.metadata.name)
          (λ e. raise (wrap "converting bootstrap data to startup script" e)) pure
    r.cloud.create_instance (instance_spec cluster verda_cluster machine vm boot_from script.0)

  abbrev set_not_ready : String → String → Act (MachineState W) (Unit {0})
  set_not_ready reason message = edit (set_instance_ready_false r reason message)

  -- The switch on the status of the instance, after the status of the machine is written.
  unfoldable pub settle : VerdaCluster → Instance → Act (MachineState W) Outcome
  settle verda_cluster i =
      if i.status == status_running
      then (do edit (set_instance_ready_true r); edit set_provisioned; pure done)
      else if i.status == status_no_capacity
      then (do
        lift (r.cloud.delete_instance i.id)
        edit forget_instance
        vm ← gets (λ s. s.vm)
        set_not_ready "NoCapacity" (
            "Verda has no capacity for instance type " <> vm.spec.instance_type <> " in "
            <> verda_cluster.spec.location <> "; retrying")
        pure (requeue no_capacity_retry_interval))
      else if i.status == status_error
          || i.status == status_discontinued
          || i.status == status_not_found
      then (do
        set_not_ready (if instance_gone i then "InstanceTerminated" else "InstanceFailed")
            (in_state i)
        pure done)
      else (do
        set_not_ready "InstanceProvisioning" (in_state i)
        pure (requeue instance_poll_interval))

  unfoldable pub track_instance : VerdaCluster → Instance → Act (MachineState W) Outcome
  track_instance verda_cluster i = do
    edit (record_id i)
    ensure_os_volume_tag r
    edit (record_instance i)
    settle verda_cluster i

  -- The failure of createInstance: a hostname that is in use is reported, and tried again later.
  abbrev pub create_failed : Error → Act (MachineState W) Outcome
  create_failed e =
      if errors_is hostname_in_use e
      then (do
        set_not_ready "HostnameInUse" (error_text e)
        pure (requeue instance_resync_interval))
      else (do set_not_ready "InstanceCreateFailed" (error_text e); raise e)

  unfoldable pub create_and_track :
      Cluster → VerdaCluster → Machine → String → String → Act (MachineState W) Outcome
  create_and_track cluster verda_cluster machine secret_name boot_from = do
    vm ← gets (λ s. s.vm)
    handle (lift (create_instance cluster verda_cluster machine vm secret_name boot_from))
        create_failed (track_instance verda_cluster)

  -- The clone of the OS volume is booted once Verda reports it detached.
  unfoldable pub boot_clone :
      Cluster → VerdaCluster → Machine → String → Volume → Act (MachineState W) Outcome
  boot_clone cluster verda_cluster machine secret_name volume s =
      if not (volume.status == volume_detached)
      then (set_not_ready "WaitingForOSVolume"
              ("OS volume clone " <> volume.id <> " is in state " <> quoted volume.status)
            >> pure (requeue instance_poll_interval))
          s
      else create_and_track cluster verda_cluster machine secret_name volume.id s

  -- There is no instance: boot from the image, or from the clone of the OS volume.
  unfoldable pub provision :
      Cluster → VerdaCluster → Machine → String → Act (MachineState W) Outcome
  provision cluster verda_cluster machine secret_name s =
      if s.vm.spec.os_volume_id == ""
      then create_and_track cluster verda_cluster machine secret_name s.vm.spec.image s
      else (ensure_os_volume r verda_cluster
            >>= boot_clone cluster verda_cluster machine secret_name)
          s

  abbrev resync_ready : Instance → Act (MachineState W) (Unit {0})
  resync_ready i =
      if i.status == status_running
      then edit (set_instance_ready_true r)
      else if instance_gone i
      then set_not_ready "InstanceTerminated" (in_state i <> "; delete the Machine to replace it")
      else if i.status == status_error
      then set_not_ready "InstanceFailed" (in_state i)
      else set_not_ready "InstanceNotRunning" (in_state i)

  abbrev record_state : Instance → VerdaMachine → VerdaMachine
  record_state i vm = record vm {
    status = record vm.status {
      instance_state = i.status;
      addresses = if not (i.ip == "") then instance_addresses i else vm.status.addresses;
    };
  }

  abbrev or_lost : VerdaMachine → Option Instance → Instance
  or_lost vm none = bare_instance vm.status.instance_id status_not_found
  or_lost vm (some i) = i

  unfoldable pub resync_instance : Act (MachineState W) Outcome
  resync_instance = do
    vm ← gets (λ s. s.vm)
    found ← lift (find_instance r vm)
    let i = or_lost vm found
    edit (record_state i)
    resync_ready i
    pure (requeue instance_resync_interval)

  -- The instance that there is, or a new one.
  unfoldable pub adopt_or_provision :
      Cluster → VerdaCluster → Machine → String → Option Instance → Act (MachineState W) Outcome
  adopt_or_provision cluster verda_cluster machine secret_name (some i) =
      track_instance verda_cluster i
  adopt_or_provision cluster verda_cluster machine secret_name none =
      provision cluster verda_cluster machine secret_name

  -- What follows the first two checks of reconcileNormal.
  unfoldable pub ensure_instance :
      Cluster → VerdaCluster → Machine → Option String → Act (MachineState W) Outcome
  ensure_instance cluster verda_cluster machine none =
      set_not_ready "WaitingForBootstrapData" "Machine bootstrap data secret is not available yet"
      >> pure done
  ensure_instance cluster verda_cluster machine (some secret_name) = do
    vm ← gets (λ s. s.vm)
    found ← lift (find_instance r vm)
    adopt_or_provision cluster verda_cluster machine secret_name found

  unfoldable pub reconcile_normal : Cluster → VerdaCluster → Machine → Act (MachineState W) Outcome
  reconcile_normal cluster verda_cluster machine s =
      if is_set s.vm.status.provisioned
      then resync_instance s
      else if not (is_set cluster.infrastructure_provisioned)
      then (set_not_ready "WaitingForClusterInfrastructure"
              "Cluster infrastructure is not provisioned yet"
            >> pure done)
          s
      else ensure_instance cluster verda_cluster machine machine.data_secret_name s
