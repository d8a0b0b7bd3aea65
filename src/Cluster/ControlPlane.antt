-- ===== src/Cluster/ControlPlane.antt =====
-- verdacluster_controller.go: the control plane's load balancer, its instance and its backends.
-- slices.Equal on texts
use cluster_api_provider_ver.Api.{
  MachineAddress, VerdaMachine, VerdaCluster, default_load_balancer_image, external_ip,
  default_load_balancer_instance_type,
}
use cluster_api_provider_ver.Platform.{Cluster, Machine, Library}
use cluster_api_provider_ver.Cluster.Types.{ClusterReconciler}
use cluster_api_provider_ver.Cloud.{
  tag_load_balancer, InstanceSpec, tag_role, status_not_found, tag_cluster, tag_managed_by,
  managed_by_value, bare_instance, Instance, Client,
}
use cluster_api_provider_ver.Cluster.Helpers.{load_balancer_hostname, cluster_tag_value, or_default}
use cluster_api_provider_ver.Base.{
  some, true, ◌<>◌, Option, false, List, none, not, ◌++◌, ◌==◌, ◌∷◌, if◌then◌else◌, String, [],
  Bool,
}
use cluster_api_provider_ver.Base.Int.{pos}
use cluster_api_provider_ver.Base.Error.{errors_is, not_found, wrap}
use cluster_api_provider_ver.LoadBalancer.{Keys, startup_script}
use cluster_api_provider_ver.Base.Sort.{sort_texts}
use cluster_api_provider_ver.Base.Act.{handle, Act, pure, raise, ◌>>=◌}
use cluster_api_provider_ver.Base.Dict.{lookup}

-- The first external address of a machine, as a list.
unfoldable pub external_address : List MachineAddress → List String
external_address [] = []
external_address (a ∷ rest) =
    let later = external_address rest in
    elim a.kind [
      | external_ip ↦ if not (a.address == "") then a.address ∷ [] else later
      | _ ↦ later
    ]

abbrev is_leaving : VerdaMachine → Bool
is_leaving vm = elim vm.metadata.deletion_timestamp [ none ↦ false | some _ ↦ true ]

abbrev machine_is_control_plane : Library → Option Machine → Bool
machine_is_control_plane l none = false
machine_is_control_plane l (some m) = l.is_control_plane_machine m

abbrev pub load_balancer_spec : Cluster → VerdaCluster → Keys → InstanceSpec
load_balancer_spec cluster vc keys = record {
  hostname = load_balancer_hostname vc;
  description =
      "Cluster API control plane load balancer for cluster " <> cluster.namespace <> "/"
      <> cluster.name;
  instance_type =
      or_default vc.spec.control_plane_load_balancer.instance_type
        default_load_balancer_instance_type;
  image = or_default vc.spec.control_plane_load_balancer.image default_load_balancer_image;
  location = vc.spec.location;
  ssh_key_ids = vc.spec.control_plane_load_balancer.ssh_key_ids;
  os_volume_size_gb = pos 0;
  contract = "";
  spot = false;
  spot_discontinue_policy = "";
  data_volumes = [];
  startup_script = startup_script keys [];
  tags =
      (tag_managed_by, managed_by_value)
      ∷ (tag_cluster, cluster.namespace <> "/" <> cluster.name)
      ∷ (tag_load_balancer, cluster_tag_value vc)
      ∷ (tag_role, "load-balancer")
      ∷ [];
}

module _ {W : Type 0} (cloud : Client W) where
  abbrev pub by_recorded_id : String → Act W (Option Instance)
  by_recorded_id id =
      handle (cloud.get_instance id)
        (λ e.
          if not (errors_is not_found e)
          then raise e
          else pure (some (bare_instance id status_not_found)))
        λ inst. pure (some inst)

  unfoldable pub find_tagged : VerdaCluster → Act W (Option Instance)
  find_tagged vc =
      handle (cloud.find_instance_by_tag tag_load_balancer (cluster_tag_value vc))
        (λ e. if errors_is not_found e then pure none else raise e) λ inst. pure (some inst)

  unfoldable pub find_load_balancer : VerdaCluster → Act W (Option Instance)
  find_load_balancer vc =
      if not (vc.status.load_balancer.instance_id == "")
      then by_recorded_id vc.status.load_balancer.instance_id
      else find_tagged vc

module _ {W : Type 0} (k : ClusterReconciler W) where
  unfoldable pub is_control_plane : VerdaMachine → Act W Bool
  is_control_plane vm = elim (lookup k.control_plane_label vm.metadata.labels) [
    | some _ ↦ pure true
    | none ↦
        k.get_owner_machine vm.metadata >>= λ owner. pure (machine_is_control_plane k.lib owner)
  ]

  abbrev add_address : Bool → VerdaMachine → Act W (List String) → Act W (List String)
  add_address true vm later = later >>= λ rest. pure (external_address vm.status.addresses ++ rest)
  add_address false vm later = later

  unfoldable pub collect_addresses : List VerdaMachine → Act W (List String)
  collect_addresses [] = pure []
  collect_addresses (vm ∷ vms) =
      let later = collect_addresses vms in
      if is_leaving vm
      then later
      else (is_control_plane vm >>= λ control_plane. add_address control_plane vm later)

  unfoldable pub control_plane_addresses : Cluster → Act W (List String)
  control_plane_addresses cluster =
      handle (k.list_machines cluster.namespace cluster.name)
        (λ e. raise (wrap "listing VerdaMachines" e))
        λ vms. collect_addresses vms >>= λ addresses. pure (sort_texts addresses)
