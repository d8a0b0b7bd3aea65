-- ===== src/Cluster/ServiceLb.antt =====
-- verdacluster_servicelb.go: the load balancer of the workload cluster's services.
use cluster_api_provider_ver.Base.{
  not, if◌then◌else◌, some, String, ◌==◌, none, false, Bool, true, [], ◌∷◌, Option, ◌<>◌, ◌&&◌,
}
use cluster_api_provider_ver.Cluster.Types.{
  WorkloadClient, ClusterReconciler, Secret, ClusterState, ClusterScope,
}
use cluster_api_provider_ver.Api.{
  service_load_balancer_ready_condition, service_load_balancer_secret_name,
  default_load_balancer_image, default_load_balancer_instance_type, VerdaCluster,
  LoadBalancerStatus,
}
use cluster_api_provider_ver.Cluster.Helpers.{
  or_default, set_service_lb_not_ready, edit_service_load_balancer, edit_cluster,
  service_load_balancer_secret_name_of, with_condition, cluster_tag_value, is_terminal, current,
  is_up, record_instance, ready, service_load_balancer_hostname, on_world,
}
use cluster_api_provider_ver.Cloud.{
  tag_role, managed_by_value, Instance, Client, tag_cluster, tag_service_load_balancer,
  InstanceSpec, tag_managed_by,
}
use cluster_api_provider_ver.Platform.{Cluster}
use cluster_api_provider_ver.LoadBalancer.{envoy_startup_script, Keys}
use cluster_api_provider_ver.Base.Act.{raise, pure, ◌>>◌, Act, handle, ◌>>=◌}
use cluster_api_provider_ver.Base.Int.{pos}
use cluster_api_provider_ver.Base.Dict.{get_text, Dict}
use cluster_api_provider_ver.Base.Error.{kube_not_found, error_text, errors_is, wrap, not_found}
use cluster_api_provider_ver.Cluster.KeySecrets.{ensure_keys}
use cluster_api_provider_ver.Machine.{instance_gone, quoted}
use cluster_api_provider_ver.Cluster.ControlPlane.{by_recorded_id}

abbrev pub service_load_balancer_spec : Cluster → VerdaCluster → Keys → InstanceSpec
service_load_balancer_spec cluster vc keys = record {
  hostname = service_load_balancer_hostname vc;
  description =
      "Cluster API service load balancer for cluster " <> cluster.namespace <> "/" <> cluster.name;
  instance_type =
      or_default vc.spec.service_load_balancer.instance_type default_load_balancer_instance_type;
  image = or_default vc.spec.service_load_balancer.image default_load_balancer_image;
  location = vc.spec.location;
  ssh_key_ids = vc.spec.service_load_balancer.ssh_key_ids;
  os_volume_size_gb = pos 0;
  contract = "";
  spot = false;
  spot_discontinue_policy = "";
  data_volumes = [];
  startup_script = envoy_startup_script keys;
  tags =
      (tag_managed_by, managed_by_value)
      ∷ (tag_cluster, cluster.namespace <> "/" <> cluster.name)
      ∷ (tag_service_load_balancer, cluster_tag_value vc)
      ∷ (tag_role, "service-load-balancer")
      ∷ [];
}

module _ {W : Type 0} (cloud : Client W) where
  unfoldable pub find_tagged_live : String → String → Act W (Option Instance)
  find_tagged_live tag_key tag_value =
      handle (cloud.find_instance_by_tag tag_key tag_value)
        (λ e. if errors_is not_found e then pure none else raise e)
        λ inst. if instance_gone inst then pure none else pure (some inst)

  unfoldable pub find_instance_by_status_or_tag : String → String → String → Act W (Option Instance)
  find_instance_by_status_or_tag id tag_key tag_value =
      if not (id == "") then by_recorded_id cloud id else find_tagged_live tag_key tag_value

  abbrev pub find_service_load_balancer : VerdaCluster → Act W (Option Instance)
  find_service_load_balancer vc =
      find_instance_by_status_or_tag vc.status.service_load_balancer.instance_id
        tag_service_load_balancer (cluster_tag_value vc)

abbrev system_namespace : String
system_namespace = "kube-system"

abbrev workload_key : String
workload_key = system_namespace <> "/" <> service_load_balancer_secret_name

unfoldable pub published_contents : Cluster → String → Keys → Dict String
published_contents cluster address keys =
    ("address", address)
    ∷ ("ssh-privatekey", keys.client_private_key)
    ∷ ("host-publickey", keys.host_public_key)
    ∷ ("instance-cluster", cluster.namespace <> "/" <> cluster.name)
    ∷ []

abbrev pub published_secret : Cluster → String → Keys → Secret
published_secret cluster address keys = record {
  namespace = system_namespace;
  name = service_load_balancer_secret_name;
  labels = [];
  controller = none;
  kind = "";
  contents = published_contents cluster address keys;
}

-- What the secret already says of the address and the client's key.
unfoldable pub is_published : String → Keys → Dict String → Bool
is_published address keys existing =
    get_text "address" existing == address
    && get_text "ssh-privatekey" existing == keys.client_private_key

module _ {W : Type 0} (client : WorkloadClient W) where
  -- publishServiceLoadBalancerSecret, from the client on.
  unfoldable pub publish_to : Cluster → String → Keys → Act W (Unit {0})
  publish_to cluster address keys =
      handle (client.get system_namespace service_load_balancer_secret_name)
        (λ e.
          if kube_not_found e
          then client.create (published_secret cluster address keys)
          else raise (wrap ("reading " <> workload_key <> " in the workload cluster") e))
        λ existing.
          if is_published address keys existing
          then pure tt
          else client.update system_namespace service_load_balancer_secret_name
              (published_contents cluster address keys)

module _ {W : Type 0} (k : ClusterReconciler W) where
  unfoldable pub publish_service_load_balancer_secret : Cluster → String → Keys → Act W (Unit {0})
  publish_service_load_balancer_secret cluster address keys =
      handle (k.get_kubeconfig cluster.namespace cluster.name)
        (λ e. raise (wrap "workload cluster kubeconfig not available" e))
        λ kubeconfig.
          handle (k.workload_client kubeconfig)
            (λ e. raise (wrap "building workload cluster client" e))
            λ client. publish_to client cluster address keys

  -- Best effort: whatever fails is left as it is.
  unfoldable pub remove_service_load_balancer_secret : Cluster → Act W (Unit {0})
  remove_service_load_balancer_secret cluster =
      handle (k.get_kubeconfig cluster.namespace cluster.name) (λ _. pure tt)
        λ kubeconfig.
          handle (k.workload_client kubeconfig) (λ _. pure tt)
            λ client.
              handle (client.delete system_namespace service_load_balancer_secret_name)
                (λ _. pure tt) pure

module _ {W : Type 0} (r : ClusterScope W) where
  abbrev service_state_text : Instance → String
  service_state_text i =
      "service load balancer instance " <> i.id <> " is in state " <> quoted i.status

  abbrev mark_service_lb : String → String → Act (ClusterState W) (Unit {0})
  mark_service_lb reason message =
      edit_cluster (set_service_lb_not_ready r.reconciler.lib reason message)

  unfoldable pub create_service_load_balancer : Cluster → Keys → Act (ClusterState W) Instance
  create_service_load_balancer cluster keys = do
    vc ← current
    handle (on_world (r.cloud.create_instance (service_load_balancer_spec cluster vc keys)))
        (λ e. mark_service_lb "InstanceCreateFailed" (error_text e) >> raise e) pure

  unfoldable pub found_or_created_service :
      Cluster → Keys → Option Instance → Act (ClusterState W) Instance
  found_or_created_service cluster keys (some i) = pure i
  found_or_created_service cluster keys none = create_service_load_balancer cluster keys

  abbrev set_published : LoadBalancerStatus → LoadBalancerStatus
  set_published status = record status { secret_published = some true }

  unfoldable pub publish_address : Cluster → Keys → Instance → Act (ClusterState W) Bool
  publish_address cluster keys i = do
    edit_cluster (edit_service_load_balancer (λ status. record status { address = i.ip }))
    handle (on_world (publish_service_load_balancer_secret r.reconciler cluster i.ip keys))
        (λ e. mark_service_lb "WaitingForWorkloadCluster" (error_text e) >> pure true)
        λ _. do
          edit_cluster (edit_service_load_balancer set_published)
          edit_cluster (
              with_condition r.reconciler.lib
                (ready r.reconciler.lib service_load_balancer_ready_condition))
          pure false

  unfoldable pub track_service_load_balancer : Cluster → Keys → Instance → Act (ClusterState W) Bool
  track_service_load_balancer cluster keys i =
      if is_up i
      then publish_address cluster keys i
      else if is_terminal i
      then mark_service_lb "InstanceFailed" (service_state_text i) >> pure false
      else mark_service_lb "InstanceProvisioning" (service_state_text i) >> pure true

  unfoldable pub with_found_service : Cluster → Keys → Option Instance → Act (ClusterState W) Bool
  with_found_service cluster keys found = do
    instance ← found_or_created_service cluster keys found
    edit_cluster (edit_service_load_balancer (record_instance instance))
    track_service_load_balancer cluster keys instance

  abbrev pub with_service_keys : Cluster → VerdaCluster → Keys → Act (ClusterState W) Bool
  with_service_keys cluster vc keys =
      on_world (find_service_load_balancer r.cloud vc) >>= with_found_service cluster keys

  -- The result says whether to come back.
  unfoldable pub reconcile_service_load_balancer : Cluster → Act (ClusterState W) Bool
  reconcile_service_load_balancer cluster = do
    vc ← current
    keys ← on_world (ensure_keys r.reconciler cluster vc (service_load_balancer_secret_name_of vc))
    with_service_keys cluster vc keys
