-- ===== src/Cluster/Helpers.antt =====
-- The names, conditions and edits of the VerdaCluster that the reconciler makes.
use cluster_api_provider_ver.Api.{
  LoadBalancerStatus, Condition, ApiEndpoint, VerdaCluster, service_load_balancer_ready_condition,
  VerdaClusterStatus, load_balancer_ready_condition, control_plane_endpoint_ready_condition,
}
use cluster_api_provider_ver.Machine.{truncate_tag, instance_gone}
use cluster_api_provider_ver.Base.{
  true, if◌then◌else◌, ◌∷◌, some, String, not, ◌==◌, [], false, Bool, ◌<>◌, ◌||◌, ◌&&◌, ℕ,
}
use cluster_api_provider_ver.Platform.{seconds, minutes, Library}
use cluster_api_provider_ver.Cloud.{status_no_capacity, status_error, status_running, Instance}
use cluster_api_provider_ver.Base.Act.{ok, Act}
use cluster_api_provider_ver.Cluster.Types.{ClusterState}

abbrev pub lb_poll_interval : ℕ
lb_poll_interval = seconds 15

abbrev pub lb_resync_interval : ℕ
lb_resync_interval = minutes 5

abbrev pub verda_cluster_kind : String
verda_cluster_kind = "VerdaCluster"

module _ {W A : Type 0} where
  abbrev pub on_world : Act W A → Act (ClusterState W) A
  on_world m s = let (r, w) = m s.world in (r, record s { world = w })

module _ {W : Type 0} where
  abbrev pub edit_cluster : (VerdaCluster → VerdaCluster) → Act (ClusterState W) (Unit {0})
  edit_cluster f s = (ok tt, record s { vc = f s.vc })

  -- The object as it is at this point.
  abbrev pub current : Act (ClusterState W) VerdaCluster
  current s = (ok s.vc, s)

unfoldable pub cluster_tag_value : VerdaCluster → String
cluster_tag_value vc = truncate_tag (vc.metadata.namespace <> "/" <> vc.metadata.name)

abbrev pub load_balancer_hostname : VerdaCluster → String
load_balancer_hostname vc = vc.metadata.name <> "-lb"

abbrev pub load_balancer_secret_name : VerdaCluster → String
load_balancer_secret_name vc = vc.metadata.name <> "-lb-ssh"

abbrev pub service_load_balancer_hostname : VerdaCluster → String
service_load_balancer_hostname vc = vc.metadata.name <> "-service-lb"

abbrev pub service_load_balancer_secret_name_of : VerdaCluster → String
service_load_balancer_secret_name_of vc = vc.metadata.name <> "-service-lb-ssh"

abbrev pub or_default : String → String → String
or_default v def = if v == "" then def else v

abbrev pub edit_status : (VerdaClusterStatus → VerdaClusterStatus) → VerdaCluster → VerdaCluster
edit_status f vc = record vc { status = f vc.status }

abbrev pub edit_load_balancer :
    (LoadBalancerStatus → LoadBalancerStatus) → VerdaCluster → VerdaCluster
edit_load_balancer f vc = record vc {
  status = record vc.status { load_balancer = f vc.status.load_balancer };
}

abbrev pub edit_service_load_balancer :
    (LoadBalancerStatus → LoadBalancerStatus) → VerdaCluster → VerdaCluster
edit_service_load_balancer f vc = record vc {
  status = record vc.status { service_load_balancer = f vc.status.service_load_balancer };
}

-- The instance's id, and its script's where it has one.
abbrev pub record_instance : Instance → LoadBalancerStatus → LoadBalancerStatus
record_instance i status =
    let named = record status { instance_id = i.id } in
    if not (i.startup_script_id == "")
    then record named { startup_script_id = i.startup_script_id }
    else named

abbrev pub set_provisioned : VerdaCluster → VerdaCluster
set_provisioned vc = record vc { status = record vc.status { provisioned = some true } }

unfoldable pub set_failure_domains : VerdaCluster → VerdaCluster
set_failure_domains vc = record vc {
  status = record vc.status {
    failure_domains = record { name = vc.spec.location; control_plane = some true } ∷ [];
  };
}

abbrev pub set_endpoint : ApiEndpoint → VerdaCluster → VerdaCluster
set_endpoint endpoint vc = record vc { spec = record vc.spec { control_plane_endpoint = endpoint } }

-- instance.Status == running && instance.IP != ""
unfoldable pub is_up : Instance → Bool
is_up i = i.status == status_running && not (i.ip == "")

unfoldable pub is_terminal : Instance → Bool
is_terminal i = instance_gone i || i.status == status_error || i.status == status_no_capacity

module _ (l : Library) where
  abbrev pub with_condition : Condition → VerdaCluster → VerdaCluster
  with_condition c vc = record vc {
    status = record vc.status { conditions = l.set_condition vc.status.conditions c };
  }

  abbrev pub without_condition : String → VerdaCluster → VerdaCluster
  without_condition t vc = record vc {
    status = record vc.status { conditions = l.delete_condition vc.status.conditions t };
  }

  abbrev pub ready : String → Condition
  ready t = record { kind = t; status = true; reason = l.ready_reason; message = "" }

  abbrev pub not_ready : String → String → String → Condition
  not_ready t reason message = record {
    kind = t;
    status = false;
    reason = reason;
    message = message;
  }

  unfoldable pub set_endpoint_ready : VerdaCluster → VerdaCluster
  set_endpoint_ready = with_condition (ready control_plane_endpoint_ready_condition)

  -- setLBNotReady: some reasons say that the endpoint is not ready either.
  unfoldable pub set_lb_not_ready : String → String → VerdaCluster → VerdaCluster
  set_lb_not_ready reason message vc =
      let marked = with_condition (not_ready load_balancer_ready_condition reason message) vc in
      if reason == "InstanceProvisioning"
        || reason == "InstanceCreateFailed"
        || reason == "InstanceFailed"
      then with_condition
          (not_ready control_plane_endpoint_ready_condition "WaitingForLoadBalancer" message) marked
      else marked

  unfoldable pub set_service_lb_not_ready : String → String → VerdaCluster → VerdaCluster
  set_service_lb_not_ready reason message =
      with_condition (not_ready service_load_balancer_ready_condition reason message)
