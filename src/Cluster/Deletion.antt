-- ===== src/Cluster/Deletion.antt =====
-- reconcileDelete and deleteServiceLoadBalancer: the load balancers' teardown, the services' first.
use cluster_api_provider_ver.Api.{
  VerdaCluster, cluster_finalizer, LoadBalancerStatus, load_balancer_enabled,
}
use cluster_api_provider_ver.Base.{
  Bool, ℕ, if◌then◌else◌, Option, ◌==◌, none, not, false, ◌<>◌, ltb, some, String, true,
}
use cluster_api_provider_ver.Cluster.Helpers.{
  set_service_lb_not_ready, service_load_balancer_hostname, edit_load_balancer, set_lb_not_ready,
  on_world, current, edit_service_load_balancer, load_balancer_hostname, edit_cluster,
}
use cluster_api_provider_ver.Machine.{instance_gone, delete_poll_interval, delete_request_due}
use cluster_api_provider_ver.Cloud.{Instance, status_not_found, status_deleting}
use cluster_api_provider_ver.Platform.{done, Outcome, requeue}
use cluster_api_provider_ver.Base.Act.{◌>>◌, Act, ok, pure, ◌>>=◌}
use cluster_api_provider_ver.Cluster.Types.{ClusterScope, ClusterState}
use cluster_api_provider_ver.Cluster.ServiceLb.{find_service_load_balancer}
use cluster_api_provider_ver.Base.Dict.{Dict}
use cluster_api_provider_ver.Cluster.ControlPlane.{find_load_balancer}

abbrev set_annotations : Dict String → VerdaCluster → VerdaCluster
set_annotations annotations vc = record vc {
  metadata = record vc.metadata { annotations = annotations };
}

abbrev forget_script : LoadBalancerStatus → LoadBalancerStatus
forget_script status = record status { startup_script_id = "" }

module _ {W : Type 0} (r : ClusterScope W) where
  -- deleteRequestDue on the cluster, which keeps the annotation.
  unfoldable pub cluster_request_due : String → String → Act (ClusterState W) Bool
  cluster_request_due suffix state s =
      let (now, w) = r.reconciler.clock.now s.world in
      let (stamp, w') = r.reconciler.clock.now w in
      let (due, annotations) =
        delete_request_due r.reconciler.clock now stamp s.vc.metadata.annotations suffix state in
      (ok due, record { vc = set_annotations annotations s.vc; world = w' })

  -- Ask for the deletion of an instance that is there, unless that was done lately.
  unfoldable pub request_deletion :
      String
      → (String → String → VerdaCluster → VerdaCluster)
      → String
      → Instance
      → Act (ClusterState W) (Unit {0})
  request_deletion suffix set_not_ready what i = do
    due ←
        if not (i.status == status_deleting)
        then cluster_request_due suffix i.status
        else pure false
    if due
        then (do
          on_world (r.cloud.delete_instance i.id)
          edit_cluster
              (set_not_ready "InstanceDeleteRequested" ("Delete requested for " <> what <> i.id)))
        else pure tt

  -- The number of volumes that Verda has not released yet.
  unfoldable pub purge_gone : Option Instance → Act W ℕ
  purge_gone none = pure 0
  purge_gone (some i) =
      if not (i.status == status_not_found) then r.cloud.purge_instance_volumes i.id else pure 0

  unfoldable pub delete_service_script : Act (ClusterState W) (Unit {0})
  delete_service_script = do
    vc ← current
    if not (vc.status.service_load_balancer.startup_script_id == "")
        then (on_world
              (r.cloud.delete_startup_script vc.status.service_load_balancer.startup_script_id)
            >> edit_cluster (edit_service_load_balancer forget_script))
        else on_world (r.cloud.delete_startup_script_by_name (service_load_balancer_hostname vc))

  unfoldable pub release_service_load_balancer : Option Instance → Act (ClusterState W) Bool
  release_service_load_balancer found = do
    pending ← on_world (purge_gone found)
    if ltb 0 pending then pure true else (do delete_service_script; pure false)

  unfoldable pub delete_found_service : Option Instance → Act (ClusterState W) Bool
  delete_found_service none = release_service_load_balancer none
  delete_found_service (some i) =
      if not (instance_gone i)
      then request_deletion "servicelb" (set_service_lb_not_ready r.reconciler.lib)
          "service load balancer instance " i
        >> pure true
      else release_service_load_balancer (some i)

  -- The result says whether to come back.
  unfoldable pub delete_service_load_balancer : Act (ClusterState W) Bool
  delete_service_load_balancer = do
    vc ← current
    found ← on_world (find_service_load_balancer r.cloud vc)
    delete_found_service found

  unfoldable pub delete_control_plane_script : Act (ClusterState W) (Unit {0})
  delete_control_plane_script = do
    vc ← current
    if not (vc.status.load_balancer.startup_script_id == "")
        then (on_world (r.cloud.delete_startup_script vc.status.load_balancer.startup_script_id)
            >> edit_cluster (edit_load_balancer forget_script))
        else if load_balancer_enabled vc
        then on_world (r.cloud.delete_startup_script_by_name (load_balancer_hostname vc))
        else pure tt

  abbrev remove_cluster_finalizer : VerdaCluster → VerdaCluster
  remove_cluster_finalizer vc = record vc {
    metadata = record vc.metadata {
      finalizers = r.reconciler.lib.remove_finalizer cluster_finalizer vc.metadata.finalizers;
    };
  }

  unfoldable pub release_cluster : Option Instance → Act (ClusterState W) Outcome
  release_cluster found = do
    pending ← on_world (purge_gone found)
    if ltb 0 pending
        then pure (requeue delete_poll_interval)
        else (do delete_control_plane_script; edit_cluster remove_cluster_finalizer; pure done)

  unfoldable pub delete_found_cluster : Option Instance → Act (ClusterState W) Outcome
  delete_found_cluster none = release_cluster none
  delete_found_cluster (some i) =
      if not (instance_gone i)
      then request_deletion "lb" (set_lb_not_ready r.reconciler.lib) "load balancer instance " i
        >> pure (requeue delete_poll_interval)
      else release_cluster (some i)

  unfoldable pub delete_control_plane : Act (ClusterState W) Outcome
  delete_control_plane = do
    vc ← current
    found ← on_world (find_load_balancer r.cloud vc)
    delete_found_cluster found

  unfoldable pub reconcile_delete_cluster : Act (ClusterState W) Outcome
  reconcile_delete_cluster = do
    again ← delete_service_load_balancer
    if again then pure (requeue delete_poll_interval) else delete_control_plane
