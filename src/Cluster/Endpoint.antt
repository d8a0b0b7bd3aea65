-- ===== src/Cluster/Endpoint.antt =====
-- reconcileEndpoint and reconcileLoadBalancer: the control plane's endpoint.
use cluster_api_provider_ver.Api.{
  load_balancer_ready_condition, load_balancer_enabled, VerdaCluster, ApiEndpoint,
  control_plane_endpoint_ready_condition,
}
use cluster_api_provider_ver.Platform.{Cluster, done, Outcome, requeue}
use cluster_api_provider_ver.Cluster.Types.{ClusterState, ClusterScope}
use cluster_api_provider_ver.Cloud.{Instance}
use cluster_api_provider_ver.Cluster.Helpers.{
  on_world, ready, is_terminal, set_lb_not_ready, current, edit_load_balancer, set_provisioned,
  is_up, without_condition, lb_poll_interval, record_instance, not_ready, load_balancer_secret_name,
  set_endpoint, edit_cluster, set_endpoint_ready, with_condition, set_failure_domains,
  lb_resync_interval,
}
use cluster_api_provider_ver.Base.{some, ◌<>◌, Option, List, none, not, ◌==◌, if◌then◌else◌, String}
use cluster_api_provider_ver.Base.Int.{int_eq, pos}
use cluster_api_provider_ver.Base.Error.{error_text}
use cluster_api_provider_ver.LoadBalancer.{Keys, api_port}
use cluster_api_provider_ver.Base.Act.{handle, Act, pure, raise, ◌>>=◌, ◌>>◌}
use cluster_api_provider_ver.Machine.{quoted}
use cluster_api_provider_ver.Cluster.KeySecrets.{ensure_keys}
use cluster_api_provider_ver.Cluster.ControlPlane.{
  control_plane_addresses, load_balancer_spec, find_load_balancer,
}
use cluster_api_provider_ver.Base.Distinct.{texts_eq}

module _ {W : Type 0} (r : ClusterScope W) where
  abbrev state_text : Instance → String
  state_text i = "load balancer instance " <> i.id <> " is in state " <> quoted i.status

  unfoldable pub create_load_balancer : Cluster → Keys → Act (ClusterState W) Instance
  create_load_balancer cluster keys = do
    vc ← current
    handle (on_world (r.cloud.create_instance (load_balancer_spec cluster vc keys)))
        (λ e.
          edit_cluster (set_lb_not_ready r.reconciler.lib "InstanceCreateFailed" (error_text e))
          >> raise e)
        pure

  unfoldable pub found_or_created : Cluster → Keys → Option Instance → Act (ClusterState W) Instance
  found_or_created cluster keys (some i) = pure i
  found_or_created cluster keys none = create_load_balancer cluster keys

  abbrev finish_load_balancer : Act (ClusterState W) Outcome
  finish_load_balancer = do
    edit_cluster
        (with_condition r.reconciler.lib (ready r.reconciler.lib load_balancer_ready_condition))
    edit_cluster set_provisioned
    pure (requeue lb_resync_interval)

  unfoldable pub update_load_balancer_backends :
      String → Keys → List String → Act (ClusterState W) Outcome
  update_load_balancer_backends ip keys backends =
      handle (on_world (r.reconciler.update_backends ip keys backends))
        (λ e. do
          edit_cluster (set_lb_not_ready r.reconciler.lib "BackendUpdateFailed" (error_text e))
          edit_cluster set_provisioned
          pure (requeue lb_poll_interval))
        λ _. do
          edit_cluster (edit_load_balancer (λ status. record status { backends = backends }))
          finish_load_balancer

  -- The instance is running and has an address: it is the endpoint, and gets the backends.
  unfoldable pub serve_control_plane : Cluster → Keys → Instance → Act (ClusterState W) Outcome
  serve_control_plane cluster keys i = do
    edit_cluster (edit_load_balancer (λ status. record status { address = i.ip }))
    edit_cluster (set_endpoint (record { host = i.ip; port = pos api_port }))
    edit_cluster (set_endpoint_ready r.reconciler.lib)
    edit_cluster set_failure_domains
    backends ← on_world (control_plane_addresses r.reconciler cluster)
    vc ← current
    if not (texts_eq backends vc.status.load_balancer.backends)
        then update_load_balancer_backends i.ip keys backends
        else finish_load_balancer

  unfoldable pub track_load_balancer : Cluster → Keys → Instance → Act (ClusterState W) Outcome
  track_load_balancer cluster keys i =
      if is_up i
      then serve_control_plane cluster keys i
      else if is_terminal i
      then edit_cluster (set_lb_not_ready r.reconciler.lib "InstanceFailed" (state_text i))
        >> pure done
      else edit_cluster (set_lb_not_ready r.reconciler.lib "InstanceProvisioning" (state_text i))
        >> pure (requeue lb_poll_interval)

  unfoldable pub with_found : Cluster → Keys → Option Instance → Act (ClusterState W) Outcome
  with_found cluster keys found = do
    instance ← found_or_created cluster keys found
    edit_cluster (edit_load_balancer (record_instance instance))
    track_load_balancer cluster keys instance

  abbrev pub with_keys : Cluster → VerdaCluster → Keys → Act (ClusterState W) Outcome
  with_keys cluster vc keys = on_world (find_load_balancer r.cloud vc) >>= with_found cluster keys

  unfoldable pub reconcile_load_balancer : Cluster → Act (ClusterState W) Outcome
  reconcile_load_balancer cluster = do
    vc ← current
    keys ← on_world (ensure_keys r.reconciler cluster vc (load_balancer_secret_name vc))
    with_keys cluster vc keys

  abbrev with_default_port : ApiEndpoint → ApiEndpoint
  with_default_port e = if int_eq e.port (pos 0) then record e { port = pos api_port } else e

  -- The endpoint of a cluster without a load balancer of its own.
  unfoldable pub set_given_endpoint : ApiEndpoint → Act (ClusterState W) Outcome
  set_given_endpoint endpoint =
      if endpoint.host == ""
      then edit_cluster (
          with_condition r.reconciler.lib (
            not_ready r.reconciler.lib control_plane_endpoint_ready_condition "EndpointNotSet"
              "spec.controlPlaneEndpoint must be set or spec.controlPlaneLoadBalancer.enabled must be true"))
        >> pure done
      else do
        edit_cluster (set_endpoint (with_default_port endpoint))
        edit_cluster (set_endpoint_ready r.reconciler.lib)
        edit_cluster set_failure_domains
        edit_cluster set_provisioned
        pure done

  abbrev given_endpoint : Cluster → VerdaCluster → ApiEndpoint
  given_endpoint cluster vc =
      if vc.spec.control_plane_endpoint.host == ""
      then cluster.control_plane_endpoint
      else vc.spec.control_plane_endpoint

  unfoldable pub reconcile_endpoint : Cluster → Act (ClusterState W) Outcome
  reconcile_endpoint cluster = do
    vc ← current
    if load_balancer_enabled vc then reconcile_load_balancer cluster else (do
      edit_cluster (without_condition r.reconciler.lib load_balancer_ready_condition)
      set_given_endpoint (given_endpoint cluster vc))
