-- ===== src/Cluster/Provisioned.antt =====
-- reconcileNormal: what a cluster that is provisioned has.
-- The endpoint is named and has a port, and the one failure domain is the cluster's location.
use cluster_api_provider_ver.Cluster.Deletion.{
  request_deletion, purge_gone, delete_service_load_balancer, release_service_load_balancer,
  cluster_request_due, delete_service_script, delete_found_service,
}
use cluster_api_provider_ver.Base.{
  ◌==◌, not, ◌∷◌, [], Bool, map, String, ◌&&◌, arith, ◌≡◌, Option, ◌||◌, true, refl, none, some,
}
use cluster_api_provider_ver.Base.Int.{int_eq, pos}
use cluster_api_provider_ver.Platform.{Library, Outcome, Cluster}
use cluster_api_provider_ver.Cluster.Types.{ClusterScope, ClusterState}
use cluster_api_provider_ver.Api.{VerdaCluster, FailureDomain, is_set, ApiEndpoint}
use cluster_api_provider_ver.Cloud.{Instance}
use cluster_api_provider_ver.Machine.{delete_request_due}
use cluster_api_provider_ver.Cluster.Helpers.{
  set_service_lb_not_ready, edit_service_load_balancer, set_failure_domains, set_lb_not_ready,
  record_instance, is_up, edit_load_balancer, set_endpoint_ready,
}
use cluster_api_provider_ver.Cluster.ServiceLb.{
  create_service_load_balancer, track_service_load_balancer, reconcile_service_load_balancer,
  publish_address, found_or_created_service, with_found_service,
}
use cluster_api_provider_ver.Cluster.Endpoint.{
  reconcile_endpoint, update_load_balancer_backends, create_load_balancer, serve_control_plane,
  track_load_balancer, set_given_endpoint, found_or_created, reconcile_load_balancer, with_found,
}
use cluster_api_provider_ver.Cluster.Reconcile.{
  reconcile_normal_cluster, withdraw_service_load_balancer, reconcile_services,
}
use text.Mathlib.TextPositions.{eq_refl}
use cluster_api_provider_ver.LoadBalancer.{Keys}
use cluster_api_provider_ver.Base.Distinct.{texts_eq}

abbrev pub is_served : VerdaCluster → Bool
is_served vc =
    not (vc.spec.control_plane_endpoint.host == "")
    && not (int_eq vc.spec.control_plane_endpoint.port (pos 0))
    && texts_eq (map (λ (d : FailureDomain). d.name) vc.status.failure_domains)
        (vc.spec.location ∷ [])

unfoldable pub is_consistent : VerdaCluster → Bool
unfolding texts_eq
is_consistent vc = not (is_set vc.status.provisioned) || is_served vc

module _ {W : Type 0} where
  abbrev pub consistent : ClusterState W → Bool
  consistent s = is_consistent s.vc

module _ {W : Type 0} (r : ClusterScope W) where
  consistent-request_deletion :
      (suffix : String) (l : Library) (what : String) (i : Instance) (s : ClusterState W)
      → consistent (request_deletion r suffix (set_service_lb_not_ready l) what i s).1
        ≡ consistent s
  unfolding request_deletion cluster_request_due delete_request_due set_service_lb_not_ready
      is_consistent
  consistent-request_deletion suffix l what i s = ground arith

  consistent-delete_service_script :
      (s : ClusterState W) → consistent (delete_service_script r s).1 ≡ consistent s
  unfolding delete_service_script is_consistent
  consistent-delete_service_script s = ground arith

  consistent-release :
      (found : Option Instance) (s : ClusterState W)
      → consistent (release_service_load_balancer r found s).1 ≡ consistent s
  unfolding release_service_load_balancer is_consistent
  consistent-release found s = ground (
    arith,
    consistent-delete_service_script (record s { world = (purge_gone r found s.world).1 }),
  )

  consistent-delete_service :
      (s : ClusterState W) → consistent (delete_service_load_balancer r s).1 ≡ consistent s
  unfolding delete_service_load_balancer delete_found_service
  consistent-delete_service s = grind (arith, consistent-release, consistent-request_deletion)

  consistent-withdraw :
      (cluster : Cluster) (result : Outcome) (s : ClusterState W)
      → consistent (withdraw_service_load_balancer r cluster result s).1 ≡ consistent s
  unfolding withdraw_service_load_balancer is_consistent
  consistent-withdraw cluster result s = ground (arith, consistent-delete_service s)

  consistent-publish_address :
      (cluster : Cluster) (keys : Keys) (i : Instance) (s : ClusterState W)
      → consistent (publish_address r cluster keys i s).1 ≡ consistent s
  unfolding publish_address is_consistent set_service_lb_not_ready
  consistent-publish_address cluster keys i s = ground arith

  consistent-track_service :
      (cluster : Cluster) (keys : Keys) (i : Instance) (s : ClusterState W)
      → consistent (track_service_load_balancer r cluster keys i s).1 ≡ consistent s
  unfolding track_service_load_balancer is_consistent set_service_lb_not_ready
  consistent-track_service cluster keys i s =
      ground (arith, consistent-publish_address cluster keys i s)

  consistent-found_or_created_service :
      (cluster : Cluster) (keys : Keys) (found : Option Instance) (s : ClusterState W)
      → consistent (found_or_created_service r cluster keys found s).1 ≡ consistent s
  unfolding found_or_created_service create_service_load_balancer is_consistent
      set_service_lb_not_ready
  consistent-found_or_created_service cluster keys none s = ground arith
  consistent-found_or_created_service cluster keys (some i) s = refl

  consistent-record_service :
      (i : Instance) (vc : VerdaCluster)
      → is_consistent (edit_service_load_balancer (record_instance i) vc) ≡ is_consistent vc
  unfolding is_consistent
  consistent-record_service i vc = refl

  consistent-with_found_service :
      (cluster : Cluster) (keys : Keys) (found : Option Instance) (s : ClusterState W)
      → consistent (with_found_service r cluster keys found s).1 ≡ consistent s
  unfolding with_found_service
  consistent-with_found_service cluster keys found s = grind (
    arith, consistent-track_service, consistent-found_or_created_service, consistent-record_service,
  )

  consistent-reconcile_service :
      (cluster : Cluster) (s : ClusterState W)
      → consistent (reconcile_service_load_balancer r cluster s).1 ≡ consistent s
  unfolding reconcile_service_load_balancer
  consistent-reconcile_service cluster s = grind (arith, consistent-with_found_service)

  consistent-reconcile_services :
      (cluster : Cluster) (result : Outcome) (s : ClusterState W)
      → consistent (reconcile_services r cluster result s).1 ≡ consistent s
  unfolding reconcile_services is_consistent
  consistent-reconcile_services cluster result s =
      ground (arith, consistent-reconcile_service cluster s, consistent-withdraw cluster result s)

  consistent-set_given_endpoint :
      (endpoint : ApiEndpoint) (s : ClusterState W)
      → consistent s ≡ true
      → consistent (set_given_endpoint r endpoint s).1 ≡ true
  unfolding set_given_endpoint is_consistent set_failure_domains set_endpoint_ready
  consistent-set_given_endpoint endpoint s h = ground (arith, eq_refl s.vc.spec.location)

  -- A cluster that is served stays consistent whatever is set of its status.
  consistent-serve :
      (cluster : Cluster) (keys : Keys) (i : Instance) (s : ClusterState W)
      → is_up i ≡ true
      → consistent (serve_control_plane r cluster keys i s).1 ≡ true
  unfolding serve_control_plane update_load_balancer_backends is_consistent set_failure_domains
      set_endpoint_ready set_lb_not_ready is_up
  consistent-serve cluster keys i s h = ground (arith, eq_refl s.vc.spec.location)

  consistent-track :
      (cluster : Cluster) (keys : Keys) (i : Instance) (s : ClusterState W)
      → consistent s ≡ true
      → consistent (track_load_balancer r cluster keys i s).1 ≡ true
  unfolding track_load_balancer is_consistent set_lb_not_ready
  consistent-track cluster keys i s h = ground (arith, consistent-serve cluster keys i s)

  consistent-found_or_created :
      (cluster : Cluster) (keys : Keys) (found : Option Instance) (s : ClusterState W)
      → consistent (found_or_created r cluster keys found s).1 ≡ consistent s
  unfolding found_or_created create_load_balancer is_consistent set_lb_not_ready
  consistent-found_or_created cluster keys none s = ground arith
  consistent-found_or_created cluster keys (some i) s = refl

  consistent-record :
      (i : Instance) (vc : VerdaCluster)
      → is_consistent (edit_load_balancer (record_instance i) vc) ≡ is_consistent vc
  unfolding is_consistent
  consistent-record i vc = refl

  consistent-with_found :
      (cluster : Cluster) (keys : Keys) (found : Option Instance) (s : ClusterState W)
      → consistent s ≡ true
      → consistent (with_found r cluster keys found s).1 ≡ true
  unfolding with_found
  consistent-with_found cluster keys found s h =
      grind (arith, consistent-track, consistent-found_or_created, consistent-record)

  consistent-reconcile_load_balancer :
      (cluster : Cluster) (s : ClusterState W)
      → consistent s ≡ true
      → consistent (reconcile_load_balancer r cluster s).1 ≡ true
  unfolding reconcile_load_balancer
  consistent-reconcile_load_balancer cluster s h = grind (arith, consistent-with_found)

  consistent-reconcile_endpoint :
      (cluster : Cluster) (s : ClusterState W)
      → consistent s ≡ true
      → consistent (reconcile_endpoint r cluster s).1 ≡ true
  unfolding reconcile_endpoint is_consistent
  consistent-reconcile_endpoint cluster s h =
      grind (arith, consistent-reconcile_load_balancer cluster s, consistent-set_given_endpoint)

  -- reconcileNormal keeps this of a cluster: if it is provisioned, its endpoint has a host and a port
  -- other than 0, and its failure domains are the one of its location.
  pub reconcile_normal_cluster-consistent :
      (cluster : Cluster) (s : ClusterState W)
      → consistent s ≡ true
      → consistent (reconcile_normal_cluster r cluster s).1 ≡ true
  unfolding reconcile_normal_cluster
  reconcile_normal_cluster-consistent cluster s h =
      grind (arith, consistent-reconcile_endpoint cluster s, consistent-reconcile_services)
