-- ===== src/Cluster/Recorded.antt =====
-- reconcileNormal with both load balancers recorded: the services' part, and the whole.
use cluster_api_provider_ver.Cluster.Endpoint.{
  with_found, create_load_balancer, set_given_endpoint, serve_control_plane, found_or_created,
  reconcile_endpoint, update_load_balancer_backends, track_load_balancer, reconcile_load_balancer,
}
use cluster_api_provider_ver.Base.{Option, String, arith, ◌≢◌, ap, some, none, refl, ◌≡◌, ◌∙◌, sym}
use cluster_api_provider_ver.Cluster.Single.{
  BothRecorded, service_found, find-with_create, endpoint-with_create, with_create,
}
use cluster_api_provider_ver.Cluster.ServiceLb.{
  found_or_created_service, find_tagged_live, find_service_load_balancer, publish_address,
  find_instance_by_status_or_tag, reconcile_service_load_balancer, with_found_service,
  track_service_load_balancer, with_service_keys,
}
use cluster_api_provider_ver.Cluster.Deletion.{
  cluster_request_due, purge_gone, delete_service_script, request_deletion,
  release_service_load_balancer, delete_found_service, delete_service_load_balancer,
}
use cluster_api_provider_ver.Cloud.{InstanceSpec, Instance}
use cluster_api_provider_ver.Base.Act.{raise, Result, pure, Act, ok}
use cluster_api_provider_ver.Cluster.Helpers.{
  set_failure_domains, set_endpoint_ready, on_world, set_lb_not_ready,
  service_load_balancer_secret_name_of, edit_load_balancer, record_instance,
}
use cluster_api_provider_ver.Base.Outcomes.{outcome_of, choose-same, handle-same}
use cluster_api_provider_ver.Cluster.Reconcile.{
  reconcile_normal_cluster, poll_sooner, has_service_load_balancer, withdraw_service_load_balancer,
  reconcile_services,
}
use cluster_api_provider_ver.Cluster.KeySecrets.{ensure_keys}
use cluster_api_provider_ver.Api.{service_load_balancer_enabled, VerdaCluster}
use cluster_api_provider_ver.Cluster.Types.{ClusterScope, ClusterState}
use cluster_api_provider_ver.LoadBalancer.{Keys}
use cluster_api_provider_ver.Platform.{Cluster, Outcome}

module _ {W : Type 0} (r : ClusterScope W) (create : InstanceSpec → Act W Instance) where
  with_found_service-with_create :
      (cluster : Cluster) (keys : Keys) (i : Instance) (s : ClusterState W)
      → with_found_service (with_create r create) cluster keys (some i) s
        ≡ with_found_service r cluster keys (some i) s
  unfolding with_found_service found_or_created_service track_service_load_balancer publish_address
  with_found_service-with_create cluster keys i s = refl

  found_service_case :
      (vc : VerdaCluster) (keys : Keys) (cluster : Cluster) (s : ClusterState W)
      → vc.status.service_load_balancer.instance_id ≢ ""
      → (found : Option Instance) (t : ClusterState W)
      → on_world (find_service_load_balancer r.cloud vc) s ≡ (ok found, t)
      → with_found_service (with_create r create) cluster keys found t
        ≡ with_found_service r cluster keys found t
  found_service_case vc keys cluster s kept (some i) t p =
      with_found_service-with_create cluster keys i t
  found_service_case vc keys cluster s kept none t p =
      absurd (service_found r create vc s.world kept (ap (λ x. x.0) p))

  with_service_keys-with_create :
      (cluster : Cluster) (vc : VerdaCluster) (keys : Keys) (s : ClusterState W)
      → vc.status.service_load_balancer.instance_id ≢ ""
      → with_service_keys (with_create r create) cluster vc keys s
        ≡ with_service_keys r cluster vc keys s
  with_service_keys-with_create cluster vc keys s kept =
      handle-same raise (with_found_service (with_create r create) cluster keys)
        (with_found_service r cluster keys)
        (on_world (find_service_load_balancer (with_create r create).cloud vc))
        (on_world (find_service_load_balancer r.cloud vc)) s
        (ap (λ (x : Result (Option Instance) × W). (x.0, record s { world = x.1 }))
          (find-with_create r create vc s.world).1)
        (found_service_case vc keys cluster s kept)

  service-with_create :
      (cluster : Cluster) (s : ClusterState W)
      → s.vc.status.service_load_balancer.instance_id ≢ ""
      → reconcile_service_load_balancer (with_create r create) cluster s
        ≡ reconcile_service_load_balancer r cluster s
  unfolding reconcile_service_load_balancer
  service-with_create cluster s kept =
      let make =
        on_world
          (ensure_keys r.reconciler cluster s.vc (service_load_balancer_secret_name_of s.vc)) in
      handle-same raise (with_service_keys (with_create r create) cluster s.vc)
        (with_service_keys r cluster s.vc) make make s refl
        λ keys t p. with_service_keys-with_create cluster s.vc keys t kept

  withdraw-with_create :
      (cluster : Cluster) (result : Outcome) (s : ClusterState W)
      → withdraw_service_load_balancer (with_create r create) cluster result s
        ≡ withdraw_service_load_balancer r cluster result s
  unfolding withdraw_service_load_balancer delete_service_load_balancer
      find_instance_by_status_or_tag find_tagged_live delete_found_service request_deletion
      cluster_request_due release_service_load_balancer purge_gone delete_service_script
  withdraw-with_create cluster result s = refl

  services-with_create :
      (cluster : Cluster) (result : Outcome) (s : ClusterState W)
      → s.vc.status.service_load_balancer.instance_id ≢ ""
      → reconcile_services (with_create r create) cluster result s
        ≡ reconcile_services r cluster result s
  unfolding reconcile_services
  services-with_create cluster result s kept =
      choose-same (service_load_balancer_enabled s.vc) _ _ _ _ s
        (ap (outcome_of raise (λ again. pure (poll_sooner again result)))
          (service-with_create cluster s kept))
        (choose-same (has_service_load_balancer s.vc) _ _ _ _ s
          (withdraw-with_create cluster result s) refl)

module _ {W : Type 0} (r : ClusterScope W) where
  abbrev service_id : ClusterState W → String
  service_id s = s.vc.status.service_load_balancer.instance_id

  service_id-serve :
      (cluster : Cluster) (keys : Keys) (i : Instance) (s : ClusterState W)
      → service_id (serve_control_plane r cluster keys i s).1 ≡ service_id s
  unfolding serve_control_plane update_load_balancer_backends set_failure_domains set_endpoint_ready
      set_lb_not_ready
  service_id-serve cluster keys i s = ground arith

  service_id-track :
      (cluster : Cluster) (keys : Keys) (i : Instance) (s : ClusterState W)
      → service_id (track_load_balancer r cluster keys i s).1 ≡ service_id s
  unfolding track_load_balancer set_lb_not_ready
  service_id-track cluster keys i s = ground (arith, service_id-serve cluster keys i s)

  service_id-with_found :
      (cluster : Cluster) (keys : Keys) (found : Option Instance) (s : ClusterState W)
      → service_id (with_found r cluster keys found s).1 ≡ service_id s
  unfolding with_found found_or_created create_load_balancer set_lb_not_ready
  service_id-with_found cluster keys none s = grind (arith, service_id-track)
  service_id-with_found cluster keys (some i) s =
      service_id-track cluster keys i
        (record s { vc = edit_load_balancer (record_instance i) s.vc })

  service_id-endpoint :
      (cluster : Cluster) (s : ClusterState W)
      → service_id (reconcile_endpoint r cluster s).1 ≡ service_id s
  unfolding reconcile_endpoint reconcile_load_balancer set_given_endpoint set_failure_domains
      set_endpoint_ready
  service_id-endpoint cluster s = grind (arith, service_id-with_found)

  -- Where the instances of both load balancers are recorded, reconcileNormal does not depend on
  -- CreateInstance: with any other in its place, the result, the object and the world are the same.
  pub never_created_again :
      (create : InstanceSpec → Act W Instance) (cluster : Cluster) (s : ClusterState W)
      → BothRecorded s.vc
      → reconcile_normal_cluster (with_create r create) cluster s
        ≡ reconcile_normal_cluster r cluster s
  unfolding reconcile_normal_cluster
  never_created_again create cluster s kept =
      handle-same raise (reconcile_services (with_create r create) cluster)
        (reconcile_services r cluster) (reconcile_endpoint (with_create r create) cluster)
        (reconcile_endpoint r cluster) s (endpoint-with_create r create cluster s kept.0)
        λ result t p.
          services-with_create r create cluster result t
            (λ e. kept.1 (sym (service_id-endpoint cluster s) ∙ ap (λ x. service_id x.1) p ∙ e))
