-- ===== src/Cluster/Single.antt =====
-- reconcileNormal: a load balancer instance that is recorded is the only one.
use cluster_api_provider_ver.Cluster.Endpoint.{
  track_load_balancer, with_keys, with_found, update_load_balancer_backends, found_or_created,
  serve_control_plane, reconcile_load_balancer, set_given_endpoint, reconcile_endpoint,
}
use cluster_api_provider_ver.Cluster.ServiceLb.{
  find_instance_by_status_or_tag, find_service_load_balancer, find_tagged_live,
}
use cluster_api_provider_ver.Base.{◌≢◌, arith, some, eq_iff, refl, ◌≡◌, none, Option, ap}
use cluster_api_provider_ver.Cluster.Types.{ClusterScope, ClusterState}
use cluster_api_provider_ver.Platform.{Cluster}
use cluster_api_provider_ver.Cloud.{InstanceSpec, Instance}
use cluster_api_provider_ver.Base.Act.{Act, ok, Result, raise}
use cluster_api_provider_ver.Api.{VerdaCluster, load_balancer_enabled}
use cluster_api_provider_ver.Cluster.ControlPlane.{find_tagged, find_load_balancer}
use cluster_api_provider_ver.LoadBalancer.{Keys}
use cluster_api_provider_ver.Cluster.KeySecrets.{ensure_keys}
use cluster_api_provider_ver.Cluster.Helpers.{load_balancer_secret_name, on_world}
use cluster_api_provider_ver.Base.Outcomes.{handle-same, choose-same}

module _ {W : Type 0} where
  -- The same scope with another CreateInstance.
  abbrev pub with_create : ClusterScope W → (InstanceSpec → Act W Instance) → ClusterScope W
  with_create r create = record r { cloud = record r.cloud { create_instance = create } }

-- The instances of both load balancers are recorded.
abbrev pub BothRecorded : VerdaCluster → Type 0
BothRecorded vc =
    (vc.status.load_balancer.instance_id ≢ "") × (vc.status.service_load_balancer.instance_id ≢ "")

module _ {W : Type 0} (r : ClusterScope W) (create : InstanceSpec → Act W Instance) where
  recorded_found :
      (vc : VerdaCluster) (w : W)
      → vc.status.load_balancer.instance_id ≢ ""
      → (find_load_balancer r.cloud vc w).0 ≢ ok none
  unfolding find_load_balancer
  recorded_found vc w kept h = ground (arith, eq_iff vc.status.load_balancer.instance_id "")

  pub service_found :
      (vc : VerdaCluster) (w : W)
      → vc.status.service_load_balancer.instance_id ≢ ""
      → (find_service_load_balancer r.cloud vc w).0 ≢ ok none
  unfolding find_instance_by_status_or_tag
  service_found vc w kept h = ground (arith, eq_iff vc.status.service_load_balancer.instance_id "")

  with_found-with_create :
      (cluster : Cluster) (keys : Keys) (i : Instance) (s : ClusterState W)
      → with_found (with_create r create) cluster keys (some i) s
        ≡ with_found r cluster keys (some i) s
  unfolding with_found found_or_created track_load_balancer serve_control_plane
      update_load_balancer_backends
  with_found-with_create cluster keys i s = refl

  pub find-with_create :
      (vc : VerdaCluster) (w : W)
      → (find_load_balancer (with_create r create).cloud vc w ≡ find_load_balancer r.cloud vc w)
        × (find_service_load_balancer (with_create r create).cloud vc w
            ≡ find_service_load_balancer r.cloud vc w)
  unfolding find_load_balancer find_tagged find_instance_by_status_or_tag find_tagged_live
  find-with_create vc w = (refl, refl)

  found_case :
      (vc : VerdaCluster) (keys : Keys) (cluster : Cluster) (s : ClusterState W)
      → vc.status.load_balancer.instance_id ≢ ""
      → (found : Option Instance) (t : ClusterState W)
      → on_world (find_load_balancer r.cloud vc) s ≡ (ok found, t)
      → with_found (with_create r create) cluster keys found t ≡ with_found r cluster keys found t
  found_case vc keys cluster s kept (some i) t p = with_found-with_create cluster keys i t
  found_case vc keys cluster s kept none t p =
      absurd (recorded_found vc s.world kept (ap (λ x. x.0) p))

  with_keys-with_create :
      (cluster : Cluster) (vc : VerdaCluster) (keys : Keys) (s : ClusterState W)
      → vc.status.load_balancer.instance_id ≢ ""
      → with_keys (with_create r create) cluster vc keys s ≡ with_keys r cluster vc keys s
  with_keys-with_create cluster vc keys s kept =
      handle-same raise (with_found (with_create r create) cluster keys) (with_found r cluster keys)
        (on_world (find_load_balancer (with_create r create).cloud vc))
        (on_world (find_load_balancer r.cloud vc)) s
        (ap (λ (x : Result (Option Instance) × W). (x.0, record s { world = x.1 }))
          (find-with_create vc s.world).0)
        (found_case vc keys cluster s kept)

  load_balancer-with_create :
      (cluster : Cluster) (s : ClusterState W)
      → s.vc.status.load_balancer.instance_id ≢ ""
      → reconcile_load_balancer (with_create r create) cluster s
        ≡ reconcile_load_balancer r cluster s
  unfolding reconcile_load_balancer
  load_balancer-with_create cluster s kept =
      let make =
        on_world (ensure_keys r.reconciler cluster s.vc (load_balancer_secret_name s.vc)) in
      handle-same raise (with_keys (with_create r create) cluster s.vc) (with_keys r cluster s.vc)
        make make s refl λ keys t p. with_keys-with_create cluster s.vc keys t kept

  pub endpoint-with_create :
      (cluster : Cluster) (s : ClusterState W)
      → s.vc.status.load_balancer.instance_id ≢ ""
      → reconcile_endpoint (with_create r create) cluster s ≡ reconcile_endpoint r cluster s
  unfolding reconcile_endpoint set_given_endpoint
  endpoint-with_create cluster s kept =
      choose-same (load_balancer_enabled s.vc) _ _ _ _ s (load_balancer-with_create cluster s kept)
        refl
