-- ===== src/Cluster/Stale.antt =====
-- reconcileLoadBalancer with the instance of an earlier cluster of the same name.
use cluster_api_provider_ver.Cluster.KeySecrets.{ensure_keys}
use cluster_api_provider_ver.Platform.{done, Cluster}
use cluster_api_provider_ver.Cluster.Helpers.{
  cluster_tag_value, load_balancer_secret_name, is_up, edit_load_balancer, is_terminal,
  set_lb_not_ready, record_instance, on_world,
}
use cluster_api_provider_ver.LoadBalancer.{Keys}
use cluster_api_provider_ver.Cloud.{
  tag_load_balancer, status_discontinued, status_running, status_not_found, Instance,
  status_deleted,
}
use cluster_api_provider_ver.Base.{
  true, ◌≡◌, false, arith, eq_iff, inl, inr, some, ◌==◌, ◌≢◌, Bool-cases, ◌||◌, ap, String, ◌∙◌,
  Option,
}
use cluster_api_provider_ver.Cluster.Types.{ClusterState, ClusterScope}
use cluster_api_provider_ver.Cluster.Endpoint.{
  found_or_created, reconcile_load_balancer, track_load_balancer, with_keys, with_found,
}
use cluster_api_provider_ver.Cluster.ControlPlane.{find_load_balancer, find_tagged}
use cluster_api_provider_ver.Base.Act.{ok, Result, raise}
use cluster_api_provider_ver.Machine.{instance_gone}
use cluster_api_provider_ver.Api.{VerdaCluster, LoadBalancerStatus}
use cluster_api_provider_ver.Base.Outcomes.{handle-ok}

running_is_not_gone : (i : Instance) → i.status ≡ status_running → instance_gone i ≢ true
unfolding instance_gone
running_is_not_gone i e h =
    let literal =
      ap (λ (t : String). t == status_not_found || t == status_discontinued || t == status_deleted)
        e in
    ground (arith, literal)

gone-is_up : (i : Instance) → instance_gone i ≡ true → is_up i ≡ false
unfolding instance_gone is_up
gone-is_up i h = elim (Bool-cases (i.status == status_running)) [
  | inl e ↦ absurd (running_is_not_gone i (ground (arith, eq_iff i.status status_running)) h)
  | inr e ↦ ground arith
]

module _ {W : Type 0} (r : ClusterScope W) where
  stops_at_gone :
      (cluster : Cluster) (keys : Keys) (i : Instance) (s : ClusterState W)
      → instance_gone i ≡ true
      → ((track_load_balancer r cluster keys i s).0 ≡ ok done)
        × ((track_load_balancer r cluster keys i s).1.world ≡ s.world)
        × ((track_load_balancer r cluster keys i s).1.vc.status.load_balancer.instance_id
            ≡ s.vc.status.load_balancer.instance_id)
  unfolding track_load_balancer is_terminal set_lb_not_ready
  stops_at_gone cluster keys i s h = (
    ground (arith, gone-is_up i h),
    ground (arith, gone-is_up i h),
    ground (arith, gone-is_up i h),
  )

  tagged_found :
      (vc : VerdaCluster) (i : Instance) (w w' : W)
      → vc.status.load_balancer.instance_id ≡ ""
      → r.cloud.find_instance_by_tag tag_load_balancer (cluster_tag_value vc) w ≡ (ok i, w')
      → find_load_balancer r.cloud vc w ≡ (ok (some i), w')
  unfolding find_load_balancer find_tagged
  tagged_found vc i w w' fresh tagged =
      ground (arith, eq_iff vc.status.load_balancer.instance_id "")

  tracks_found :
      (cluster : Cluster) (s : ClusterState W) (keys : Keys) (i : Instance) (w w' : W)
      → ensure_keys r.reconciler cluster s.vc (load_balancer_secret_name s.vc) s.world
        ≡ (ok keys, w)
      → find_load_balancer r.cloud s.vc w ≡ (ok (some i), w')
      → reconcile_load_balancer r cluster s
        ≡ track_load_balancer r cluster keys i
            (record { vc = edit_load_balancer (record_instance i) s.vc; world = w' })
  unfolding reconcile_load_balancer with_found found_or_created
  tracks_found cluster s keys i w w' got found =
      let vc = s.vc in
      let s₁ : ClusterState W = record { vc = vc; world = w } in
      let s₂ : ClusterState W = record { vc = vc; world = w' } in
      handle-ok (on_world (ensure_keys r.reconciler cluster vc (load_balancer_secret_name vc)))
        raise (with_keys r cluster vc) s keys s₁
        (ap (λ (x : Result Keys × W). (x.0, record s { world = x.1 })) got)
      ∙ handle-ok (on_world (find_load_balancer r.cloud vc)) raise (with_found r cluster keys) s₁
          (some i) s₂
          (ap (λ (x : Result (Option Instance) × W). (x.0, record s { world = x.1 })) found)

  id-record_instance :
      (i : Instance) (status : LoadBalancerStatus) → (record_instance i status).instance_id ≡ i.id
  id-record_instance i status = ground arith

  -- Where a cluster has no load balancer instance recorded, has its keys, and the search by its tag
  -- finds an instance that is gone, reconcileLoadBalancer records that instance and ends without an
  -- error or a requeue; nothing is called after the search, so no instance is created.
  pub gone_instance_adopted :
      (cluster : Cluster) (s : ClusterState W) (keys : Keys) (i : Instance) (w w' : W)
      → s.vc.status.load_balancer.instance_id ≡ ""
      → ensure_keys r.reconciler cluster s.vc (load_balancer_secret_name s.vc) s.world
        ≡ (ok keys, w)
      → r.cloud.find_instance_by_tag tag_load_balancer (cluster_tag_value s.vc) w ≡ (ok i, w')
      → instance_gone i ≡ true
      → ((reconcile_load_balancer r cluster s).0 ≡ ok done)
        × ((reconcile_load_balancer r cluster s).1.world ≡ w')
        × ((reconcile_load_balancer r cluster s).1.vc.status.load_balancer.instance_id ≡ i.id)
  gone_instance_adopted cluster s keys i w w' fresh got tagged gone =
      let t : ClusterState W = record {
        vc = edit_load_balancer (record_instance i) s.vc;
        world = w';
      } in
      let step = tracks_found cluster s keys i w w' got (tagged_found s.vc i w w' fresh tagged) in
      let stops = stops_at_gone cluster keys i t gone in
      rw step (stops.0, stops.1, stops.2 ∙ id-record_instance i s.vc.status.load_balancer)
