-- ===== src/Cluster/Teardown.antt =====
-- reconcileDelete: what has happened when the cluster's finalizer goes.
use cluster_api_provider_ver.Base.Act.{err, ok, Act, Result}
use cluster_api_provider_ver.Cluster.Deletion.{
  release_service_load_balancer, cluster_request_due, delete_found_service, delete_control_plane,
  purge_gone, delete_service_load_balancer, request_deletion, reconcile_delete_cluster,
  delete_service_script, delete_found_cluster, delete_control_plane_script, release_cluster,
}
use cluster_api_provider_ver.Base.{
  true, none, arith, false, refl, some, Bool, ◌⊎◌, List, Option, inr, inl, ◌≡◌, String, ◌≢◌,
}
use cluster_api_provider_ver.Cluster.Helpers.{set_lb_not_ready, set_service_lb_not_ready}
use cluster_api_provider_ver.Cluster.Types.{ClusterScope, ClusterState}
use cluster_api_provider_ver.Cloud.{Instance}
use cluster_api_provider_ver.Platform.{done, Library}
use cluster_api_provider_ver.Cluster.ServiceLb.{find_service_load_balancer}
use cluster_api_provider_ver.Machine.Teardown.{is_live}
use cluster_api_provider_ver.Cluster.ControlPlane.{find_load_balancer}
use cluster_api_provider_ver.Machine.{delete_request_due}

module _ {W : Type 0} where
  abbrev pub finalizers : ClusterState W → List String
  finalizers s = s.vc.metadata.finalizers

  -- An instance that was looked up is gone, and Verda holds none of its volumes back.
  abbrev pub IsReleased : ClusterScope W → Act W (Option Instance) → W → Type 0
  IsReleased r find w =
      (found : Option Instance) × (w' : W) × (find w ≡ (ok found, w'))
      × (is_live found ≡ false)
      × ((purge_gone r found w').0 ≡ ok 0)

outcome_cases : (x : Result Bool) → (x ≡ ok false) ⊎ (x ≢ ok false)
outcome_cases (ok false) = inl refl
outcome_cases (ok true) = inr (λ p. cc)
outcome_cases (err e) = inr (λ p. cc)

module _ {W : Type 0} (r : ClusterScope W) where
  finalizers-request_deletion :
      (suffix : String) (l : Library) (what : String) (i : Instance) (s : ClusterState W)
      → (finalizers (request_deletion r suffix (set_service_lb_not_ready l) what i s).1
          ≡ finalizers s)
        × (finalizers (request_deletion r suffix (set_lb_not_ready l) what i s).1 ≡ finalizers s)
  unfolding request_deletion cluster_request_due delete_request_due set_service_lb_not_ready
      set_lb_not_ready
  finalizers-request_deletion suffix l what i s = (ground arith, ground arith)

  finalizers-delete_service_script :
      (s : ClusterState W) → finalizers (delete_service_script r s).1 ≡ finalizers s
  unfolding delete_service_script
  finalizers-delete_service_script s = ground arith

  finalizers-delete_control_plane_script :
      (s : ClusterState W) → finalizers (delete_control_plane_script r s).1 ≡ finalizers s
  unfolding delete_control_plane_script
  finalizers-delete_control_plane_script s = ground arith

  finalizers-release_service :
      (found : Option Instance) (s : ClusterState W)
      → finalizers (release_service_load_balancer r found s).1 ≡ finalizers s
  unfolding release_service_load_balancer
  finalizers-release_service found s = ground (
    arith,
    finalizers-delete_service_script (record s { world = (purge_gone r found s.world).1 }),
  )

  finalizers-delete_found_service :
      (found : Option Instance) (s : ClusterState W)
      → finalizers (delete_found_service r found s).1 ≡ finalizers s
  unfolding delete_found_service
  finalizers-delete_found_service none s = finalizers-release_service none s
  finalizers-delete_found_service (some i) s = ground (
    arith,
    finalizers-release_service (some i) s,
    finalizers-request_deletion "servicelb" r.reconciler.lib "service load balancer instance " i s,
  )

  finalizers-delete_service :
      (s : ClusterState W) → finalizers (delete_service_load_balancer r s).1 ≡ finalizers s
  unfolding delete_service_load_balancer
  finalizers-delete_service s = grind (arith, finalizers-delete_found_service)

  release_cluster_cases :
      (found : Option Instance) (s : ClusterState W)
      → finalizers (release_cluster r found s).1 ≢ finalizers s
      → ((release_cluster r found s).0 ≡ ok done) × ((purge_gone r found s.world).0 ≡ ok 0)
  unfolding release_cluster
  release_cluster_cases found s h = ground (
    arith,
    finalizers-delete_control_plane_script (record s { world = (purge_gone r found s.world).1 }),
  )

  delete_found_cluster_cases :
      (found : Option Instance) (s : ClusterState W)
      → finalizers (delete_found_cluster r found s).1 ≢ finalizers s
      → (is_live found ≡ false)
        × ((purge_gone r found s.world).0 ≡ ok 0)
        × ((delete_found_cluster r found s).0 ≡ ok done)
  unfolding delete_found_cluster
  delete_found_cluster_cases none s h = ground (arith, release_cluster_cases none s)
  delete_found_cluster_cases (some i) s h = ground (
    arith,
    release_cluster_cases (some i) s,
    finalizers-request_deletion "lb" r.reconciler.lib "load balancer instance " i s,
  )

  control_plane-IsReleased :
      (s : ClusterState W) (x : Result (Option Instance) × W)
      → find_load_balancer r.cloud s.vc s.world ≡ x
      → finalizers (delete_control_plane r s).1 ≢ finalizers s
      → IsReleased r (find_load_balancer r.cloud s.vc) s.world
        × ((delete_control_plane r s).0 ≡ ok done)
  unfolding delete_control_plane
  control_plane-IsReleased s (err e, w) p h = absurd (h (ground arith))
  control_plane-IsReleased s (ok found, w) p h =
      let t : ClusterState W = record s { world = w } in
      (
        (
          found,
          w,
          p,
          ground (arith, delete_found_cluster_cases found t),
          ground (arith, delete_found_cluster_cases found t),
        ),
        ground (arith, delete_found_cluster_cases found t),
      )

  -- The service load balancer's deletion is over only where its instance is gone.
  release_service_done :
      (found : Option Instance) (s : ClusterState W)
      → (release_service_load_balancer r found s).0 ≡ ok false
      → (purge_gone r found s.world).0 ≡ ok 0
  unfolding release_service_load_balancer
  release_service_done found s h = ground arith

  service-IsReleased :
      (s : ClusterState W) (x : Result (Option Instance) × W)
      → find_service_load_balancer r.cloud s.vc s.world ≡ x
      → (delete_service_load_balancer r s).0 ≡ ok false
      → IsReleased r (find_service_load_balancer r.cloud s.vc) s.world
  unfolding delete_service_load_balancer delete_found_service
  service-IsReleased s (err e, w) p h = ground arith
  service-IsReleased s (ok none, w) p h =
      (none, w, p, refl, ground (arith, release_service_done none (record s { world = w })))
  service-IsReleased s (ok (some i), w) p h = (
    some i,
    w,
    p,
    ground arith,
    ground (arith, release_service_done (some i) (record s { world = w })),
  )

  -- When reconcileDelete changes the finalizers of the cluster, both load balancers are released: the
  -- lookup of the service load balancer's instance, and after its deletion that of the control
  -- plane's, found none, or one that is gone, of which Verda holds no volume back; and the
  -- reconciliation ended without an error and asks for no requeue.
  pub cluster_finalizer_removal :
      (s : ClusterState W)
      → finalizers (reconcile_delete_cluster r s).1 ≢ finalizers s
      → let t = (delete_service_load_balancer r s).1 in
        IsReleased r (find_service_load_balancer r.cloud s.vc) s.world
        × IsReleased r (find_load_balancer r.cloud t.vc) t.world
        × ((reconcile_delete_cluster r s).0 ≡ ok done)
  unfolding reconcile_delete_cluster
  cluster_finalizer_removal s h = elim (outcome_cases (delete_service_load_balancer r s).0) [
    | inl e ↦
        let t = (delete_service_load_balancer r s).1 in
        let rest =
          control_plane-IsReleased t (find_load_balancer r.cloud t.vc t.world) refl
            (ground (arith, finalizers-delete_service s)) in
        (
          service-IsReleased s (find_service_load_balancer r.cloud s.vc s.world) refl e,
          rest.0,
          ground arith,
        )
    | inr other ↦ absurd (h (ground (arith, finalizers-delete_service s)))
  ]
