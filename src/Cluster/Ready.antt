-- ===== src/Cluster/Ready.antt =====
-- patchVerdaCluster: when a cluster is ready.
use cluster_api_provider_ver.Api.{
  control_plane_endpoint_ready_condition, load_balancer_enabled, VerdaCluster,
  load_balancer_ready_condition,
}
use cluster_api_provider_ver.Base.{arith, not, if◌then◌else◌, ◌||◌, ◌&&◌, String, ◌==◌, ◌≡◌}
use cluster_api_provider_ver.Cluster.Reconcile.{
  summarize_cluster, cluster_ready_of, is_deleting_cluster,
}
use cluster_api_provider_ver.Platform.{IsLawful}
use cluster_api_provider_ver.Cluster.Types.{ClusterReconciler}

module _ {W : Type 0} (k : ClusterReconciler W) (lawful : IsLawful k.lib) where
  -- The object that is patched is Ready exactly where the cluster is not being deleted, its endpoint
  -- is ready, and its load balancer is ready or switched off; the other conditions are kept.
  pub summarize_cluster-ready :
      (vc : VerdaCluster) (t : String)
      → k.lib.is_true (summarize_cluster k vc).status.conditions t ≡ (
          if k.lib.ready_condition == t
          then not (is_deleting_cluster vc)
            && k.lib.is_true vc.status.conditions control_plane_endpoint_ready_condition
            && (not (load_balancer_enabled vc)
                || k.lib.is_true vc.status.conditions load_balancer_ready_condition)
          else k.lib.is_true vc.status.conditions t)
  unfolding summarize_cluster cluster_ready_of
  summarize_cluster-ready vc t =
      ground (arith, lawful.is_true-set_condition vc.status.conditions (cluster_ready_of k vc) t)
