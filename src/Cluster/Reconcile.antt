-- ===== src/Cluster/Reconcile.antt =====
-- reconcileNormal, and Reconcile and reconcileOrphanDelete with the deferred patch.
use cluster_api_provider_ver.Cluster.Deletion.{
  delete_service_load_balancer, reconcile_delete_cluster,
}
use cluster_api_provider_ver.Base.Act.{pure, raise, Result, handle, ◌>>◌, Act, ◌>>=◌, err, ok}
use cluster_api_provider_ver.Base.Error.{kube_not_found, error_text, Error}
use cluster_api_provider_ver.Api.{
  ObjectMeta, VerdaCluster, service_load_balancer_enabled, LoadBalancerStatus,
  control_plane_endpoint_ready_condition, identity_secret_name, load_balancer_enabled, Condition,
  service_load_balancer_ready_condition, load_balancer_ready_condition, cluster_finalizer,
}
use cluster_api_provider_ver.Machine.{delete_poll_interval, join_errors}
use cluster_api_provider_ver.Base.{
  not, if◌then◌else◌, false, String, [], ◌&&◌, List, Bool, some, Option, nat_eq, ltb, ◌==◌, none,
  ◌||◌, true, ◌∷◌,
}
use cluster_api_provider_ver.Cluster.ServiceLb.{
  reconcile_service_load_balancer, remove_service_load_balancer_secret,
}
use cluster_api_provider_ver.Platform.{requeue, Cluster, done, Outcome}
use cluster_api_provider_ver.Cluster.Helpers.{
  edit_cluster, current, on_world, not_ready, edit_service_load_balancer, ready, with_condition,
  lb_poll_interval, verda_cluster_kind, without_condition,
}
use cluster_api_provider_ver.Cluster.Types.{ClusterReconciler, ClusterScope, ClusterState}
use cluster_api_provider_ver.Cloud.Factory.{Identity}
use cluster_api_provider_ver.Cloud.{Client}
use cluster_api_provider_ver.Base.Dict.{lookup}
use cluster_api_provider_ver.Cluster.Endpoint.{reconcile_endpoint}

abbrev no_load_balancer : LoadBalancerStatus
no_load_balancer = record {
  instance_id = "";
  startup_script_id = "";
  address = "";
  backends = [];
  secret_published = none;
}

abbrev pub has_service_load_balancer : VerdaCluster → Bool
has_service_load_balancer vc =
    not (vc.status.service_load_balancer.instance_id == "")
    || not (vc.status.service_load_balancer.address == "")

-- The interval of the endpoint's result, or the poll interval where that is sooner.
unfoldable pub poll_sooner : Bool → Outcome → Outcome
poll_sooner again result =
    if again && (nat_eq result.requeue_after 0 || ltb lb_poll_interval result.requeue_after)
    then requeue lb_poll_interval
    else result

module _ {W : Type 0} (r : ClusterScope W) where
  abbrev without_service_condition : VerdaCluster → VerdaCluster
  without_service_condition =
      without_condition r.reconciler.lib service_load_balancer_ready_condition

  -- The service load balancer is switched off: what there is of one is deleted.
  unfoldable pub withdraw_service_load_balancer : Cluster → Outcome → Act (ClusterState W) Outcome
  withdraw_service_load_balancer cluster result = do
    again ← delete_service_load_balancer r
    if again then pure (requeue delete_poll_interval) else (do
      on_world (remove_service_load_balancer_secret r.reconciler cluster)
      edit_cluster (edit_service_load_balancer (λ _. no_load_balancer))
      edit_cluster without_service_condition
      pure result)

  unfoldable pub reconcile_services : Cluster → Outcome → Act (ClusterState W) Outcome
  reconcile_services cluster result = do
    vc ← current
    if service_load_balancer_enabled vc
        then (reconcile_service_load_balancer r cluster >>= λ again.
            pure (poll_sooner again result))
        else if has_service_load_balancer vc
        then withdraw_service_load_balancer cluster result
        else (edit_cluster without_service_condition >> pure result)

  unfoldable pub reconcile_normal_cluster : Cluster → Act (ClusterState W) Outcome
  reconcile_normal_cluster cluster = reconcile_endpoint r cluster >>= reconcile_services cluster

abbrev pub is_deleting_cluster : VerdaCluster → Bool
is_deleting_cluster vc = elim vc.metadata.deletion_timestamp [ none ↦ false | some _ ↦ true ]

module _ {W : Type 0} (k : ClusterReconciler W) where
  abbrev unready_for : String → String → Condition
  unready_for reason message = record {
    kind = k.lib.ready_condition;
    status = false;
    reason = reason;
    message = message;
  }

  -- The Ready condition that patchVerdaCluster derives.
  unfoldable pub cluster_ready_of : VerdaCluster → Condition
  cluster_ready_of vc =
      let is_true = k.lib.is_true vc.status.conditions in
      let message = k.lib.get_message vc.status.conditions in
      if is_deleting_cluster vc
      then unready_for k.lib.deleting_reason ""
      else if not (is_true control_plane_endpoint_ready_condition)
      then unready_for k.lib.not_ready_reason (message control_plane_endpoint_ready_condition)
      else if load_balancer_enabled vc && not (is_true load_balancer_ready_condition)
      then unready_for k.lib.not_ready_reason (message load_balancer_ready_condition)
      else ready k.lib k.lib.ready_condition

  unfoldable pub summarize_cluster : VerdaCluster → VerdaCluster
  summarize_cluster vc = with_condition k.lib (cluster_ready_of vc) vc

  -- The deferred call: the object is patched whatever the body returned, and the errors are joined.
  unfoldable pub with_cluster_patch : VerdaCluster → Act (ClusterState W) Outcome → Act W Outcome
  with_cluster_patch vc body w =
      let (r, s) = body (record { vc = vc; world = w }) in
      let (p, w') = k.patch vc (summarize_cluster s.vc) s.world in (join_errors r p, w')

  abbrev identity_of : VerdaCluster → Identity
  identity_of vc = record {
    namespace = vc.metadata.namespace;
    secret_name = identity_secret_name vc;
  }

  unfoldable pub reconcile_orphan_cluster : VerdaCluster → Act W Outcome
  reconcile_orphan_cluster vc = do
    k.new_patch_helper vc
    with_cluster_patch vc (
        on_world (k.client_for (identity_of vc)) >>= λ cloud.
        reconcile_delete_cluster (record { reconciler = k; cloud = cloud }))

  abbrev no_cluster_credentials : Error → Act (ClusterState W) (Client W)
  no_cluster_credentials e =
      edit_cluster (
        with_condition k.lib (
          not_ready k.lib control_plane_endpoint_ready_condition "CredentialsUnavailable"
            (error_text e)))
      >> raise e

  abbrev run_cluster_scope : Cluster → Bool → Client W → Act (ClusterState W) Outcome
  run_cluster_scope cluster true cloud =
      reconcile_delete_cluster (record { reconciler = k; cloud = cloud })
  run_cluster_scope cluster false cloud =
      reconcile_normal_cluster (record { reconciler = k; cloud = cloud }) cluster

  unfoldable pub reconcile_owned_cluster : VerdaCluster → Cluster → Act W Outcome
  reconcile_owned_cluster vc cluster = do
    paused ← k.ensure_paused_condition cluster vc
    if paused.0 || paused.1 then pure done else (do
      k.new_patch_helper vc
      with_cluster_patch vc (
          handle (on_world (k.client_for (identity_of vc))) no_cluster_credentials pure
          >>= run_cluster_scope cluster (is_deleting_cluster vc)))

  abbrev reconcile_cluster_of : VerdaCluster → Option Cluster → Act W Outcome
  reconcile_cluster_of vc (some cluster) = reconcile_owned_cluster vc cluster
  reconcile_cluster_of vc none =
      if is_deleting_cluster vc then reconcile_orphan_cluster vc else pure done

  unfoldable pub reconcile_found_cluster : VerdaCluster → Act W Outcome
  reconcile_found_cluster vc = do
    added ← k.ensure_finalizer vc cluster_finalizer
    if added
        then pure done
        else (do owner ← k.get_owner_cluster vc.metadata; reconcile_cluster_of vc owner)

  unfoldable pub reconcile_cluster : String → String → Act W Outcome
  reconcile_cluster namespace name =
      handle (k.get_verda_cluster namespace name)
        (λ e. if kube_not_found e then pure done else raise e) reconcile_found_cluster

  abbrev requests_of : Result Cluster → List (String × String)
  requests_of (err _) = []
  requests_of (ok cluster) =
      if cluster.infrastructure_ref_kind == verda_cluster_kind
      then (cluster.namespace, cluster.infrastructure_ref_name) ∷ []
      else []

  -- verdaMachineToVerdaCluster: the namespace and name to reconcile. A reference of that kind is
  -- defined.
  unfoldable pub verda_machine_to_verda_cluster : ObjectMeta → W → List (String × String) × W
  verda_machine_to_verda_cluster o w = elim (lookup k.cluster_name_label o.labels) [
    | none ↦ ([], w)
    | some name ↦ let (r, w') = k.get_cluster o.namespace name w in (requests_of r, w')
  ]
