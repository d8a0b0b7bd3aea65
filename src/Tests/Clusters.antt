-- ===== src/Tests/Clusters.antt =====
-- The reconciler of clusters, over the in-memory cloud.
use cluster_api_provider_ver.Cloud.Fake
use cluster_api_provider_ver.Base.Text.{to_lower}
use cluster_api_provider_ver.Base.Dict.{Dict, erase, get_text, lookup-insert, lookup, insert}
use cluster_api_provider_ver.Cluster.Teardown.{IsReleased, cluster_finalizer_removal, finalizers}
use cluster_api_provider_ver.Cloud.Fake.{Fake, fake_client, new_fake}
use cluster_api_provider_ver.Base.Act.{pure, ok, Result, raise, err, Act}
use cluster_api_provider_ver.Cluster.{
  ClusterScope, found_or_created, delete_control_plane_script, serve_control_plane,
  reconcile_normal_cluster, is_up, set_endpoint_ready, set_failure_domains, find_tagged,
  delete_service_script, release_cluster, publish_to, track_load_balancer, collect_addresses,
  reconcile_delete_cluster, reconcile_endpoint, find_instance_by_status_or_tag,
  control_plane_addresses, keys_from_secret, with_found, find_tagged_live, reconcile_load_balancer,
  ClusterReconciler, delete_service_load_balancer, delete_found_cluster, delete_found_service,
  ensure_keys, find_load_balancer, ClusterState, release_service_load_balancer, WorkloadClient,
  purge_gone, cluster_tag_value, delete_control_plane, reconcile_services, published_contents,
  find_service_load_balancer, store_keys, key_secret, summarize_cluster, create_keys,
}
use cluster_api_provider_ver.Base.{
  refl, true, ◌<>◌, String, ◌≡◌, Option, none, false, [], ◌∷◌, ◌≢◌, some, ap, arith,
}
use cluster_api_provider_ver.Tests.Fixtures.{
  stopped, cluster, cloud_with, library, verda_cluster, running_instance, metadata,
  library-IsLawful,
}
use cluster_api_provider_ver.Api.{
  service_load_balancer_enabled, VerdaCluster, load_balancer_enabled, cluster_finalizer,
}
use cluster_api_provider_ver.Base.Error.{Error, plain, kube_error, missing}
use cluster_api_provider_ver.LoadBalancer.{Keys, generate_keys}
use cluster_api_provider_ver.Ccm.{config, LbScope}
use cluster_api_provider_ver.Machine.{instance_gone, truncate_tag}
use cluster_api_provider_ver.Ccm.Publication.{IsSecretStore, config-publish_to}
use cluster_api_provider_ver.Cloud.{
  tag_load_balancer, managed_by_value, tag_managed_by, status_discontinued, Instance, InstanceSpec,
}
use cluster_api_provider_ver.Cluster.Provisioned.{
  is_consistent, consistent, reconcile_normal_cluster-consistent,
}
use cluster_api_provider_ver.Platform.{done}
use cluster_api_provider_ver.Cluster.Stale.{gone_instance_adopted}
use text.Mathlib.TextPositions.{eq_refl}
use cluster_api_provider_ver.Base.Sort.{sort_texts}
use cluster_api_provider_ver.Base.Distinct.{texts_eq}
use cluster_api_provider_ver.Cluster.Recorded.{never_created_again}
use cluster_api_provider_ver.Cluster.KeyStability.{ensure_keys_again, HasKeys, IsKeyStore}
use cluster_api_provider_ver.Cluster.Single.{with_create}
use cluster_api_provider_ver.Cluster.Ready.{summarize_cluster-ready}

abbrev key_contents : Dict String
key_contents =
    ("ssh-privatekey", "cp")
    ∷ ("ssh-publickey", "cP")
    ∷ ("host-privatekey", "hp")
    ∷ ("host-publickey", "hP")
    ∷ []

abbrev no_workload : Error
no_workload = plain "no workload cluster"

abbrev reconciler : ClusterReconciler Fake
reconciler = record {
  get_verda_cluster = λ namespace name. pure verda_cluster;
  get_cluster = λ namespace name. pure cluster;
  ensure_finalizer = λ vc finalizer. pure false;
  get_owner_cluster = λ m. pure (some cluster);
  ensure_paused_condition = λ c vc. pure (false, false);
  new_patch_helper = λ vc. pure tt;
  patch = λ old new. pure tt;
  client_for = λ identity. pure fake_client;
  list_machines = λ namespace name. pure [];
  get_owner_machine = λ m. pure none;
  get_secret = λ namespace name. pure key_contents;
  create_secret = λ secret. pure tt;
  generate_key_pair = λ comment. pure ("private", "public");
  update_backends = λ address keys backends. pure tt;
  get_kubeconfig = λ namespace name. raise no_workload;
  workload_client = λ kubeconfig. raise no_workload;
  lib = library;
  clock = stopped;
  cluster_name_label = "cluster.x-k8s.io/cluster-name";
  control_plane_label = "cluster.x-k8s.io/control-plane";
  ssh_auth_type = "kubernetes.io/ssh-auth";
}

abbrev cluster_scope : ClusterScope Fake
cluster_scope = record { reconciler = reconciler; cloud = fake_client }

-- A new cluster with a load balancer of its own.
abbrev new_cluster : VerdaCluster
new_cluster = record verda_cluster {
  metadata = record metadata { name = "c1"; finalizers = cluster_finalizer ∷ [] };
  status = record verda_cluster.status { provisioned = none };
}

abbrev balancer_instance : Instance
balancer_instance = record running_instance {
  id = "lb-1";
  tags = (tag_managed_by, managed_by_value) ∷ (tag_load_balancer, "default/c1") ∷ [];
}

abbrev serving_state : ClusterState Fake
serving_state = record { vc = new_cluster; world = cloud_with balancer_instance }

reconcile_normal_cluster-consistent_example :
    consistent (reconcile_normal_cluster cluster_scope cluster serving_state).1 ≡ true
unfolding is_consistent
reconcile_normal_cluster-consistent_example =
    reconcile_normal_cluster-consistent cluster_scope cluster serving_state refl

-- The cluster does become provisioned there, with the instance's address.
becomes_provisioned :
    let vc = (reconcile_normal_cluster cluster_scope cluster serving_state).1.vc in
    (vc.status.provisioned ≡ some true) × (vc.spec.control_plane_endpoint.host ≡ "192.0.2.1")
unfolding reconcile_normal_cluster reconcile_endpoint load_balancer_enabled reconcile_load_balancer
    ensure_keys keys_from_secret find_load_balancer find_tagged cluster_tag_value truncate_tag
    with_found found_or_created track_load_balancer is_up serve_control_plane
    control_plane_addresses sort_texts collect_addresses texts_eq set_failure_domains
    set_endpoint_ready reconcile_services service_load_balancer_enabled to_lower fake_client
    Fake.find_instance_by_tag Fake.scan get_text lookup
becomes_provisioned = (refl, refl)

-- A cluster that is deleted, of which nothing is left.
abbrev leaving_state : ClusterState Fake
leaving_state = record { vc = new_cluster; world = new_fake }

finalizers_change :
    finalizers (reconcile_delete_cluster cluster_scope leaving_state).1 ≢ finalizers leaving_state
unfolding reconcile_delete_cluster delete_service_load_balancer delete_found_service
    find_instance_by_status_or_tag find_tagged_live release_service_load_balancer purge_gone
    delete_service_script delete_control_plane find_load_balancer find_tagged cluster_tag_value
    truncate_tag to_lower delete_found_cluster release_cluster delete_control_plane_script
    load_balancer_enabled new_fake fake_client Fake.find_instance_by_tag Fake.scan
    Fake.delete_startup_script_by_name Fake.drop_scripts
finalizers_change p = cc

cluster_finalizer_removal_example :
    let t = (delete_service_load_balancer cluster_scope leaving_state).1 in
    IsReleased cluster_scope (find_service_load_balancer fake_client new_cluster) new_fake
    × IsReleased cluster_scope (find_load_balancer fake_client t.vc) t.world
    × ((reconcile_delete_cluster cluster_scope leaving_state).0 ≡ ok done)
cluster_finalizer_removal_example =
    cluster_finalizer_removal cluster_scope leaving_state finalizers_change

-- The instance of an earlier cluster of that name.
abbrev old_instance : Instance
old_instance = record balancer_instance { status = status_discontinued }

abbrev stale_state : ClusterState Fake
stale_state = record { vc = new_cluster; world = cloud_with old_instance }

abbrev stored_keys : Keys
stored_keys = record {
  client_private_key = "cp";
  client_public_key = "cP";
  host_private_key = "hp";
  host_public_key = "hP";
}

gone_instance_adopted_example :
    let (outcome, t) = reconcile_load_balancer cluster_scope cluster stale_state in
    (outcome ≡ ok done)
    × (t.world ≡ cloud_with old_instance)
    × (t.vc.status.load_balancer.instance_id ≡ "lb-1")
unfolding ensure_keys keys_from_secret cluster_tag_value truncate_tag to_lower instance_gone
    fake_client Fake.find_instance_by_tag Fake.scan get_text lookup
gone_instance_adopted_example =
    gone_instance_adopted cluster_scope cluster stale_state stored_keys old_instance
      (cloud_with old_instance) (cloud_with old_instance) refl refl refl refl

-- A workload cluster whose world is its secrets.
abbrev absent : Error
absent = kube_error missing "no such secret"

abbrev stored : Option (Dict String) → Result (Dict String)
stored none = err absent
stored (some d) = ok d

abbrev view : String → String → Dict (Dict String) → Option (Dict String)
view namespace name w = lookup (namespace <> "/" <> name) w

abbrev workload : WorkloadClient (Dict (Dict String))
workload = record {
  get = λ namespace name w. (stored (view namespace name w), w);
  create = λ secret w. (ok tt, insert (secret.namespace <> "/" <> secret.name) secret.contents w);
  update = λ namespace name d w. (ok tt, insert (namespace <> "/" <> name) d w);
  delete = λ namespace name w. (ok tt, erase (namespace <> "/" <> name) w);
}

view-insert :
    (key : String) (d : Dict String) (w w' : Dict (Dict String))
    → insert key d w ≡ w'
    → lookup key w' ≡ some d
view-insert key d w w' h = ground (arith, lookup-insert key key d w, eq_refl key)

workload-IsSecretStore : IsSecretStore workload view
workload-IsSecretStore = record {
  get-none = λ namespace name w h. ("no such secret", ap (λ o. (stored o, w)) h);
  get-some = λ namespace name d w h. ap (λ o. (stored o, w)) h;
  view-create = λ secret w w' h.
      view-insert (secret.namespace <> "/" <> secret.name) secret.contents w w' (ap (λ x. x.1) h);
  view-update =
      λ namespace name d w w' h. view-insert (namespace <> "/" <> name) d w w' (ap (λ x. x.1) h);
}

abbrev manager : LbScope (Dict (Dict String))
manager = record {
  get_secret = λ namespace name. pure [];
  list_services = pure [];
  list_nodes = pure [];
  update_files = λ address keys files reload. pure tt;
}

abbrev published : Dict (Dict String)
published =
    ("kube-system/verda-service-lb", published_contents cluster "192.0.2.1" stored_keys) ∷ []

config-publish_to_example : config (record manager { get_secret = workload.get }) published ≡ (
  ok (record { address = "192.0.2.1"; client_private_key = "cp"; host_public_key = "hP" }),
  published,
)
unfolding publish_to lookup insert
config-publish_to_example =
    config-publish_to workload-IsSecretStore manager cluster "192.0.2.1" stored_keys [] published
      (λ p. cc) (λ p. cc) (λ p. cc) (λ d p same. ground arith) refl

-- Secrets and key pairs over a world of secrets, with an in-memory store for the rest.
abbrev keyed : ClusterReconciler (Dict (Dict String))
keyed = record {
  get_verda_cluster = λ namespace name. pure verda_cluster;
  get_cluster = λ namespace name. pure cluster;
  ensure_finalizer = λ vc finalizer. pure false;
  get_owner_cluster = λ m. pure (some cluster);
  ensure_paused_condition = λ c vc. pure (false, false);
  new_patch_helper = λ vc. pure tt;
  patch = λ old new. pure tt;
  client_for = λ identity. raise no_workload;
  list_machines = λ namespace name. pure [];
  get_owner_machine = λ m. pure none;
  get_secret = workload.get;
  create_secret = workload.create;
  generate_key_pair = λ comment. pure ("private", "public");
  update_backends = λ address keys backends. pure tt;
  get_kubeconfig = λ namespace name. raise no_workload;
  workload_client = λ kubeconfig. pure workload;
  lib = library;
  clock = record { now = λ w. (7, w); parse = λ s. none; format = λ n. "" };
  cluster_name_label = "cluster.x-k8s.io/cluster-name";
  control_plane_label = "cluster.x-k8s.io/control-plane";
  ssh_auth_type = "kubernetes.io/ssh-auth";
}

keyed-IsKeyStore : IsKeyStore keyed view
keyed-IsKeyStore = record {
  get-none = λ namespace name w h. ("no such secret", ap (λ o. (stored o, w)) h);
  get-some = λ namespace name d w h. ap (λ o. (stored o, w)) h;
  view-create = λ secret w w' h.
      view-insert (secret.namespace <> "/" <> secret.name) secret.contents w w' (ap (λ x. x.1) h);
}

abbrev pair_of : Result (String × String) → String × String
pair_of (ok pair) = pair
pair_of (err e) = ("", "")

keyed-HasKeys : HasKeys keyed
keyed-HasKeys comment pair w h =
    let first : "private" ≡ pair.0 = ap (λ r. (pair_of r).0) h in
    let second : "public" ≡ pair.1 = ap (λ r. (pair_of r).1) h in (λ p. cc, λ p. cc)

abbrev made_keys : Keys
made_keys = record {
  client_private_key = "private";
  client_public_key = "public";
  host_private_key = "private";
  host_public_key = "public";
}

abbrev key_store : Dict (Dict String)
key_store =
    ("default/c1-lb-ssh", (key_secret keyed cluster new_cluster "c1-lb-ssh" made_keys).contents)
    ∷ []

-- The keys are made by the first call.
ensure_keys_again_example :
    ensure_keys keyed cluster new_cluster "c1-lb-ssh" key_store ≡ (ok made_keys, key_store)
unfolding ensure_keys create_keys store_keys generate_keys lookup insert
ensure_keys_again_example =
    ensure_keys_again keyed keyed-IsKeyStore keyed-HasKeys cluster new_cluster "c1-lb-ssh" made_keys
      [] key_store refl

-- A cluster with both load balancers recorded.
abbrev recorded_cluster : VerdaCluster
recorded_cluster = record new_cluster {
  status = record new_cluster.status {
    load_balancer = record new_cluster.status.load_balancer { instance_id = "lb-1" };
    service_load_balancer = record new_cluster.status.service_load_balancer {
      instance_id = "lb-2";
    };
  };
}

abbrev recorded_state : ClusterState Fake
recorded_state = record { vc = recorded_cluster; world = cloud_with balancer_instance }

abbrev refuse : InstanceSpec → Act Fake Instance
refuse spec = raise no_workload

never_created_again_example :
    reconcile_normal_cluster (with_create cluster_scope refuse) cluster recorded_state
    ≡ reconcile_normal_cluster cluster_scope cluster recorded_state
never_created_again_example =
    never_created_again cluster_scope refuse cluster recorded_state (λ p. cc, λ p. cc)

summarize_cluster-ready_example :
    library.is_true (summarize_cluster reconciler recorded_cluster).status.conditions "Ready"
    ≡ false
unfolding load_balancer_enabled
summarize_cluster-ready_example =
    summarize_cluster-ready reconciler library-IsLawful recorded_cluster "Ready"
