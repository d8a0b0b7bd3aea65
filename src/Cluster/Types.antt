-- ===== src/Cluster/Types.antt =====
-- verdacluster_controller.go: the reconciler, the scope of a reconciliation, and its state.
-- corev1.Secret
use cluster_api_provider_ver.Cloud.Factory.{Identity}
use cluster_api_provider_ver.Platform.{Cluster, Library, Clock, Machine}
use cluster_api_provider_ver.Base.Dict.{Dict}
use cluster_api_provider_ver.Base.Act.{Act}
use cluster_api_provider_ver.Base.{String, Bool, List, Option}
use cluster_api_provider_ver.LoadBalancer.{Keys}
use cluster_api_provider_ver.Cloud.{Client}
use cluster_api_provider_ver.Api.{ObjectMeta, VerdaCluster, VerdaMachine}

pub record Secret : Type 0 where
  pub namespace : String
  pub name : String
  pub labels : Dict String
  -- The controller reference: kind and name.
  pub controller : Option (String × String)
  pub kind : String
  pub contents : Dict String

-- The client of a workload cluster, for secrets; an update keeps all but the contents.
pub record WorkloadClient (W : Type 0) : Type 0 where
  pub get : String → String → Act W (Dict String)
  pub create : Secret → Act W (Unit {0})
  pub update : String → String → Dict String → Act W (Unit {0})
  pub delete : String → String → Act W (Unit {0})

-- VerdaClusterReconciler: its Kubernetes client, the cloud factory, the load balancer's updater, the
-- workload client, and the libraries.
pub record ClusterReconciler (W : Type 0) : Type 0 where
  pub get_verda_cluster : String → String → Act W VerdaCluster
  pub get_cluster : String → String → Act W Cluster
  pub ensure_finalizer : VerdaCluster → String → Act W Bool
  pub get_owner_cluster : ObjectMeta → Act W (Option Cluster)
  -- Whether the object is paused, and whether to come back.
  pub ensure_paused_condition : Cluster → VerdaCluster → Act W (Bool × Bool)
  pub new_patch_helper : VerdaCluster → Act W (Unit {0})
  -- The object as the helper was given it, and as it is now.
  pub patch : VerdaCluster → VerdaCluster → Act W (Unit {0})
  pub client_for : Identity → Act W (Client W)
  -- The VerdaMachines of a namespace with the label of a cluster's name.
  pub list_machines : String → String → Act W (List VerdaMachine)
  pub get_owner_machine : ObjectMeta → Act W (Option Machine)
  pub get_secret : String → String → Act W (Dict String)
  pub create_secret : Secret → Act W (Unit {0})
  pub generate_key_pair : String → Act W (String × String)
  pub update_backends : String → Keys → List String → Act W (Unit {0})
  -- kubeconfig.FromSecret, and WorkloadClient or DefaultWorkloadClient.
  pub get_kubeconfig : String → String → Act W String
  pub workload_client : String → Act W (WorkloadClient W)
  pub lib : Library
  pub clock : Clock W
  -- clusterv1.ClusterNameLabel, clusterv1.MachineControlPlaneLabel and corev1.SecretTypeSSHAuth
  pub cluster_name_label : String
  pub control_plane_label : String
  pub ssh_auth_type : String

pub record ClusterScope (W : Type 0) : Type 0 where
  pub reconciler : ClusterReconciler W
  pub cloud : Client W

-- The VerdaCluster that the Go code mutates in place, and the world.
pub record ClusterState (W : Type 0) : Type 0 where
  pub vc : VerdaCluster
  pub world : W
