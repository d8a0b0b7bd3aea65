-- ===== src/Api/Cluster.antt =====
-- api/v1beta1/verdacluster_types.go
use cluster_api_provider_ver.Base.{String, Bool, false, Option, none, some, List}
use cluster_api_provider_ver.Base.Int.{ℤ}
use cluster_api_provider_ver.Api.Machine.{Condition, ObjectMeta}

abbrev pub cluster_finalizer : String
cluster_finalizer = "verdacluster.infrastructure.cluster.x-k8s.io"

abbrev pub control_plane_endpoint_ready_condition : String
control_plane_endpoint_ready_condition = "ControlPlaneEndpointReady"

abbrev pub load_balancer_ready_condition : String
load_balancer_ready_condition = "LoadBalancerReady"

abbrev pub service_load_balancer_ready_condition : String
service_load_balancer_ready_condition = "ServiceLoadBalancerReady"

abbrev pub service_load_balancer_secret_name : String
service_load_balancer_secret_name = "verda-service-lb"

abbrev pub default_load_balancer_instance_type : String
default_load_balancer_instance_type = "CPU.4V.16G"

abbrev pub default_load_balancer_image : String
default_load_balancer_image = "24.04.base"

-- clusterv1.APIEndpoint
pub record ApiEndpoint : Type 0 where
  pub host : String
  pub port : ℤ

pub record ControlPlaneLoadBalancer : Type 0 where
  pub enabled : Option Bool
  pub instance_type : String
  pub image : String
  pub ssh_key_ids : List String

-- identityRef is the name that it holds, or nothing where it is nil.
pub record VerdaClusterSpec : Type 0 where
  pub location : String
  pub control_plane_endpoint : ApiEndpoint
  pub identity_ref : Option String
  pub control_plane_load_balancer : ControlPlaneLoadBalancer
  pub service_load_balancer : ControlPlaneLoadBalancer

pub record LoadBalancerStatus : Type 0 where
  pub instance_id : String
  pub startup_script_id : String
  pub address : String
  pub backends : List String
  pub secret_published : Option Bool

-- clusterv1.FailureDomain
pub record FailureDomain : Type 0 where
  pub name : String
  pub control_plane : Option Bool

pub record VerdaClusterStatus : Type 0 where
  pub provisioned : Option Bool
  pub conditions : List Condition
  pub load_balancer : LoadBalancerStatus
  pub service_load_balancer : LoadBalancerStatus
  pub failure_domains : List FailureDomain

pub record VerdaCluster : Type 0 where
  pub metadata : ObjectMeta
  pub spec : VerdaClusterSpec
  pub status : VerdaClusterStatus

-- p != nil && *p
abbrev pub is_set : Option Bool → Bool
is_set none = false
is_set (some b) = b

unfoldable pub identity_secret_name : VerdaCluster → String
identity_secret_name c = elim c.spec.identity_ref [ none ↦ "" | some name ↦ name ]

unfoldable pub load_balancer_enabled : VerdaCluster → Bool
load_balancer_enabled c = is_set c.spec.control_plane_load_balancer.enabled

unfoldable pub service_load_balancer_enabled : VerdaCluster → Bool
service_load_balancer_enabled c = is_set c.spec.service_load_balancer.enabled
