-- ===== src/Ccm/Types.antt =====
-- The fields of Kubernetes' objects that internal/ccm reads.
-- corev1.ServicePort; Kubernetes holds ports between 1 and 65535, and 0 is a node port not given.
use cluster_api_provider_ver.Base.{ℕ, Option, List, String}
use cluster_api_provider_ver.Api.{AddressType}
use cluster_api_provider_ver.Base.Dict.{Dict}

pub record ServicePort : Type 0 where
  pub protocol : String
  pub port : ℕ
  pub node_port : ℕ

pub record Service : Type 0 where
  pub namespace : String
  pub name : String
  pub created_at : ℕ
  pub deletion_timestamp : Option ℕ
  pub annotations : Dict String
  pub kind : String
  pub ports : List ServicePort
  pub external_traffic_policy : String
  pub health_check_node_port : ℕ
  pub ingress : List String

pub record NodeAddress : Type 0 where
  pub kind : AddressType
  pub address : String

pub record Node : Type 0 where
  pub name : String
  pub provider_id : String
  pub labels : Dict String
  pub deletion_timestamp : Option ℕ
  pub addresses : List NodeAddress
