-- ===== src/Api/Template.antt =====
-- api/v1beta1/verdamachinetemplate_types.go and verdaclustertemplate_types.go
use cluster_api_provider_ver.Base.{String, List}
use cluster_api_provider_ver.Base.Int.{ℤ}
use cluster_api_provider_ver.Base.Dict.{Dict}
use cluster_api_provider_ver.Api.Machine.{Condition, ObjectMeta, VerdaMachineSpec}
use cluster_api_provider_ver.Api.Cluster.{VerdaClusterSpec}

abbrev pub capacity_ready_condition : String
capacity_ready_condition = "CapacityReady"

pub record NodeInfo : Type 0 where
  pub architecture : String
  pub operating_system : String

-- capacity maps a resource name to its quantity.
pub record VerdaMachineTemplateStatus : Type 0 where
  pub capacity : Dict ℤ
  pub node_info : NodeInfo
  pub conditions : List Condition

pub record VerdaMachineTemplate : Type 0 where
  pub metadata : ObjectMeta
  pub spec : VerdaMachineSpec
  pub status : VerdaMachineTemplateStatus

-- verdaclustertemplate_types.go
pub record VerdaClusterTemplate : Type 0 where
  pub metadata : ObjectMeta
  pub spec : VerdaClusterSpec
