-- ===== src/Api/Machine.antt =====
-- api/v1beta1/verdamachine_types.go
use cluster_api_provider_ver.Base.{String, ◌<>◌, Bool, Option, List, ℕ}
use cluster_api_provider_ver.Base.Int.{ℤ}
use cluster_api_provider_ver.Base.Dict.{Dict}

abbrev pub machine_finalizer : String
machine_finalizer = "verdamachine.infrastructure.cluster.x-k8s.io"

abbrev pub provider_id_prefix : String
provider_id_prefix = "verda://"

unfoldable pub provider_id : String → String
provider_id hostname = provider_id_prefix <> hostname

abbrev pub instance_ready_condition : String
instance_ready_condition = "InstanceReady"

abbrev pub os_volume_ready_condition : String
os_volume_ready_condition = "OSVolumeReady"

pub record AdditionalVolume : Type 0 where
  pub name : String
  pub size_gb : ℤ
  pub kind : String

pub record VerdaMachineSpec : Type 0 where
  pub provider_id : String
  pub instance_type : String
  pub image : String
  pub os_volume_id : String
  pub ssh_key_ids : List String
  pub os_volume_size_gb : ℤ
  pub contract : String
  pub spot : Option Bool
  pub spot_discontinue_policy : String
  pub additional_volumes : List AdditionalVolume

-- metav1.Condition without its times.
pub record Condition : Type 0 where
  pub kind : String
  pub status : Bool
  pub reason : String
  pub message : String

pub data AddressType : Type 0 where
  host_name external_ip internal_ip other_address : AddressType

pub record MachineAddress : Type 0 where
  pub kind : AddressType
  pub address : String

-- initialization.provisioned is flattened.
pub record VerdaMachineStatus : Type 0 where
  pub provisioned : Option Bool
  pub conditions : List Condition
  pub addresses : List MachineAddress
  pub failure_domain : String
  pub instance_id : String
  pub instance_state : String
  pub os_volume_id : String
  pub startup_script_id : String

pub record ObjectMeta : Type 0 where
  pub namespace : String
  pub name : String
  pub labels : Dict String
  pub annotations : Dict String
  pub finalizers : List String
  pub deletion_timestamp : Option ℕ

pub record VerdaMachine : Type 0 where
  pub metadata : ObjectMeta
  pub spec : VerdaMachineSpec
  pub status : VerdaMachineStatus
