-- ===== src/Cloud/Verda.antt =====
-- The Verda Go SDK (github.com/verda-cloud/verdacloud-sdk-go), which is not part of the repository:
-- the fields that client.go reads and writes, and the calls that it makes, as a parameter.
use cluster_api_provider_ver.Base.{String, Bool, Option, List}
use cluster_api_provider_ver.Base.Int.{ℤ}
use cluster_api_provider_ver.Base.Act.{Act}

pub record Tag : Type 0 where
  pub key : String
  pub value : String

pub record SdkInstance : Type 0 where
  pub id : String
  pub hostname : String
  pub status : String
  pub location : String
  pub instance_type : String
  pub ip : Option String
  pub startup_script_id : Option String
  pub os_volume_id : Option String
  pub volume_ids : List String
  pub tags : List Tag

pub record SdkVolume : Type 0 where
  pub id : String
  pub name : String
  pub status : String
  pub location : String
  pub is_os_volume : Bool
  pub instance_id : Option String
  pub tags : List Tag

pub record SdkScript : Type 0 where
  pub id : String
  pub name : String

pub record SdkInstanceType : Type 0 where
  pub instance_type : String
  pub cpu_cores : ℤ
  pub memory_gb : ℤ
  pub gpu_count : ℤ
  pub model : String

pub record OsVolumeCreateRequest : Type 0 where
  pub name : String
  pub size : ℤ
  pub on_spot_discontinue : String

pub record VolumeCreateRequest : Type 0 where
  pub name : String
  pub size : ℤ
  pub kind : String
  pub on_spot_discontinue : String

pub record CreateInstanceRequest : Type 0 where
  pub instance_type : String
  pub image : String
  pub hostname : String
  pub description : String
  pub ssh_key_ids : List String
  pub location_code : String
  pub contract : String
  pub is_spot : Bool
  pub os_volume : Option OsVolumeCreateRequest
  pub volumes : List VolumeCreateRequest
  pub tags : List Tag
  pub startup_script_id : Option String

-- The calls of verda.Client, over a world W that holds the state of the remote service.
pub record VerdaApi (W : Type 0) : Type 0 where
  pub list_instance_types : Act W (List SdkInstanceType)
  pub list_instances : Act W (List SdkInstance)
  pub get_instance_by_id : String → Act W SdkInstance
  pub create_instance : CreateInstanceRequest → Act W SdkInstance
  pub shutdown_instance : String → Act W (Unit {0})
  pub delete_instances : List String → List String → Bool → Act W (Unit {0})
  pub volumes_in_trash : Act W (List SdkVolume)
  pub get_volume : String → Act W SdkVolume
  pub list_volumes : Act W (List SdkVolume)
  pub delete_volume : String → Bool → Act W (Unit {0})
  pub clone_volume : String → String → String → Act W String
  pub add_volume_tag : String → Tag → Act W (Unit {0})
  pub list_scripts : Act W (List SdkScript)
  pub add_script : String → String → Act W SdkScript
  pub delete_script : String → Act W (Unit {0})
  pub volume_type_nvme : String
  pub spot_discontinue_delete_permanent : String
