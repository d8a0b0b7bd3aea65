-- ===== src/Cloud.antt =====
-- internal/cloud: the provider's view of Verda. This file has the data types of client.go and the
-- Client interface that the controllers use; the children are the SDK it stands on, the client over
-- the SDK, and the in-memory fake.
pub mod Verda
pub mod SdkClient
pub mod Fake
pub mod Factory
pub mod Credentials
use cluster_api_provider_ver.Base.{String, Bool, true, false, Option, none, List, [], ◌==◌, ◌||◌}
use cluster_api_provider_ver.Base.{ℕ}
use cluster_api_provider_ver.Base.Int.{ℤ}
use cluster_api_provider_ver.Base.Dict.{Dict}
use cluster_api_provider_ver.Base.Act.{Act}

abbrev pub tag_cluster : String
tag_cluster = "capi-cluster"

abbrev pub tag_machine : String
tag_machine = "capi-machine"

abbrev pub tag_load_balancer : String
tag_load_balancer = "capi-loadbalancer"

abbrev pub tag_service_load_balancer : String
tag_service_load_balancer = "capi-service-loadbalancer"

abbrev pub tag_managed_by : String
tag_managed_by = "capi-managed-by"

abbrev pub tag_role : String
tag_role = "capi-role"

abbrev pub managed_by_value : String
managed_by_value = "cluster-api-provider-verda"

abbrev pub status_running : String
status_running = "running"

abbrev pub status_offline : String
status_offline = "offline"

abbrev pub status_deleting : String
status_deleting = "deleting"

abbrev pub status_discontinued : String
status_discontinued = "discontinued"

abbrev pub status_deleted : String
status_deleted = "deleted"

abbrev pub status_error : String
status_error = "error"

abbrev pub status_no_capacity : String
status_no_capacity = "no_capacity"

abbrev pub status_not_found : String
status_not_found = "notfound"

abbrev pub volume_detached : String
volume_detached = "detached"

abbrev pub volume_attached : String
volume_attached = "attached"

abbrev pub volume_deleting : String
volume_deleting = "deleting"

abbrev pub volume_deleted : String
volume_deleted = "deleted"

pub record Instance : Type 0 where
  pub id : String
  pub hostname : String
  pub status : String
  pub ip : String
  pub location : String
  pub instance_type : String
  pub startup_script_id : String
  pub os_volume_id : String
  pub tags : Dict String

pub record Volume : Type 0 where
  pub id : String
  pub name : String
  pub status : String
  pub location : String
  pub is_os_volume : Bool
  pub instance_id : String
  pub managed : Bool

pub record DataVolumeSpec : Type 0 where
  pub name : String
  pub size_gb : ℤ
  pub kind : String

pub record InstanceSpec : Type 0 where
  pub hostname : String
  pub description : String
  pub instance_type : String
  pub image : String
  pub location : String
  pub ssh_key_ids : List String
  pub os_volume_size_gb : ℤ
  pub contract : String
  pub spot : Bool
  pub spot_discontinue_policy : String
  pub data_volumes : List DataVolumeSpec
  pub startup_script : String
  pub tags : Dict String

pub record InstanceTypeInfo : Type 0 where
  pub instance_type : String
  pub cpus : ℤ
  pub memory_gb : ℤ
  pub gpus : ℤ
  pub gpu_model : String

-- &cloud.Instance{ID: id, Status: status}
abbrev pub bare_instance : String → String → Instance
bare_instance id status = record {
  id = id;
  hostname = "";
  status = status;
  ip = "";
  location = "";
  instance_type = "";
  startup_script_id = "";
  os_volume_id = "";
  tags = [];
}

-- The interface cloud.Client: each method is an action on the world, which holds Verda's state.
pub record Client (W : Type 0) : Type 0 where
  pub get_instance_type : String → Act W InstanceTypeInfo
  pub get_instance : String → Act W Instance
  pub find_instance_by_hostname : String → Act W Instance
  pub find_instance_by_tag : String → String → Act W Instance
  pub create_instance : InstanceSpec → Act W Instance
  pub delete_startup_script_by_name : String → Act W (Unit {0})
  pub delete_instance : String → Act W (Unit {0})
  pub purge_instance_volumes : String → Act W ℕ
  pub delete_startup_script : String → Act W (Unit {0})
  pub get_volume : String → Act W Volume
  pub find_volume_by_name : String → Act W Volume
  pub clone_volume : String → String → String → Act W String
  pub delete_volume : String → Act W (Unit {0})
  pub ensure_volume_tag : String → Act W (Unit {0})
