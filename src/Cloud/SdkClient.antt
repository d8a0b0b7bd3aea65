-- ===== src/Cloud/SdkClient.antt =====
-- internal/cloud/client.go: sdkClient, the Client interface over the Verda SDK. What converts and
-- searches is in Convert, what deletes in Deletion, what creates in Creation.
mod Convert
mod Deletion
mod Creation
pub mod Lookup
pub mod Guards
pub mod Ownership
pub mod Volumes
unfoldable pub use Convert.*
unfoldable pub use Deletion.*
unfoldable pub use Creation.*
use cluster_api_provider_ver.Cloud.{Client}
use cluster_api_provider_ver.Cloud.Verda.{VerdaApi}

-- The methods of sdkClient, as the interface has them.
unfoldable pub sdk_client : {W : Type 0} → VerdaApi W → Client W
sdk_client api = record {
  get_instance_type = get_instance_type api;
  get_instance = get_instance api;
  find_instance_by_hostname = find_instance_by_hostname api;
  find_instance_by_tag = find_instance_by_tag api;
  create_instance = create_instance api;
  delete_startup_script_by_name = delete_startup_script_by_name api;
  delete_instance = delete_instance api;
  purge_instance_volumes = purge_instance_volumes api;
  delete_startup_script = delete_startup_script api;
  get_volume = get_volume api;
  find_volume_by_name = find_volume_by_name api;
  clone_volume = clone_volume api;
  delete_volume = delete_volume api;
  ensure_volume_tag = ensure_volume_tag api;
}
