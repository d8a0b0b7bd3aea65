-- ===== src/Tests/Remote.antt =====
-- A Verda account that does not change; the world is the log of what it was asked to change.
use cluster_api_provider_ver.Base.Act.{ok, pure, raise, Act, ◌>>◌, err, Result}
use cluster_api_provider_ver.Cloud.Verda.{SdkVolume, VerdaApi, SdkInstance, Tag, SdkScript}
use cluster_api_provider_ver.Base.{
  List, some, [], true, String, if◌then◌else◌, ◌<>◌, none, ◌==◌, ◌∷◌,
}
use cluster_api_provider_ver.Base.Error.{api_error, Error}
use cluster_api_provider_ver.Cloud.{
  tag_managed_by, volume_attached, status_running, managed_by_value,
}

abbrev managed : List Tag
managed = record { key = tag_managed_by; value = managed_by_value } ∷ []

abbrev pub worker : SdkInstance
worker = record {
  id = "i1";
  hostname = "worker";
  status = status_running;
  location = "FIN-01";
  instance_type = "CPU.4V.16G";
  ip = none;
  startup_script_id = none;
  os_volume_id = some "v1";
  volume_ids = "v2" ∷ "v1" ∷ [];
  tags = managed;
}

-- An instance with the same hostname that somebody else made.
abbrev pub stranger : SdkInstance
stranger = record worker { id = "i2"; tags = [] }

abbrev pub volume : SdkVolume
volume = record {
  id = "v1";
  name = "worker-os";
  status = volume_attached;
  location = "FIN-01";
  is_os_volume = true;
  instance_id = some "i1";
  tags = [];
}

abbrev pub find_instance : String → List SdkInstance → Result SdkInstance
find_instance id [] = err (api_error 404 "no such instance")
find_instance id (i ∷ is) = if i.id == id then ok i else find_instance id is

abbrev pub view : String → Result SdkVolume
view id = if id == "v1" then ok volume else err (api_error 404 "no such volume")

abbrev pub script : SdkScript
script = record { id = "s1"; name = "worker" }

abbrev log : String → Act (List String) (Unit {0})
log call w = (ok tt, call ∷ w)

abbrev pub no_capacity : Error
no_capacity = api_error 503 "no capacity"

abbrev pub account : List SdkInstance → VerdaApi (List String)
account instances = record {
  list_instance_types = pure [];
  list_instances = pure instances;
  get_instance_by_id = λ id w. (find_instance id instances, w);
  create_instance = λ request. raise no_capacity;
  shutdown_instance = λ id. log ("shutdown " <> id);
  delete_instances = λ ids volumes permanently. log "delete instances";
  volumes_in_trash = pure [];
  get_volume = λ id w. (view id, w);
  list_volumes = pure (volume ∷ []);
  delete_volume = λ id permanently. log ("delete volume " <> id);
  clone_volume = λ source name location. raise no_capacity;
  add_volume_tag = λ id tag. log ("tag " <> id);
  list_scripts = pure [];
  add_script = λ name text. log ("add script " <> name) >> pure script;
  delete_script = λ id. log ("delete script " <> id);
  volume_type_nvme = "NVMe";
  spot_discontinue_delete_permanent = "delete_permanently";
}
