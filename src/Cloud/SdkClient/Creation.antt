-- ===== src/Cloud/SdkClient/Creation.antt =====
-- client.go: CreateInstance and the request that it builds.
use cluster_api_provider_ver.Base.{
  String, ◌<>◌, Bool, not, Option, none, some, List, [], ◌∷◌, map, ◌==◌, ◌&&◌, if◌then◌else◌,
}
use cluster_api_provider_ver.Base.Int.{is_positive}
use cluster_api_provider_ver.Base.Error.{Error, sentinel, wrap, hostname_in_use}
use cluster_api_provider_ver.Base.Act.{Act, pure, raise, handle, ◌>>=◌, ◌>>◌}
use cluster_api_provider_ver.Base.Dict.{Dict, get_text}
use cluster_api_provider_ver.Cloud.{
  Instance, InstanceSpec, DataVolumeSpec, tag_managed_by, managed_by_value, status_discontinued,
}
use cluster_api_provider_ver.Cloud.Verda.{
  VerdaApi, SdkInstance, CreateInstanceRequest, VolumeCreateRequest, OsVolumeCreateRequest, Tag,
}
use cluster_api_provider_ver.Cloud.SdkClient.Convert.{to_instance}
use cluster_api_provider_ver.Cloud.SdkClient.Deletion.{delete_startup_script_by_name}

-- An instance that holds the hostname and that the provider does not manage.
abbrev pub blocks : String → Instance → Bool
blocks hostname i =
    i.hostname == hostname
    && not (i.status == status_discontinued)
    && not (get_text tag_managed_by i.tags == managed_by_value)

-- The first such instance in the list.
unfoldable pub find_blocker : String → List SdkInstance → Option Instance
find_blocker hostname [] = none
find_blocker hostname (x ∷ xs) =
    let i = to_instance x in
    let rest = find_blocker hostname xs in if blocks hostname i then some i else rest

abbrev to_tags : Dict String → List Tag
to_tags [] = []
to_tags ((k, v) ∷ m) = record { key = k; value = v } ∷ to_tags m

module _ {W : Type 0} (api : VerdaApi W) where
  unfoldable pub spot_policy : InstanceSpec → String
  spot_policy spec =
      if not spec.spot
      then ""
      else if spec.spot_discontinue_policy == ""
      then api.spot_discontinue_delete_permanent
      else spec.spot_discontinue_policy

  abbrev data_volume : InstanceSpec → DataVolumeSpec → VolumeCreateRequest
  data_volume spec dv = record {
    name = spec.hostname <> "-" <> dv.name;
    size = dv.size_gb;
    kind = if dv.kind == "" then api.volume_type_nvme else dv.kind;
    on_spot_discontinue = spot_policy spec;
  }

  abbrev os_volume : InstanceSpec → Option OsVolumeCreateRequest
  os_volume spec =
      if is_positive spec.os_volume_size_gb
      then some (record {
        name = spec.hostname <> "-os";
        size = spec.os_volume_size_gb;
        on_spot_discontinue = spot_policy spec;
      })
      else none

  -- The request, with the id of the startup script where there is one.
  unfoldable pub create_request : InstanceSpec → Option String → CreateInstanceRequest
  create_request spec script_id = record {
    instance_type = spec.instance_type;
    image = spec.image;
    hostname = spec.hostname;
    description = spec.description;
    ssh_key_ids = spec.ssh_key_ids;
    location_code = spec.location;
    contract = spec.contract;
    is_spot = spec.spot;
    os_volume = os_volume spec;
    volumes = map (data_volume spec) spec.data_volumes;
    tags = to_tags spec.tags;
    startup_script_id = script_id;
  }

  -- The startup script of the instance; none where the text is empty.
  unfoldable pub add_startup_script : InstanceSpec → Act W (Option String)
  add_startup_script spec =
      if spec.startup_script == ""
      then pure none
      else handle (api.add_script spec.hostname spec.startup_script)
          (λ e. raise (wrap ("creating startup script for " <> spec.hostname) e))
          λ script. pure (some script.id)

  -- The script is deleted again, and a failure of that is ignored.
  abbrev drop_script : Option String → Error → Act W Instance
  drop_script none e = raise e
  drop_script (some id) e = handle (api.delete_script id) (λ _. raise e) λ _. raise e

  abbrev with_script : Option String → Instance → Instance
  with_script none i = i
  with_script (some id) i =
      if i.startup_script_id == "" then record i { startup_script_id = id } else i

  unfoldable pub request_instance : InstanceSpec → Option String → Act W Instance
  request_instance spec script_id =
      handle (api.create_instance (create_request spec script_id))
        (λ e. drop_script script_id (wrap ("creating instance " <> spec.hostname) e))
        λ inst. pure (with_script script_id (to_instance inst))

  -- What follows the check of the hostname.
  unfoldable pub create_unblocked : InstanceSpec → Act W Instance
  create_unblocked spec = do
    delete_startup_script_by_name api spec.hostname
    script_id ← add_startup_script spec
    request_instance spec script_id

  unfoldable pub create_instance : InstanceSpec → Act W Instance
  create_instance spec =
      handle api.list_instances (λ e. raise (wrap "listing instances" e))
        λ instances. elim (find_blocker spec.hostname instances) [
          | some i ↦ raise (wrap ("instance " <> i.id) (sentinel hostname_in_use))
          | none ↦ create_unblocked spec
        ]
