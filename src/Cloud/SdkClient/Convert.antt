-- ===== src/Cloud/SdkClient/Convert.antt =====
-- client.go: from the SDK's records to the provider's, and the reading methods of sdkClient.
use cluster_api_provider_ver.Base.{
  String, ◌<>◌, Bool, true, false, not, Option, none, some, List, [], ◌∷◌, ◌==◌, ◌&&◌,
  if◌then◌else◌,
}
use cluster_api_provider_ver.Base.Error.{Error, sentinel, wrap, not_found, has_status}
use cluster_api_provider_ver.Base.Act.{Act, pure, raise, handle}
use cluster_api_provider_ver.Base.Dict.{Dict, insert, get_text}
use cluster_api_provider_ver.Cloud.{
  Instance, Volume, InstanceTypeInfo, tag_managed_by, managed_by_value, status_discontinued,
}
use cluster_api_provider_ver.Cloud.Verda.{VerdaApi, SdkInstance, SdkVolume, SdkInstanceType, Tag}

-- isNotFound: an API error with the status code 404.
abbrev pub is_api_not_found : Error → Bool
is_api_not_found e = has_status 404 e

-- *p, or "" where p is nil.
abbrev pub deref_text : Option String → String
deref_text none = ""
deref_text (some s) = s

-- for _, t := range in.Tags { out.Tags[t.Key] = t.Value }
unfoldable pub fill_tags : List Tag → Dict String → Dict String
fill_tags [] m = m
fill_tags (t ∷ ts) m = fill_tags ts (insert t.key t.value m)

unfoldable pub to_instance : SdkInstance → Instance
to_instance i = record {
  id = i.id;
  hostname = i.hostname;
  status = i.status;
  ip = deref_text i.ip;
  location = i.location;
  instance_type = i.instance_type;
  startup_script_id = deref_text i.startup_script_id;
  os_volume_id = deref_text i.os_volume_id;
  tags = fill_tags i.tags [];
}

unfoldable pub has_tag : List Tag → String → String → Bool
has_tag [] key value = false
has_tag (t ∷ ts) key value =
    let rest = has_tag ts key value in if t.key == key && t.value == value then true else rest

unfoldable pub to_volume : SdkVolume → Volume
to_volume v = record {
  id = v.id;
  name = v.name;
  status = v.status;
  location = v.location;
  is_os_volume = v.is_os_volume;
  instance_id = deref_text v.instance_id;
  managed = has_tag v.tags tag_managed_by managed_by_value;
}

-- toInstance(inst).Tags[TagManagedBy] == ManagedByValue
abbrev pub is_managed : SdkInstance → Bool
is_managed i = get_text tag_managed_by (to_instance i).tags == managed_by_value

-- The loop that FindInstanceByHostname and FindInstanceByTag share: the first match that is not
-- discontinued, or else the last discontinued match.
unfoldable pub scan : (Instance → Bool) → List SdkInstance → Option Instance → Option Instance
scan test [] gone = gone
scan test (x ∷ xs) gone =
    let inst = to_instance x in
    let skip = scan test xs gone in
    let keep = scan test xs (some inst) in
    if not (test inst) then skip else if inst.status == status_discontinued then keep else some inst

abbrev or_not_found : {W A : Type 0} → Option A → Act W A
or_not_found none = raise (sentinel not_found)
or_not_found (some a) = pure a

unfoldable pub pick_instance_type : String → List SdkInstanceType → Option InstanceTypeInfo
pick_instance_type name [] = none
pick_instance_type name (t ∷ ts) =
    if t.instance_type == name
    then some (record {
      instance_type = t.instance_type;
      cpus = t.cpu_cores;
      memory_gb = t.memory_gb;
      gpus = t.gpu_count;
      gpu_model = t.model;
    })
    else pick_instance_type name ts

unfoldable pub pick_volume : String → List SdkVolume → Option Volume
pick_volume name [] = none
pick_volume name (v ∷ vs) = if v.name == name then some (to_volume v) else pick_volume name vs

module _ {W : Type 0} (api : VerdaApi W) where
  unfoldable pub get_instance_type : String → Act W InstanceTypeInfo
  unfolding pick_instance_type
  get_instance_type name =
      handle api.list_instance_types (λ e. raise (wrap "listing instance types" e))
        λ types. or_not_found (pick_instance_type name types)

  unfoldable pub get_instance : String → Act W Instance
  get_instance id =
      handle (api.get_instance_by_id id)
        (λ e.
          if is_api_not_found e
          then raise (sentinel not_found)
          else raise (wrap ("getting instance " <> id) e))
        λ inst. pure (to_instance inst)

  unfoldable pub find_instance_by_hostname : String → Act W Instance
  find_instance_by_hostname hostname =
      handle api.list_instances (λ e. raise (wrap "listing instances" e))
        λ instances. or_not_found (scan (λ i. i.hostname == hostname) instances none)

  unfoldable pub find_instance_by_tag : String → String → Act W Instance
  find_instance_by_tag key value =
      handle api.list_instances (λ e. raise (wrap "listing instances" e))
        λ instances. or_not_found (scan (λ i. get_text key i.tags == value) instances none)

  unfoldable pub get_volume : String → Act W Volume
  get_volume id =
      handle (api.get_volume id)
        (λ e.
          if is_api_not_found e
          then raise (sentinel not_found)
          else raise (wrap ("getting volume " <> id) e))
        λ vol. pure (to_volume vol)

  unfoldable pub find_volume_by_name : String → Act W Volume
  find_volume_by_name name =
      handle api.list_volumes (λ e. raise (wrap "listing volumes" e))
        λ volumes. or_not_found (pick_volume name volumes)
