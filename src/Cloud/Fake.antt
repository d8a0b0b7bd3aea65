-- ===== src/Cloud/Fake.antt =====
-- internal/cloud/fake.go: the in-memory Client. Its maps are association lists, and a loop over a
-- map goes through the list in order: Go leaves that order open.
use cluster_api_provider_ver.Base.{
  ℕ, suc, String, ◌<>◌, Bool, true, false, not, Option, none, some, List, [], ◌∷◌, ◌++◌, ◌==◌, ◌&&◌,
  if◌then◌else◌,
}
use cluster_api_provider_ver.Base.Int.{pos}
use cluster_api_provider_ver.Base.Text.{decimal}
use cluster_api_provider_ver.Base.Dict.{Dict, lookup, insert, erase, get_text}
use cluster_api_provider_ver.Base.Error.{sentinel, wrap, not_found, not_managed, hostname_in_use}
use cluster_api_provider_ver.Base.Act.{Act, Result, ok, err}
use cluster_api_provider_ver.Cloud.{
  Client, Instance, Volume, InstanceSpec, InstanceTypeInfo, tag_managed_by, managed_by_value,
  status_discontinued, volume_attached,
}

pub record Fake : Type 0 where
  pub next_id : ℕ
  pub instances : Dict Instance
  pub scripts : Dict String
  pub script_names : Dict String
  pub volumes : Dict Volume
  pub instance_types : Dict InstanceTypeInfo
  pub created : List InstanceSpec

abbrev instance_type_info : String → ℕ → ℕ → ℕ → String → InstanceTypeInfo
instance_type_info name cpus memory gpus model = record {
  instance_type = name;
  cpus = pos cpus;
  memory_gb = pos memory;
  gpus = pos gpus;
  gpu_model = model;
}

unfoldable pub new_fake : Fake
new_fake = record {
  next_id = 0;
  instances = [];
  scripts = [];
  script_names = [];
  volumes = [];
  instance_types =
      ("CPU.4V.16G", instance_type_info "CPU.4V.16G" 4 16 0 "")
      ∷ ("1H100.80S.30V", instance_type_info "1H100.80S.30V" 30 120 1 "H100")
      ∷ [];
  created = [];
}

abbrev pub of_option : {A : Type 0} → Option A → Result A
of_option none = err (sentinel not_found)
of_option (some a) = ok a

unfoldable pub get_instance_type : String → Act Fake InstanceTypeInfo
get_instance_type name f = (of_option (lookup name f.instance_types), f)

unfoldable pub get_instance : String → Act Fake Instance
get_instance id f = (of_option (lookup id f.instances), f)

-- The first match that is not discontinued, or else the last discontinued one.
unfoldable pub scan : (Instance → Bool) → Dict Instance → Option Instance → Option Instance
scan test [] gone = gone
scan test ((id, inst) ∷ rest) gone =
    let skip = scan test rest gone in
    let keep = scan test rest (some inst) in
    if not (test inst) then skip else if inst.status == status_discontinued then keep else some inst

unfoldable pub find_instance_by_hostname : String → Act Fake Instance
unfolding scan
find_instance_by_hostname hostname f =
    (of_option (scan (λ i. i.hostname == hostname) f.instances none), f)

unfoldable pub find_instance_by_tag : String → String → Act Fake Instance
unfolding scan
find_instance_by_tag key value f =
    (of_option (scan (λ i. get_text key i.tags == value) f.instances none), f)

abbrev blocks : String → Instance → Bool
blocks hostname i =
    i.hostname == hostname
    && not (i.status == status_discontinued)
    && not (get_text tag_managed_by i.tags == managed_by_value)

unfoldable pub find_blocker : String → Dict Instance → Option Instance
find_blocker hostname [] = none
find_blocker hostname ((id, i) ∷ rest) =
    let later = find_blocker hostname rest in if blocks hostname i then some i else later

-- Deletes the scripts of that name, from both maps.
unfoldable pub drop_scripts : String → Dict String → Fake → Fake
drop_scripts name [] f = f
drop_scripts name ((id, n) ∷ rest) f = drop_scripts name rest (
    if n == name
    then record f { scripts = erase id f.scripts; script_names = erase id f.script_names }
    else f)

abbrev script_id_of : InstanceSpec → ℕ → String
script_id_of spec n = if spec.startup_script == "" then "" else "script-" <> decimal n

abbrev new_instance : InstanceSpec → ℕ → Bool → Instance
new_instance spec n boots_volume = record {
  id = "inst-" <> decimal n;
  hostname = spec.hostname;
  status = "provisioning";
  ip = "";
  location = spec.location;
  instance_type = spec.instance_type;
  startup_script_id = script_id_of spec n;
  os_volume_id = if boots_volume then spec.image else "";
  tags = spec.tags;
}

abbrev attach_volume : String → String → Option Volume → Dict Volume → Dict Volume
attach_volume image id none volumes = volumes
attach_volume image id (some v) volumes =
    insert image (record v { status = volume_attached; instance_id = id }) volumes

abbrev is_found : {A : Type 0} → Option A → Bool
is_found none = false
is_found (some _) = true

abbrev add_script : InstanceSpec → ℕ → Fake → Fake
add_script spec n f = if spec.startup_script == "" then f else record f {
  scripts = insert ("script-" <> decimal n) spec.startup_script f.scripts;
  script_names = insert ("script-" <> decimal n) spec.hostname f.script_names;
}

-- What CreateInstance does once the hostname is free.
unfoldable pub add_instance : InstanceSpec → Fake → Instance × Fake
unfolding drop_scripts
add_instance spec f =
    let n = suc f.next_id in
    let g = add_script spec n (drop_scripts spec.hostname f.script_names f) in
    let found = lookup spec.image g.volumes in
    let inst = new_instance spec n (is_found found) in
    (
      inst,
      record g {
        next_id = n;
        created = g.created ++ (spec ∷ []);
        volumes = attach_volume spec.image inst.id found g.volumes;
        instances = insert inst.id inst g.instances;
      },
    )

unfoldable pub create_instance : InstanceSpec → Act Fake Instance
create_instance spec f = elim (find_blocker spec.hostname f.instances) [
  | some i ↦ (err (wrap ("instance " <> i.id) (sentinel hostname_in_use)), f)
  | none ↦ let (inst, g) = add_instance spec f in (ok inst, g)
]

unfoldable pub delete_instance : String → Act Fake (Unit {0})
delete_instance id f = elim (lookup id f.instances) [
  | none ↦ (ok tt, f)
  | some i ↦
      if not (get_text tag_managed_by i.tags == managed_by_value)
      then (err (sentinel not_managed), f)
      else (
        ok tt,
        record f {
          volumes = erase i.os_volume_id f.volumes;
          instances = insert id (record i { status = status_discontinued }) f.instances;
        },
      )
]

unfoldable pub purge_instance_volumes : String → Act Fake ℕ
purge_instance_volumes id f = elim (lookup id f.instances) [
  | none ↦ (ok 0, f)
  | some i ↦ (ok 0, record f { volumes = erase i.os_volume_id f.volumes })
]

unfoldable pub delete_startup_script : String → Act Fake (Unit {0})
delete_startup_script id f =
    (ok tt, record f { scripts = erase id f.scripts; script_names = erase id f.script_names })

unfoldable pub delete_startup_script_by_name : String → Act Fake (Unit {0})
delete_startup_script_by_name name f = (ok tt, drop_scripts name f.script_names f)

unfoldable pub get_volume : String → Act Fake Volume
get_volume id f = (of_option (lookup id f.volumes), f)

unfoldable pub pick_volume : String → Dict Volume → Option Volume
pick_volume name [] = none
pick_volume name ((id, v) ∷ rest) = if v.name == name then some v else pick_volume name rest

unfoldable pub find_volume_by_name : String → Act Fake Volume
find_volume_by_name name f = (of_option (pick_volume name f.volumes), f)

unfoldable pub clone_volume : String → String → String → Act Fake String
clone_volume source name location f = elim (lookup source f.volumes) [
  | none ↦ (err (sentinel not_found), f)
  | some src ↦
      let id = "vol-" <> decimal (suc f.next_id) in
      let clone : Volume = record {
        id = id;
        name = name;
        status = "cloning";
        location = location;
        is_os_volume = src.is_os_volume;
        instance_id = "";
        managed = true;
      } in
      (ok id, record f { next_id = suc f.next_id; volumes = insert id clone f.volumes })
]

unfoldable pub ensure_volume_tag : String → Act Fake (Unit {0})
ensure_volume_tag id f = elim (lookup id f.volumes) [
  | none ↦ (ok tt, f)
  | some v ↦ (ok tt, record f { volumes = insert id (record v { managed = true }) f.volumes })
]

abbrev is_unmanaged : Option Volume → Bool
is_unmanaged none = false
is_unmanaged (some v) = not v.managed

unfoldable pub delete_volume : String → Act Fake (Unit {0})
delete_volume id f =
    if is_unmanaged (lookup id f.volumes)
    then (err (sentinel not_managed), f)
    else (ok tt, record f { volumes = erase id f.volumes })

-- Reset, SetVolumeStatus and SetStatus, by which the tests drive the fake.
unfoldable pub reset : Fake → Fake
reset f = record f { created = [] }

unfoldable pub set_volume_status : String → String → Fake → Fake
set_volume_status id status f = elim (lookup id f.volumes) [
  | none ↦ f
  | some v ↦ record f { volumes = insert id (record v { status = status }) f.volumes }
]

unfoldable pub set_status : String → String → String → Fake → Fake
set_status id status ip f = elim (lookup id f.instances) [
  | none ↦ f
  | some i ↦ record f { instances = insert id (record i { status = status; ip = ip }) f.instances }
]

-- The methods of Fake, as the interface has them.
unfoldable pub fake_client : Client Fake
unfolding get_instance_type get_instance find_instance_by_hostname find_instance_by_tag
    create_instance delete_startup_script_by_name delete_instance purge_instance_volumes
    delete_startup_script get_volume find_volume_by_name clone_volume delete_volume
    ensure_volume_tag
fake_client = record {
  get_instance_type = get_instance_type;
  get_instance = get_instance;
  find_instance_by_hostname = find_instance_by_hostname;
  find_instance_by_tag = find_instance_by_tag;
  create_instance = create_instance;
  delete_startup_script_by_name = delete_startup_script_by_name;
  delete_instance = delete_instance;
  purge_instance_volumes = purge_instance_volumes;
  delete_startup_script = delete_startup_script;
  get_volume = get_volume;
  find_volume_by_name = find_volume_by_name;
  clone_volume = clone_volume;
  delete_volume = delete_volume;
  ensure_volume_tag = ensure_volume_tag;
}
