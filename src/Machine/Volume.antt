-- ===== src/Machine/Volume.antt =====
-- verdamachine_controller.go: the per-machine clone of the OS volume.
use mathlib.Core.Option
use cluster_api_provider_ver.Base.{
  ◌≡◌, refl, zero, suc, true, List, [], ◌∷◌, leb, nat_eq, ℕ, ◌&&◌, false, String, ◌<>◌, Bool, true,
  false, not, Option, none, some, ◌==◌, ◌&&◌, ◌||◌, if◌then◌else◌,
}
use cluster_api_provider_ver.Base.Text.{codes, to_lower}
use cluster_api_provider_ver.Base.Error.{Error, plain, errors_is, error_text, not_found}
use cluster_api_provider_ver.Base.Act.{Act, pure, raise, handle, gets, ◌>>=◌, ◌>>◌}
use cluster_api_provider_ver.Api.{VerdaMachine, VerdaCluster, Condition, os_volume_ready_condition}
use cluster_api_provider_ver.Cloud.{
  Volume, volume_detached, volume_attached, volume_deleting, volume_deleted,
}
use cluster_api_provider_ver.Machine.Helpers.{
  MachineScope, MachineState, lift, edit, quoted, set_condition,
}

unfoldable pub os_volume_name : VerdaMachine → String
os_volume_name vm = vm.metadata.namespace <> "-" <> vm.metadata.name <> "-os"

abbrev os_volume_condition : Bool → String → String → Condition
os_volume_condition status reason message = record {
  kind = os_volume_ready_condition;
  status = status;
  reason = reason;
  message = message;
}

abbrev pub set_os_volume_id : String → VerdaMachine → VerdaMachine
set_os_volume_id id vm = record vm { status = record vm.status { os_volume_id = id } }

-- &cloud.Volume{ID: id, Name: name, Status: "cloning"}
abbrev cloning_volume : String → String → Volume
cloning_volume id name = record {
  id = id;
  name = name;
  status = "cloning";
  location = "";
  is_os_volume = false;
  instance_id = "";
  managed = false;
}

abbrev is_hex : ℕ → Bool
is_hex c = leb b'0' c && leb c b'9' || leb b'a' c && leb c b'f'

-- [0-9a-f]{n}, and what follows it.
match_hex : ℕ → List ℕ → Option (List ℕ)
match_hex zero s = some s
match_hex (suc n) [] = none
match_hex (suc n) (c ∷ s) = if is_hex c then match_hex n s else none

abbrev match_dash : List ℕ → Option (List ℕ)
match_dash [] = none
match_dash (c ∷ s) = if nat_eq c b'-' then some s else none

-- The groups of hexadecimal digits of the given lengths, with dashes between, and nothing more.
match_groups : List ℕ → List ℕ → Bool
match_groups [] s = false
match_groups (n ∷ []) s = elim (match_hex n s) [ some [] ↦ true | _ ↦ false ]
match_groups (n ∷ m ∷ ns) s = elim (Option.bind (match_hex n s) match_dash) [
  | none ↦ false
  | some rest ↦ match_groups (m ∷ ns) rest
]

-- uuidRe.MatchString
unfoldable pub is_uuid : String → Bool
unfolding match_groups match_hex Option.bind
is_uuid s = match_groups (8 ∷ 4 ∷ 4 ∷ 4 ∷ 12 ∷ []) (codes s)

is_uuid_ok :
    (is_uuid "0b9c2f9e-6f1a-4c8e-9b8e-3d9a1f0c2b7d" ≡ true)
    × (is_uuid "0b9c2f9e-6f1a-4c8e-9b8e-3d9a1f0c2b7" ≡ false)
    × (is_uuid "node-image" ≡ false)
unfolding is_uuid
is_uuid_ok = (refl, refl, refl)

module _ {W : Type 0} (r : MachineScope W) where
  abbrev resolve_by_name : String → Act W String
  resolve_by_name name =
      handle (r.cloud.find_volume_by_name name)
        (λ e.
          if errors_is not_found e
          then raise (plain ("OS volume " <> quoted name <> " not found by ID or name"))
          else raise e)
        λ volume.
          if not volume.is_os_volume
          then raise
              (plain ("volume " <> quoted name <> " (" <> volume.id <> ") is not an OS volume"))
          else pure volume.id

  unfoldable pub resolve_os_volume : String → Act W String
  resolve_os_volume id_or_name =
      if is_uuid (to_lower id_or_name)
      then (handle (r.cloud.get_volume id_or_name)
          (λ e. if not (errors_is not_found e) then raise e else resolve_by_name id_or_name)
          λ _. pure id_or_name)
      else resolve_by_name id_or_name

  -- The clone that is recorded, or else one of the expected name.
  unfoldable pub find_os_volume : VerdaMachine → Act W (Option Volume)
  find_os_volume vm =
      handle
        (if not (vm.status.os_volume_id == "")
          then r.cloud.get_volume vm.status.os_volume_id
          else r.cloud.find_volume_by_name (os_volume_name vm))
        (λ e. if not (errors_is not_found e) then raise e else pure none)
        λ volume. pure (some volume)

  abbrev fail_with : {A : Type 0} → String → Error → Act (MachineState W) A
  fail_with reason e =
      edit (set_condition r (os_volume_condition false reason (error_text e))) >> raise e

  unfoldable pub clone_os_volume : VerdaCluster → Act (MachineState W) Volume
  clone_os_volume cluster = do
    vm ← gets (λ s. s.vm)
    source ←
        handle (lift (resolve_os_volume vm.spec.os_volume_id)) (fail_with "SourceVolumeNotFound")
          pure
    id ←
        handle (lift (r.cloud.clone_volume source (os_volume_name vm) cluster.spec.location))
          (fail_with "CloneFailed") pure
    edit (set_os_volume_id id)
    pure (cloning_volume id (os_volume_name vm))

  -- A failure to tag is retried later.
  unfoldable pub tag_os_volume : Volume → Act (MachineState W) Volume
  tag_os_volume volume =
      if not volume.managed
      then (handle (lift (r.cloud.ensure_volume_tag volume.id)) (λ _. pure volume)
          λ _. pure (record volume { managed = true }))
      else pure volume

  unfoldable pub volume_condition : Volume → Condition
  volume_condition volume =
      if volume.status == volume_detached || volume.status == volume_attached
      then if not volume.managed
        then os_volume_condition false "Tagging"
            ("OS volume " <> volume.id <> " is available but not yet tagged")
        else os_volume_condition true r.lib.ready_reason ""
      else os_volume_condition false "Cloning"
          ("OS volume " <> volume.id <> " is in state " <> quoted volume.status)

  unfoldable pub ensure_os_volume : VerdaCluster → Act (MachineState W) Volume
  ensure_os_volume cluster = do
    vm ← gets (λ s. s.vm)
    found ← lift (find_os_volume vm)
    volume ← elim found [ some v ↦ pure v | none ↦ clone_os_volume cluster ]
    edit (set_os_volume_id volume.id)
    tagged ← tag_os_volume volume
    edit (set_condition r (volume_condition tagged))
    pure tagged

  abbrev os_volume_ready : VerdaMachine → VerdaMachine
  os_volume_ready = set_condition r (os_volume_condition true r.lib.ready_reason "")

  abbrev tag_found_volume : Volume → Act (MachineState W) (Unit {0})
  tag_found_volume volume =
      if not volume.managed
      then (handle (lift (r.cloud.ensure_volume_tag volume.id)) (λ _. pure tt)
          λ _. edit os_volume_ready)
      else edit os_volume_ready

  -- ensureOSVolumeTag, which has no result: what fails is left for the next reconciliation.
  unfoldable pub ensure_os_volume_tag : Act (MachineState W) (Unit {0})
  ensure_os_volume_tag = do
    vm ← gets (λ s. s.vm)
    if vm.status.os_volume_id == "" || r.lib.is_true vm.status.conditions os_volume_ready_condition
        then pure tt
        else handle (lift (r.cloud.get_volume vm.status.os_volume_id)) (λ _. pure tt)
            tag_found_volume

  abbrev forget_os_volume : Act (MachineState W) (Unit {0})
  forget_os_volume = edit (set_os_volume_id "")

  -- What deleteOSVolume does with the volume that it found under the recorded id.
  unfoldable pub delete_found_volume : String → Volume → Act (MachineState W) (Unit {0})
  delete_found_volume id volume = do
    vm ← gets (λ s. s.vm)
    if not (volume.name == os_volume_name vm)
        then forget_os_volume
        else if not (volume.status == volume_deleting) && not (volume.status == volume_deleted)
        then (lift (r.cloud.delete_volume id) >> forget_os_volume)
        else forget_os_volume

  unfoldable pub delete_os_volume : Act (MachineState W) (Unit {0})
  delete_os_volume = do
    vm ← gets (λ s. s.vm)
    if vm.status.os_volume_id == ""
        then pure tt
        else handle (lift (r.cloud.get_volume vm.status.os_volume_id))
            (λ e. if errors_is not_found e then forget_os_volume else raise e)
            (delete_found_volume vm.status.os_volume_id)
