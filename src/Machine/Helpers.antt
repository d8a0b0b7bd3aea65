-- ===== src/Machine/Helpers.antt =====
-- verdamachine_controller.go: the scope of a reconciliation, its state, and the helpers.
use Prim.Native.String.{len, slice}
use cluster_api_provider_ver.Base.{
  ℕ, ◌-◌, String, ◌<>◌, Bool, true, false, not, Option, none, some, List, [], ◌∷◌, ◌==◌, ◌&&◌, ◌||◌,
  ltb, if◌then◌else◌,
}
use cluster_api_provider_ver.Base.Text.{to_lower, cut}
use cluster_api_provider_ver.Base.Dict.{Dict, insert, get_text}
use cluster_api_provider_ver.Base.Error.{errors_is, not_found}
use cluster_api_provider_ver.Base.Act.{ok, Act, pure, raise, handle}
use cluster_api_provider_ver.Api.{
  VerdaMachine, Condition, MachineAddress, host_name, external_ip, internal_ip,
  instance_ready_condition,
}
use cluster_api_provider_ver.Cloud.{
  Client, Instance, bare_instance, tag_machine, status_not_found, status_discontinued,
  status_deleted,
}
use cluster_api_provider_ver.Platform.{Library, Clock, seconds, minutes}

abbrev pub instance_poll_interval : ℕ
instance_poll_interval = seconds 15

abbrev pub delete_poll_interval : ℕ
delete_poll_interval = seconds 10

abbrev pub instance_resync_interval : ℕ
instance_resync_interval = minutes 5

abbrev pub no_capacity_retry_interval : ℕ
no_capacity_retry_interval = minutes 2

abbrev pub delete_retry_interval : ℕ
delete_retry_interval = seconds 20

abbrev pub delete_requested_annotation : String
delete_requested_annotation = "verda.cluster.x-k8s.io/delete-requested-at"

-- machineScope: the client of the cluster's account, and what the reconciler takes from libraries.
pub record MachineScope (W : Type 0) : Type 0 where
  pub cloud : Client W
  pub lib : Library
  pub clock : Clock W
  pub get_secret : String → String → Act W (Dict String)
  -- bootstrap.ToStartupScript: the script, and the sections that it left out.
  pub to_startup_script : String → String → Act W (String × List String)

-- The VerdaMachine that the Go code mutates in place, and the world.
pub record MachineState (W : Type 0) : Type 0 where
  pub vm : VerdaMachine
  pub world : W

module _ {W A : Type 0} where
  abbrev pub lift : Act W A → Act (MachineState W) A
  lift m s = let (r, w) = m s.world in (r, record s { world = w })

abbrev pub edit : {W : Type 0} → (VerdaMachine → VerdaMachine) → Act (MachineState W) (Unit {0})
edit f s = (ok tt, record s { vm = f s.vm })

-- fmt's %q, for a text with nothing to escape.
abbrev pub quoted : String → String
quoted s = "\"" <> s <> "\""

abbrev pub annotation_key : String → String
annotation_key suffix =
    if suffix == ""
    then delete_requested_annotation
    else delete_requested_annotation <> "-" <> suffix

abbrev recent : {W : Type 0} → Clock W → ℕ → String → Bool
recent clock now at = elim (clock.parse at) [
  | none ↦ false
  | some last ↦ ltb (now - last) delete_retry_interval
]

-- A request for this state was recorded less than the retry interval before `now`.
unfoldable pub recently_requested :
    {W : Type 0} → Clock W → ℕ → Dict String → String → String → Bool
recently_requested clock now annotations key state = elim (cut b'@' (get_text key annotations)) [
  | none ↦ false
  | some (last_state, last_at) ↦ last_state == state && recent clock now last_at
]

-- deleteRequestDue: whether a request is due at `now`, and the annotations after the call, which
-- record the request at the instant `stamp` where it is.
unfoldable pub delete_request_due :
    {W : Type 0} → Clock W → ℕ → ℕ → Dict String → String → String → Bool × Dict String
unfolding recently_requested
delete_request_due clock now stamp annotations suffix state =
    let key = annotation_key suffix in
    if recently_requested clock now annotations key state
    then (false, annotations)
    else (true, insert key (state <> "@" <> clock.format stamp) annotations)

unfoldable pub instance_gone : Instance → Bool
instance_gone i =
    i.status == status_not_found || i.status == status_discontinued || i.status == status_deleted

unfoldable pub truncate_tag : String → String
truncate_tag v = to_lower (if ltb 127 (len v) then slice v 0 127 else v)

unfoldable pub machine_tag_value : VerdaMachine → String
unfolding truncate_tag
machine_tag_value vm = truncate_tag (vm.metadata.namespace <> "/" <> vm.metadata.name)

unfoldable pub instance_addresses : Instance → List MachineAddress
instance_addresses i =
    record { kind = host_name; address = i.hostname }
    ∷ (if not (i.ip == "")
        then record { kind = external_ip; address = i.ip }
          ∷ record { kind = internal_ip; address = i.ip }
          ∷ []
        else [])

module _ {W : Type 0} (r : MachineScope W) where
  abbrev pub set_condition : Condition → VerdaMachine → VerdaMachine
  set_condition c vm = record vm {
    status = record vm.status { conditions = r.lib.set_condition vm.status.conditions c };
  }

  abbrev pub set_instance_ready_false : String → String → VerdaMachine → VerdaMachine
  set_instance_ready_false reason message = set_condition (record {
    kind = instance_ready_condition;
    status = false;
    reason = reason;
    message = message;
  })

  abbrev pub running_condition : Condition
  running_condition = record {
    kind = instance_ready_condition;
    status = true;
    reason = r.lib.ready_reason;
    message = "";
  }

  abbrev pub set_instance_ready_true : VerdaMachine → VerdaMachine
  set_instance_ready_true = set_condition running_condition

  abbrev by_id : String → Act W (Option Instance)
  by_id id =
      handle (r.cloud.get_instance id)
        (λ e.
          if not (errors_is not_found e)
          then raise e
          else pure (some (bare_instance id status_not_found)))
        λ inst. pure (some inst)

  abbrev by_tag : VerdaMachine → Act W (Option Instance)
  by_tag vm =
      handle (r.cloud.find_instance_by_tag tag_machine (machine_tag_value vm))
        (λ e. if errors_is not_found e then pure none else raise e)
        λ inst. if instance_gone inst then pure none else pure (some inst)

  -- findInstance: by the recorded id, or else by the machine's tag.
  unfoldable pub find_instance : VerdaMachine → Act W (Option Instance)
  find_instance vm =
      if not (vm.status.instance_id == "") then by_id vm.status.instance_id else by_tag vm
