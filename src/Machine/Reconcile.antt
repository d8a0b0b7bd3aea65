-- ===== src/Machine/Reconcile.antt =====
-- verdamachine_controller.go: Reconcile and reconcileOrphanDelete, with the deferred patch.
use cluster_api_provider_ver.Base.{
  String, Bool, true, false, not, Option, none, some, ◌||◌, if◌then◌else◌, List,
}
use cluster_api_provider_ver.Base.Dict.{Dict}
use cluster_api_provider_ver.Base.Error.{Error, join, kube_not_found, error_text}
use cluster_api_provider_ver.Base.Act.{Act, Result, ok, err, pure, raise, handle, ◌>>=◌, ◌>>◌}
use cluster_api_provider_ver.Api.{
  VerdaMachine, VerdaCluster, ObjectMeta, Condition, identity_secret_name, machine_finalizer,
  instance_ready_condition,
}
use cluster_api_provider_ver.Cloud.{Client}
use cluster_api_provider_ver.Platform.{Library, Clock, Outcome, done, Cluster, Machine}
use cluster_api_provider_ver.Machine.Helpers.{MachineScope, MachineState, lift}
use cluster_api_provider_ver.Machine.Provision.{reconcile_normal}
use cluster_api_provider_ver.Machine.Deletion.{reconcile_delete}
use cluster_api_provider_ver.Cloud.Factory.{Identity}

-- VerdaMachineReconciler: its Kubernetes client, the cloud factory, and the libraries.
pub record MachineReconciler (W : Type 0) : Type 0 where
  pub get_machine : String → String → Act W VerdaMachine
  pub get_verda_cluster : String → String → Act W VerdaCluster
  pub get_secret : String → String → Act W (Dict String)
  pub ensure_finalizer : VerdaMachine → String → Act W Bool
  pub get_owner_machine : ObjectMeta → Act W (Option Machine)
  pub get_cluster_from_metadata : Machine → Act W Cluster
  -- Whether the object is paused, and whether to come back.
  pub ensure_paused_condition : Cluster → VerdaMachine → Act W (Bool × Bool)
  pub new_patch_helper : VerdaMachine → Act W (Unit {0})
  -- The object as the helper was given it, and as it is now.
  pub patch : VerdaMachine → VerdaMachine → Act W (Unit {0})
  pub client_for : Identity → Act W (Client W)
  pub lib : Library
  pub clock : Clock W
  pub to_startup_script : String → String → Act W (String × List String)

abbrev is_deleting : VerdaMachine → Bool
is_deleting vm = elim vm.metadata.deletion_timestamp [ none ↦ false | some _ ↦ true ]

-- kerrorsJoin
abbrev pub join_errors : {A : Type 0} → Result A → Result (Unit {0}) → Result A
join_errors (ok a) (ok _) = ok a
join_errors (ok a) (err b) = err b
join_errors (err a) (ok _) = err a
join_errors (err a) (err b) = err (join a b)

module _ {W : Type 0} (k : MachineReconciler W) where
  abbrev scope : Client W → MachineScope W
  scope cloud = record {
    cloud = cloud;
    lib = k.lib;
    clock = k.clock;
    get_secret = k.get_secret;
    to_startup_script = k.to_startup_script;
  }

  -- The Ready condition that patchVerdaMachine derives.
  unfoldable pub ready_of : VerdaMachine → Condition
  ready_of vm =
      if is_deleting vm
      then record {
        kind = k.lib.ready_condition;
        status = false;
        reason = k.lib.deleting_reason;
        message = "";
      }
      else if not (k.lib.is_true vm.status.conditions instance_ready_condition)
      then record {
        kind = k.lib.ready_condition;
        status = false;
        reason = k.lib.not_ready_reason;
        message = k.lib.get_message vm.status.conditions instance_ready_condition;
      }
      else record {
        kind = k.lib.ready_condition;
        status = true;
        reason = k.lib.ready_reason;
        message = "";
      }

  unfoldable pub summarize : VerdaMachine → VerdaMachine
  summarize vm = record vm {
    status = record vm.status {
      conditions = k.lib.set_condition vm.status.conditions (ready_of vm);
    };
  }

  -- The deferred call: the object is patched whatever the body returned, and the errors are joined.
  unfoldable pub with_patch : VerdaMachine → Act (MachineState W) Outcome → Act W Outcome
  with_patch vm body w =
      let (r, s) = body (record { vm = vm; world = w }) in
      let (p, w') = k.patch vm (summarize s.vm) s.world in (join_errors r p, w')

  unfoldable pub reconcile_orphan_delete : VerdaMachine → Act W Outcome
  reconcile_orphan_delete vm = do
    k.new_patch_helper vm
    with_patch vm (
        lift (k.client_for (record { namespace = vm.metadata.namespace; secret_name = "" }))
        >>= λ cloud. reconcile_delete (scope cloud))

  -- The VerdaCluster, or nothing where there is none.
  unfoldable pub find_cluster : VerdaMachine → Cluster → Act W (Option VerdaCluster)
  find_cluster vm cluster =
      handle (k.get_verda_cluster vm.metadata.namespace cluster.infrastructure_ref_name)
        (λ e. if not (kube_not_found e) then raise e else pure none) λ vc. pure (some vc)

  abbrev secret_of : Option VerdaCluster → String
  secret_of none = ""
  secret_of (some vc) = identity_secret_name vc

  abbrev no_credentials : Error → Act (MachineState W) (Client W)
  no_credentials e s = (err e, record s { vm = unready s.vm })
    where
      unready : VerdaMachine → VerdaMachine
      unready vm = record vm {
        status = record vm.status {
          conditions = k.lib.set_condition vm.status.conditions (record {
            kind = instance_ready_condition;
            status = false;
            reason = "CredentialsUnavailable";
            message = error_text e;
          });
        };
      }

  -- A machine that is not being deleted does not get here without a VerdaCluster.
  abbrev run_scope :
      Cluster → Machine → Bool → Option VerdaCluster → Client W → Act (MachineState W) Outcome
  run_scope cluster machine true vc cloud = reconcile_delete (scope cloud)
  run_scope cluster machine false none cloud = pure done
  run_scope cluster machine false (some vc) cloud =
      reconcile_normal (scope cloud) cluster vc machine

  -- From the patch helper on, with the VerdaCluster that there is.
  unfoldable pub reconcile_scope :
      VerdaMachine → Cluster → Machine → Option VerdaCluster → Act W Outcome
  reconcile_scope vm cluster machine vc = do
    k.new_patch_helper vm
    with_patch vm (
        handle
          (lift (
            k.client_for
              (record { namespace = vm.metadata.namespace; secret_name = secret_of vc })))
          no_credentials pure
        >>= run_scope cluster machine (is_deleting vm) vc)

  abbrev go_on : VerdaMachine → Cluster → Machine → Option VerdaCluster → Act W Outcome
  go_on vm cluster machine (some vc) = reconcile_scope vm cluster machine (some vc)
  go_on vm cluster machine none =
      if not (is_deleting vm) then pure done else reconcile_scope vm cluster machine none

  unfoldable pub reconcile_owned : VerdaMachine → Machine → Act W Outcome
  reconcile_owned vm machine = do
    cluster ← k.get_cluster_from_metadata machine
    paused ← k.ensure_paused_condition cluster vm
    if paused.0 || paused.1
        then pure done
        else (do vc ← find_cluster vm cluster; go_on vm cluster machine vc)

  abbrev reconcile_of : VerdaMachine → Option Machine → Act W Outcome
  reconcile_of vm (some machine) = reconcile_owned vm machine
  reconcile_of vm none = if is_deleting vm then reconcile_orphan_delete vm else pure done

  unfoldable pub reconcile_found : VerdaMachine → Act W Outcome
  reconcile_found vm = do
    added ← k.ensure_finalizer vm machine_finalizer
    if added then pure done else (do owner ← k.get_owner_machine vm.metadata; reconcile_of vm owner)

  unfoldable pub reconcile : String → String → Act W Outcome
  reconcile namespace name =
      handle (k.get_machine namespace name) (λ e. if kube_not_found e then pure done else raise e)
        reconcile_found
