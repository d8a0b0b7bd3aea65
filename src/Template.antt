-- ===== src/Template.antt =====
-- internal/controller/verdamachinetemplate_controller.go: the capacity of a machine template, by which
-- the autoscaler scales from zero.
pub mod Capacity
use cluster_api_provider_ver.Base.{
  false, ◌^◌, some, ◌-◌, ℕ, [], ◌*◌, String, not, ◌<>◌, true, ◌∷◌, if◌then◌else◌, ◌&&◌, ◌+◌, none,
  ◌==◌, Bool,
}
use cluster_api_provider_ver.Cloud.Factory.{Identity}
use cluster_api_provider_ver.Base.Dict.{insert, Dict, lookup}
use cluster_api_provider_ver.Platform.{requeue, Library, minutes, Cluster, done, Outcome}
use cluster_api_provider_ver.Base.Error.{not_found, kube_not_found, error_text, errors_is}
use cluster_api_provider_ver.Base.Act.{handle, ◌>>=◌, Act, pure, ◌>>◌, err, ok, raise}
use cluster_api_provider_ver.Base.Int.{negsuc, ℤ, pos, is_positive}
use cluster_api_provider_ver.Api.{
  capacity_ready_condition, VerdaCluster, Condition, identity_secret_name, VerdaMachineTemplate,
}
use cluster_api_provider_ver.Machine.{join_errors}
use cluster_api_provider_ver.Cloud.{Client, InstanceTypeInfo}

abbrev pub hours : ℕ → ℕ
hours n = minutes (n * 60)

abbrev pub capacity_resync_interval : ℕ
capacity_resync_interval = hours 12

abbrev pub gpu_resource_name : String
gpu_resource_name = "nvidia.com/gpu"

abbrev pub cluster_name_label : String
cluster_name_label = "cluster.x-k8s.io/cluster-name"

-- VerdaMachineTemplateReconciler: its Kubernetes client, the cloud factory, and the libraries.
pub record TemplateReconciler (W : Type 0) : Type 0 where
  pub get_template : String → String → Act W VerdaMachineTemplate
  pub get_cluster : String → String → Act W Cluster
  pub get_verda_cluster : String → String → Act W VerdaCluster
  pub new_patch_helper : VerdaMachineTemplate → Act W (Unit {0})
  -- The object as the helper was given it, and as it is now.
  pub patch : VerdaMachineTemplate → VerdaMachineTemplate → Act W (Unit {0})
  pub client_for : Identity → Act W (Client W)
  -- Whether the cluster's infrastructureRef is set.
  pub is_defined : Cluster → Bool
  pub lib : Library

-- int64(n) << 30; the product of an int32 and 2^30 is within int64.
abbrev pub shift_gib : ℤ → ℤ
shift_gib (pos n) = pos (n * 2 ^ 30)
shift_gib (negsuc n) = negsuc ((n + 1) * 2 ^ 30 - 1)

-- A ResourceList is written with the resource's name and the value of its quantity.
unfoldable pub capacity_for : InstanceTypeInfo → Dict ℤ
capacity_for info =
    let base = ("cpu", info.cpus) ∷ ("memory", shift_gib info.memory_gb) ∷ [] in
    if is_positive info.gpus then insert gpu_resource_name info.gpus base else base

-- The template that the Go code mutates in place, and the world.
pub record TemplateState (W : Type 0) : Type 0 where
  pub template : VerdaMachineTemplate
  pub world : W

module _ {W : Type 0} (k : TemplateReconciler W) where
  abbrev pub add_condition : Condition → VerdaMachineTemplate → VerdaMachineTemplate
  add_condition c t = record t {
    status = record t.status { conditions = k.lib.set_condition t.status.conditions c };
  }

  abbrev pub set_capacity_not_ready : String → String → VerdaMachineTemplate → VerdaMachineTemplate
  set_capacity_not_ready reason message = add_condition (record {
    kind = capacity_ready_condition;
    status = false;
    reason = reason;
    message = message;
  })

  abbrev pub capacity_ready : Condition
  capacity_ready = record {
    kind = capacity_ready_condition;
    status = true;
    reason = k.lib.ready_reason;
    message = "";
  }

  abbrev pub publish : InstanceTypeInfo → VerdaMachineTemplate → VerdaMachineTemplate
  publish info t = add_condition capacity_ready (record t {
    status = record t.status {
      capacity = capacity_for info;
      node_info = record { architecture = "amd64"; operating_system = "linux" };
    };
  })

  abbrev with_secret : VerdaMachineTemplate → String → Identity
  with_secret t name = record { namespace = t.metadata.namespace; secret_name = name }

  -- The name of the secret of the template's cluster; "" where anything on the way is missing.
  unfoldable pub identity_of : VerdaMachineTemplate → Act W Identity
  identity_of t = elim (lookup cluster_name_label t.metadata.labels) [
    | none ↦ pure (with_secret t "")
    | some name ↦
        handle (k.get_cluster t.metadata.namespace name) (λ _. pure (with_secret t ""))
          λ cluster.
            if not (k.is_defined cluster)
            then pure (with_secret t "")
            else handle (k.get_verda_cluster t.metadata.namespace cluster.infrastructure_ref_name)
                (λ _. pure (with_secret t "")) λ vc. pure (with_secret t (identity_secret_name vc))
  ]

  -- What follows the client, on the template.
  unfoldable pub observe : Client W → Act (TemplateState W) Outcome
  observe cloud s =
      let (r, w) = cloud.get_instance_type s.template.spec.instance_type s.world in
      elim r [
        | ok info ↦ (
          ok (requeue capacity_resync_interval),
          record { template = publish info s.template; world = w },
        )
        | err e ↦
            if errors_is not_found e
            then (
              ok (requeue capacity_resync_interval),
              record {
                template =
                    set_capacity_not_ready "UnknownInstanceType"
                      ("instance type \"" <> s.template.spec.instance_type
                        <> "\" is not in the Verda catalog")
                      s.template;
                world = w;
              },
            )
            else (
              err e,
              record {
                template = set_capacity_not_ready "CatalogUnavailable" (error_text e) s.template;
                world = w;
              },
            )
      ]

  -- Between the patch helper and the deferred patch.
  unfoldable pub reconcile_capacity : Act (TemplateState W) Outcome
  reconcile_capacity s =
      let (r, w) = (identity_of s.template >>= k.client_for) s.world in
      elim r [
        | ok cloud ↦ observe cloud (record s { world = w })
        | err e ↦ (
          err e,
          record {
            template = set_capacity_not_ready "CredentialsUnavailable" (error_text e) s.template;
            world = w;
          },
        )
      ]

  abbrev is_deleted : VerdaMachineTemplate → Bool
  is_deleted t = elim t.metadata.deletion_timestamp [ none ↦ false | some _ ↦ true ]

  -- The deferred call: the template is patched whatever the body returned.
  unfoldable pub patch_after : VerdaMachineTemplate → Act W Outcome
  patch_after t w =
      let (r, s) = reconcile_capacity (record { template = t; world = w }) in
      let (p, w') = k.patch t s.template s.world in (join_errors r p, w')

  unfoldable pub reconcile_template : String → String → Act W Outcome
  reconcile_template namespace name =
      handle (k.get_template namespace name) (λ e. if kube_not_found e then pure done else raise e)
        λ t. if is_deleted t then pure done else (k.new_patch_helper t >> patch_after t)
