-- ===== src/Machine/Oversized.antt =====
-- reconcileNormal over bootstrap.ToStartupScript: no script that is too large.
use cluster_api_provider_ver.Base.{
  arith, none, not, refl, Option, ◌≡◌, ◌==◌, ◌<>◌, ap, some, String, false,
}
use cluster_api_provider_ver.Machine.Volume.{
  find_os_volume, tag_os_volume, ensure_os_volume, ensure_os_volume_tag, volume_condition,
  clone_os_volume, resolve_os_volume,
}
use cluster_api_provider_ver.Machine.Provision.{
  create_instance, resync_instance, create_and_track, get_bootstrap_data, provision, create_failed,
  track_instance, reconcile_normal, boot_clone, ensure_instance, settle, adopt_or_provision,
  instance_spec,
}
use cluster_api_provider_ver.Machine.Scripts.{
  len-bootstrapped, bootstrapping, converted, create_with, wrapped_ok, AgreeOnSmall, NoScripts,
  bootstrapped,
}
use cluster_api_provider_ver.Base.Act.{ok, raise, pure, err, Result, Act}
use cluster_api_provider_ver.Base.Error.{plain, wrap}
use cluster_api_provider_ver.Base.Dict.{Dict, lookup}
use cluster_api_provider_ver.Api.{VerdaMachine, is_set, VerdaCluster}
use cluster_api_provider_ver.Cloud.{InstanceSpec, volume_detached, Volume, Instance}
use cluster_api_provider_ver.Machine.Helpers.{
  quoted, lift, MachineState, find_instance, MachineScope,
}
use cluster_api_provider_ver.Platform.{Cluster, Machine}
use cluster_api_provider_ver.Base.Outcomes.{outcome_of}
use cluster_api_provider_ver.Bootstrap.{fill_placeholders, hostname_placeholders, Formats}
use cluster_api_provider_ver.Base.TextEdit.{trim_space}
use cluster_api_provider_ver.Base.Outcomes.{choose-value, handle-same}
use cluster_api_provider_ver.Base.Text.{has_prefix}

module _ {W : Type 0} (l : Formats) (r : MachineScope W) (c c' : InstanceSpec → Act W Instance)
    (agree : AgreeOnSmall c c') where
  value_of_secret :
      (x : Result (Dict String) × W) (namespace name text : String) (w : W)
      → outcome_of
          (λ e. raise (wrap ("getting bootstrap data secret " <> namespace <> "/" <> name) e))
          (λ secret. elim (lookup "value" secret) [
            | none ↦ raise (
                plain (
                  "bootstrap data secret "
                  <> (namespace <> "/" <> name)
                  <> " has no "
                  <> quoted "value"
                  <> " key"))
            | some text ↦ pure text
          ])
          x
        ≡ (ok text, w)
      → (secret : Dict String) × (x.0 ≡ ok secret) × (lookup "value" secret ≡ some text)
  value_of_secret (err e, v) namespace name text w p = ground arith
  value_of_secret (ok secret, v) namespace name text w p = (secret, refl, ground (arith, p))

  data_unscripted :
      (machine : Machine) (secret_name hostname text : String) (w w' : W)
      → NoScripts r machine.namespace secret_name
      → get_bootstrap_data r machine secret_name w ≡ (ok text, w')
      → has_prefix (trim_space (fill_placeholders hostname_placeholders text hostname)) "#!" ≡ false
  unfolding get_bootstrap_data
  data_unscripted machine secret_name hostname text w w' none_is p =
      let x = r.get_secret machine.namespace secret_name w in
      let (secret, got, found) = value_of_secret x machine.namespace secret_name text w' p in
      none_is hostname text secret w x.1 (ap (λ o. (o, x.1)) got) found

  create_with-agree :
      (text hostname : String) (spec : String → InstanceSpec) (w : W)
      → ((script : String) → (spec script).startup_script ≡ script)
      → has_prefix (trim_space (fill_placeholders hostname_placeholders text hostname)) "#!" ≡ false
      → create_with l c text hostname spec w ≡ create_with l c' text hostname spec w
  create_with-agree text hostname spec w kept h =
      handle-same raise (λ made. c (spec made.0)) (λ made. c' (spec made.0))
        (converted l text hostname) (converted l text hostname) w refl
        λ made w' q. agree (spec made.0) w' (
          rw (kept made.0) (
            len-bootstrapped l text hostname h made w w'
              (wrapped_ok l (bootstrapped l text hostname w) made w' q)))

  create_instance-agree :
      (cluster : Cluster) (vc : VerdaCluster) (machine : Machine) (vm : VerdaMachine)
      (secret_name boot_from : String) (w : W)
      → NoScripts r machine.namespace secret_name
      → create_instance (bootstrapping l r c) cluster vc machine vm secret_name boot_from w
        ≡ create_instance (bootstrapping l r c') cluster vc machine vm secret_name boot_from w
  unfolding create_instance get_bootstrap_data instance_spec
  create_instance-agree cluster vc machine vm secret_name boot_from w none_is =
      let spec = instance_spec r cluster vc machine vm boot_from in
      handle-same raise (λ text. create_with l c text vm.metadata.name spec)
        (λ text. create_with l c' text vm.metadata.name spec)
        (get_bootstrap_data r machine secret_name) (get_bootstrap_data r machine secret_name) w refl
        λ text w' p.
          create_with-agree text vm.metadata.name spec w' (λ script. refl)
            (data_unscripted machine secret_name vm.metadata.name text w w' none_is p)

  create_and_track-agree :
      (cluster : Cluster) (vc : VerdaCluster) (machine : Machine) (secret_name boot_from : String)
      (s : MachineState W)
      → NoScripts r machine.namespace secret_name
      → create_and_track (bootstrapping l r c) cluster vc machine secret_name boot_from s
        ≡ create_and_track (bootstrapping l r c') cluster vc machine secret_name boot_from s
  unfolding create_and_track track_instance ensure_os_volume_tag settle
  create_and_track-agree cluster vc machine secret_name boot_from s none_is =
      handle-same (create_failed r) (track_instance r vc) (track_instance r vc)
        (lift (create_instance (bootstrapping l r c) cluster vc machine s.vm secret_name boot_from))
        (lift
          (create_instance (bootstrapping l r c') cluster vc machine s.vm secret_name boot_from))
        s
        (ap (λ (x : Result Instance × W). (x.0, record s { world = x.1 }))
          (create_instance-agree cluster vc machine s.vm secret_name boot_from s.world none_is))
        λ i t p. refl

  boot_clone-agree :
      (cluster : Cluster) (vc : VerdaCluster) (machine : Machine) (secret_name : String)
      (volume : Volume) (s : MachineState W)
      → NoScripts r machine.namespace secret_name
      → boot_clone (bootstrapping l r c) cluster vc machine secret_name volume s
        ≡ boot_clone (bootstrapping l r c') cluster vc machine secret_name volume s
  unfolding boot_clone
  boot_clone-agree cluster vc machine secret_name volume s none_is =
      choose-value (not (volume.status == volume_detached)) refl
        (create_and_track-agree cluster vc machine secret_name volume.id s none_is)

  provision-agree :
      (cluster : Cluster) (vc : VerdaCluster) (machine : Machine) (secret_name : String)
      (s : MachineState W)
      → NoScripts r machine.namespace secret_name
      → provision (bootstrapping l r c) cluster vc machine secret_name s
        ≡ provision (bootstrapping l r c') cluster vc machine secret_name s
  unfolding provision ensure_os_volume find_os_volume tag_os_volume clone_os_volume
      resolve_os_volume volume_condition
  provision-agree cluster vc machine secret_name s none_is =
      choose-value (s.vm.spec.os_volume_id == "")
        (create_and_track-agree cluster vc machine secret_name s.vm.spec.image s none_is)
        (handle-same raise (boot_clone (bootstrapping l r c) cluster vc machine secret_name)
          (boot_clone (bootstrapping l r c') cluster vc machine secret_name) (ensure_os_volume r vc)
          (ensure_os_volume r vc) s refl
          λ volume t p. boot_clone-agree cluster vc machine secret_name volume t none_is)

  adopt_or_provision-agree :
      (cluster : Cluster) (vc : VerdaCluster) (machine : Machine) (secret_name : String)
      (found : Option Instance) (s : MachineState W)
      → NoScripts r machine.namespace secret_name
      → adopt_or_provision (bootstrapping l r c) cluster vc machine secret_name found s
        ≡ adopt_or_provision (bootstrapping l r c') cluster vc machine secret_name found s
  unfolding adopt_or_provision track_instance ensure_os_volume_tag settle
  adopt_or_provision-agree cluster vc machine secret_name (some i) s none_is = refl
  adopt_or_provision-agree cluster vc machine secret_name none s none_is =
      provision-agree cluster vc machine secret_name s none_is

  ensure_instance-agree :
      (cluster : Cluster) (vc : VerdaCluster) (machine : Machine) (secret : Option String)
      (s : MachineState W)
      → ((name : String) → secret ≡ some name → NoScripts r machine.namespace name)
      → ensure_instance (bootstrapping l r c) cluster vc machine secret s
        ≡ ensure_instance (bootstrapping l r c') cluster vc machine secret s
  unfolding ensure_instance find_instance
  ensure_instance-agree cluster vc machine none s none_is = refl
  ensure_instance-agree cluster vc machine (some name) s none_is =
      handle-same raise (adopt_or_provision (bootstrapping l r c) cluster vc machine name)
        (adopt_or_provision (bootstrapping l r c') cluster vc machine name)
        (lift (find_instance r s.vm)) (lift (find_instance r s.vm)) s refl
        λ found t p. adopt_or_provision-agree cluster vc machine name found t (none_is name refl)

  -- With ToStartupScript of Bootstrap, and where the bootstrap secret of the machine holds no data
  -- that begins with #!, reconcileNormal does the same over any two ways to create instances that
  -- agree on scripts of at most 48 KiB: it never asks for an instance with a larger script.
  pub large_script_never_sent :
      (cluster : Cluster) (vc : VerdaCluster) (machine : Machine) (s : MachineState W)
      → ((name : String)
          → machine.data_secret_name ≡ some name
          → NoScripts r machine.namespace name)
      → reconcile_normal (bootstrapping l r c) cluster vc machine s
        ≡ reconcile_normal (bootstrapping l r c') cluster vc machine s
  unfolding reconcile_normal resync_instance find_instance
  large_script_never_sent cluster vc machine s none_is =
      choose-value (is_set s.vm.status.provisioned) refl (
        choose-value (not (is_set cluster.infrastructure_provisioned)) refl
          (ensure_instance-agree cluster vc machine machine.data_secret_name s none_is))
