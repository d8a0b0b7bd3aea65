-- ===== src/Tests/Accounts.antt =====
-- The client over the SDK, on a small account.
use cluster_api_provider_ver.Cloud.SdkClient.{
  delete_instance, create_instance, purge_instance_volumes, find_instance_by_hostname,
  find_instance_by_tag, to_instance, fill_tags, instance_volume_ids,
}
use cluster_api_provider_ver.Base.{
  arith, ◌∷◌, ◌==◌, List, [], true, false, refl, eq_iff, ◌||◌, ◌≡◌, Bool-cases, String, inr, inl,
  if◌then◌else◌, ◌∙◌, ap, sym,
}
use cluster_api_provider_ver.Cloud.{InstanceSpec, status_discontinued, status_running, tag_machine}
use cluster_api_provider_ver.Base.Error.{hostname_in_use, Error, errors_is}
use cluster_api_provider_ver.Base.Int.{pos}
use cluster_api_provider_ver.Cloud.SdkClient.Volumes.{names_os_volume, instance_volume_ids_exact}
use cluster_api_provider_ver.Cloud.SdkClient.Lookup.{or_missing, best, find_best}
use cluster_api_provider_ver.Tests.Remote.{worker, no_capacity, account, stranger, find_instance}
use cluster_api_provider_ver.Base.Dict.{insert, lookup, get_text}
use cluster_api_provider_ver.Base.Act.{err, ok, raise, Result}
use cluster_api_provider_ver.Base.Distinct.{AllDistinct, contains, texts_eq}
use cluster_api_provider_ver.Cloud.SdkClient.Guards.{foreign_hostname_refused}
use cluster_api_provider_ver.Cloud.Verda.{SdkInstance}
use cluster_api_provider_ver.Cloud.SdkClient.Ownership.{
  Destruction, IsOwned, only_owned_destroyed, IsVolumeOf, IsTagged, AgreeOnOwned, destroying,
}
use mathlib.Core.Path.{subst}

abbrev request : InstanceSpec
request = record {
  hostname = "worker";
  description = "";
  instance_type = "CPU.4V.16G";
  image = "ubuntu-24.04";
  location = "FIN-01";
  ssh_key_ids = [];
  os_volume_size_gb = pos 0;
  contract = "";
  spot = false;
  spot_discontinue_policy = "";
  data_volumes = [];
  startup_script = "#!/bin/sh";
  tags = [];
}

foreign_hostname_refused_example :
    (e : Error) × (errors_is hostname_in_use e ≡ true)
    × (create_instance (account (worker ∷ stranger ∷ [])) request [] ≡ (err e, []))
unfolding to_instance fill_tags get_text lookup insert
foreign_hostname_refused_example =
    foreign_hostname_refused (account (worker ∷ stranger ∷ [])) request (worker ∷ []) stranger [] []
      [] refl refl (λ p. ground (arith, eq_iff status_running status_discontinued)) refl

abbrev both : List SdkInstance
both = worker ∷ stranger ∷ []

find_best_example :
    (find_instance_by_hostname (account both) "worker" []
      ≡ (or_missing (best (λ i. i.hostname == "worker") both), []))
    × (find_instance_by_tag (account both) tag_machine "default/worker" []
        ≡ (or_missing (best (λ i. get_text tag_machine i.tags == "default/worker") both), []))
find_best_example = find_best (account both) "worker" tag_machine "default/worker" both [] [] refl

instance_volume_ids_exact_example :
    AllDistinct (instance_volume_ids worker)
    × (contains "" (instance_volume_ids worker) ≡ false)
    × (contains "v2" (instance_volume_ids worker)
        ≡ (names_os_volume worker.os_volume_id "v2" || contains "v2" worker.volume_ids))
instance_volume_ids_exact_example = instance_volume_ids_exact worker "v2" refl

abbrev unrestricted : Destruction (List String)
unrestricted = record {
  shutdown_instance = (account both).shutdown_instance;
  delete_instances = (account both).delete_instances;
  delete_volume = (account both).delete_volume;
}

-- It refuses what is neither the worker nor a volume of it.
abbrev restricted : Destruction (List String)
restricted = record {
  shutdown_instance =
      λ id. if id == "i1" then unrestricted.shutdown_instance id else raise no_capacity;
  delete_instances = λ ids volumes permanently.
      if texts_eq ids ("i1" ∷ [])
      then unrestricted.delete_instances ids volumes permanently
      else raise no_capacity;
  delete_volume = λ id permanently.
      if contains id ("v1" ∷ "v2" ∷ [])
      then unrestricted.delete_volume id permanently
      else raise no_capacity;
}

abbrev instance_of : Result SdkInstance → SdkInstance
instance_of (ok i) = i
instance_of (err e) = stranger

found_by :
    (id : String) (i j : SdkInstance)
    → find_instance id both ≡ ok i
    → find_instance id both ≡ ok j
    → i ≡ j
found_by id i j p q = ap instance_of (sym p ∙ q)

owned_is_worker :
    (id : String) (i : SdkInstance) (w w' : List String)
    → IsOwned (account both) id i w w'
    → (id ≡ "i1") × (i ≡ worker)
owned_is_worker id i w w' (read, tagged) =
    let here : find_instance id both ≡ ok i = ap (λ x. x.0) read in
    elim (Bool-cases ("i1" == id)) [
      | inl e ↦ (sym ((eq_iff "i1" id).0 e), found_by id i worker here (rw e refl))
      | inr e ↦ elim (Bool-cases ("i2" == id)) [
        | inl f ↦
            absurd
              (subst (λ x. IsTagged x.tags) (found_by id i stranger here (rw (e, f) refl)) tagged)
        | inr f ↦ ground (arith, here, e, f)
      ]
    ]

worker_volume : (v : String) → IsVolumeOf worker v → contains v ("v1" ∷ "v2" ∷ []) ≡ true
unfolding contains
worker_volume v h = ground (arith, eq_iff "v1" v, eq_iff "v2" v)

owned-AgreeOnOwned : AgreeOnOwned (account both) unrestricted restricted
unfolding contains texts_eq
owned-AgreeOnOwned = record {
  shutdown_instance = λ id i w w' owned. rw ((owned_is_worker id i w w' owned).0) refl;
  delete_instances = λ id i volumes w w' owned mine. rw ((owned_is_worker id i w w' owned).0) refl;
  delete_volume = λ id i w w' owned v later mine.
      let known =
        worker_volume v (subst (λ x. IsVolumeOf x v) (owned_is_worker id i w w' owned).1 mine) in
      rw known refl;
}

only_owned_destroyed_example :
    (delete_instance (destroying (account both) unrestricted) "i1" []
      ≡ delete_instance (destroying (account both) restricted) "i1" [])
    × (purge_instance_volumes (destroying (account both) unrestricted) "i1" []
        ≡ purge_instance_volumes (destroying (account both) restricted) "i1" [])
only_owned_destroyed_example =
    only_owned_destroyed (account both) unrestricted restricted owned-AgreeOnOwned "i1" []
