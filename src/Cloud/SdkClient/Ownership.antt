-- ===== src/Cloud/SdkClient/Ownership.antt =====
-- client.go: DeleteInstance and PurgeInstanceVolumes destroy nothing that the provider does not own.
use cluster_api_provider_ver.Base.{
  ◌==◌, ap, true, none, ◌⊎◌, Option, arith, List, inr, ◌≡◌, Bool, eq_iff, String, false, ◌∷◌, [],
  inl, Bool-cases, some, ℕ, ◌||◌, ◌<>◌, refl, if◌then◌else◌,
}
use cluster_api_provider_ver.Base.Dict.{get_text-insert, Dict, lookup, get_text, insert}
use cluster_api_provider_ver.Cloud.Verda.{VerdaApi, Tag, SdkInstance, SdkVolume}
use cluster_api_provider_ver.Cloud.SdkClient.Convert.{
  to_instance, is_managed, fill_tags, is_api_not_found,
}
use cluster_api_provider_ver.Cloud.{
  tag_managed_by, managed_by_value, status_deleting, status_offline, status_discontinued,
  status_deleted,
}
use cluster_api_provider_ver.Base.Act.{Act, ok, raise, pure, ◌>>◌}
use cluster_api_provider_ver.Cloud.SdkClient.Volumes.{names_os_volume, instance_volume_ids_exact}
use cluster_api_provider_ver.Base.Distinct.{contains}
use cluster_api_provider_ver.Cloud.SdkClient.Deletion.{
  instance_volume_ids, in_trash, purge_managed, purge_volume, bump, purge_volumes,
  purge_instance_volumes, if_managed, delete_by_status, delete_instance, delete_offline,
  await_volume, shut_down, finish_deletion, stop, purge_trashed,
}
use cluster_api_provider_ver.Base.Outcomes.{handle-same, outcome_of, choose-same}
use cluster_api_provider_ver.Base.Error.{wrap}

-- A tag that says that the provider manages the resource is among the tags.
abbrev pub IsTagged : List Tag → Type 0
IsTagged [] = ⊥
IsTagged (t ∷ ts) =
    ((t.key ≡ "capi-managed-by") × (t.value ≡ "cluster-api-provider-verda")) ⊎ IsTagged ts

IsTagged-from :
    (ts : List Tag) (m : Dict String)
    → get_text tag_managed_by (fill_tags ts m) ≡ managed_by_value
    → IsTagged ts ⊎ (get_text tag_managed_by m ≡ managed_by_value)
unfolding fill_tags
IsTagged-from [] m h = inr h
IsTagged-from (t ∷ ts) m h = elim (IsTagged-from ts (insert t.key t.value m) h) [
  | inl later ↦ inl (inr later)
  | inr here ↦ elim (Bool-cases (t.key == tag_managed_by)) [
    | inl e ↦ inl (
        inl (
          (eq_iff t.key tag_managed_by).0 e,
          ground (arith, here, e, get_text-insert t.key tag_managed_by t.value m),
        ))
    | inr e ↦ inr (ground (arith, here, e, get_text-insert t.key tag_managed_by t.value m))
  ]
]

managed-IsTagged : (i : SdkInstance) → is_managed i ≡ true → IsTagged i.tags
unfolding to_instance get_text lookup
managed-IsTagged i h =
    let value = get_text tag_managed_by (to_instance i).tags in
    elim (IsTagged-from i.tags [] ((eq_iff value managed_by_value).0 h)) [
      | inl tagged ↦ tagged
      | inr none_is ↦ ground (arith, none_is, eq_iff "" managed_by_value)
    ]

abbrev pub IsVolumeOf : SdkInstance → String → Type 0
IsVolumeOf i volume = (i.os_volume_id ≡ some volume) ⊎ (contains volume i.volume_ids ≡ true)

-- The calls of Verda that destroy instances and volumes.
pub record Destruction (W : Type 0) : Type 0 where
  pub shutdown_instance : String → Act W (Unit {0})
  pub delete_instances : List String → List String → Bool → Act W (Unit {0})
  pub delete_volume : String → Bool → Act W (Unit {0})

module _ {W : Type 0} where
  abbrev pub destroying : VerdaApi W → Destruction W → VerdaApi W
  destroying api d = record api {
    shutdown_instance = d.shutdown_instance;
    delete_instances = d.delete_instances;
    delete_volume = d.delete_volume;
  }

  -- At that world Verda has an instance under the id, with the provider's tag.
  abbrev pub IsOwned : VerdaApi W → String → SdkInstance → W → W → Type 0
  IsOwned api id i w w' = (api.get_instance_by_id id w ≡ (ok i, w')) × IsTagged i.tags

  -- Two ways to destroy that do the same to instances that Verda has just shown to be the
  -- provider's, and to the volumes of these.
  pub record AgreeOnOwned (api : VerdaApi W) (d d' : Destruction W) : Type 0 where
    pub shutdown_instance :
        (id : String) (i : SdkInstance) (w w' : W)
        → IsOwned api id i w w'
        → d.shutdown_instance id w' ≡ d'.shutdown_instance id w'
    pub delete_instances :
        (id : String) (i : SdkInstance) (volumes : List String) (w w' : W)
        → IsOwned api id i w w'
        → ((v : String) → contains v volumes ≡ true → IsVolumeOf i v)
        → d.delete_instances (id ∷ []) volumes false w'
          ≡ d'.delete_instances (id ∷ []) volumes false w'
    pub delete_volume :
        (id : String) (i : SdkInstance) (w w' : W)
        → IsOwned api id i w w'
        → (v : String) (later : W) → IsVolumeOf i v
        → d.delete_volume v true later ≡ d'.delete_volume v true later

names_os_volume_lem : (o : Option String) (v : String) → names_os_volume o v ≡ true → o ≡ some v
names_os_volume_lem none v h = ground arith
names_os_volume_lem (some id) v h = ap some ((eq_iff id v).0 h)

listed-IsVolumeOf :
    (i : SdkInstance) (v : String) → contains v (instance_volume_ids i) ≡ true → IsVolumeOf i v
listed-IsVolumeOf i v h = elim (Bool-cases (v == "")) [
  | inl e ↦
      let none_empty = (instance_volume_ids_exact i "id" refl).1 in
      let same : contains v (instance_volume_ids i) ≡ contains "" (instance_volume_ids i) =
        ap (λ id. contains id (instance_volume_ids i)) ((eq_iff v "").0 e) in
      ground (arith, h, none_empty, same)
  | inr e ↦ elim (Bool-cases (names_os_volume i.os_volume_id v)) [
    | inl named ↦ inl (names_os_volume_lem i.os_volume_id v named)
    | inr other ↦ inr (ground (arith, h, other, (instance_volume_ids_exact i v e).2))
  ]
]

if_managed-agree :
    {W A : Type 0} (id : String) (i : SdkInstance) (next next' : SdkInstance → Act W A) (w : W)
    → (IsTagged i.tags → next i w ≡ next' i w)
    → if_managed id next i w ≡ if_managed id next' i w
unfolding if_managed
if_managed-agree id i next next' w same = elim (Bool-cases (is_managed i)) [
  | inl e ↦ rw e (same (managed-IsTagged i e))
  | inr e ↦ rw e refl
]

module _ {W : Type 0} (api : VerdaApi W) (d d' : Destruction W)
    (agree : AgreeOnOwned api d d') where
  purge_volume-agree :
      (trash : List SdkVolume) (v : String) (w : W)
      → d.delete_volume v true w ≡ d'.delete_volume v true w
      → purge_volume (destroying api d) trash v w ≡ purge_volume (destroying api d') trash v w
  unfolding purge_volume
  purge_volume-agree trash v w same =
      choose-same (in_trash trash v) (purge_trashed (destroying api d) v)
        (await_volume (destroying api d) v) (purge_trashed (destroying api d') v)
        (await_volume (destroying api d') v) w
        (ap
          (outcome_of
            (λ e.
              if is_api_not_found e then pure false else raise (wrap ("purging volume " <> v) e))
            λ _. pure false)
          same)
        refl

  purge_volumes-agree :
      (trash : List SdkVolume) (vs : List String) (n : ℕ) (w : W)
      → ((v : String)
          → contains v vs ≡ true
          → (later : W) → d.delete_volume v true later ≡ d'.delete_volume v true later)
      → purge_volumes (destroying api d) trash vs n w
        ≡ purge_volumes (destroying api d') trash vs n w
  unfolding purge_volumes contains
  purge_volumes-agree trash [] n w same = refl
  purge_volumes-agree trash (v ∷ vs) n w same =
      handle-same raise (λ waits. purge_volumes (destroying api d) trash vs (bump api waits n))
        (λ waits. purge_volumes (destroying api d') trash vs (bump api waits n))
        (purge_volume (destroying api d) trash v) (purge_volume (destroying api d') trash v) w
        (purge_volume-agree trash v w (same v (ground (arith, eq_iff v v)) w))
        λ waits w' p.
          purge_volumes-agree trash vs (bump api waits n) w' (λ u h. same u (ground (arith, h)))

  purge_instance_volumes-agree :
      (id : String) (w : W)
      → purge_instance_volumes (destroying api d) id w
        ≡ purge_instance_volumes (destroying api d') id w
  unfolding purge_instance_volumes
  purge_instance_volumes-agree id w =
      handle-same
        (λ e. if is_api_not_found e then pure 0 else raise (wrap ("getting instance " <> id) e))
        (if_managed id (purge_managed (destroying api d)))
        (if_managed id (purge_managed (destroying api d'))) (api.get_instance_by_id id)
        (api.get_instance_by_id id) w refl
        λ i w' p.
          if_managed-agree id i (purge_managed (destroying api d))
            (purge_managed (destroying api d')) w'
            λ tagged.
              handle-same (λ e. raise (wrap "listing trashed volumes" e))
                (λ trash. purge_volumes (destroying api d) trash (instance_volume_ids i) 0)
                (λ trash. purge_volumes (destroying api d') trash (instance_volume_ids i) 0)
                api.volumes_in_trash api.volumes_in_trash w' refl
                λ trash w'' q. purge_volumes-agree trash (instance_volume_ids i) 0 w'' λ v h later.
                  agree.delete_volume id i w w' (p, tagged) v later (listed-IsVolumeOf i v h)

  delete_by_status-agree :
      (id : String) (i : SdkInstance) (w w' : W)
      → IsOwned api id i w w'
      → delete_by_status (destroying api d) id i w' ≡ delete_by_status (destroying api d') id i w'
  unfolding delete_by_status
  delete_by_status-agree id i w w' owned =
      choose-same (i.status == status_discontinued || i.status == status_deleted)
        (purge_instance_volumes (destroying api d) id >> pure tt)
        (finish_deletion (destroying api d) id i)
        (purge_instance_volumes (destroying api d') id >> pure tt)
        (finish_deletion (destroying api d') id i) w'
        (ap (outcome_of raise λ _. pure tt) (purge_instance_volumes-agree id w'))
        (choose-same (i.status == status_deleting) (pure tt) (stop (destroying api d) id i)
          (pure tt) (stop (destroying api d') id i) w' refl
          (choose-same (i.status == status_offline) (delete_offline (destroying api d) id i)
            (shut_down (destroying api d) id) (delete_offline (destroying api d') id i)
            (shut_down (destroying api d') id) w'
            (ap
              (outcome_of
                (λ e.
                  if is_api_not_found e
                  then pure tt
                  else raise (wrap ("deleting instance " <> id) e))
                λ _. pure tt)
              (agree.delete_instances id i (instance_volume_ids i) w w' owned
                (listed-IsVolumeOf i)))
            (ap
              (outcome_of
                (λ e.
                  if is_api_not_found e
                  then pure tt
                  else raise (wrap ("shutting down instance " <> id) e))
                λ _. pure tt)
              (agree.shutdown_instance id i w w' owned))))

  -- DeleteInstance and PurgeInstanceVolumes do the same over any two ways to destroy that agree on
  -- the instances that a lookup has just shown with the provider's tag, and on the volumes of these:
  -- they shut down or delete no other instance, and delete no other volume.
  pub only_owned_destroyed :
      (id : String) (w : W)
      → (delete_instance (destroying api d) id w ≡ delete_instance (destroying api d') id w)
        × (purge_instance_volumes (destroying api d) id w
            ≡ purge_instance_volumes (destroying api d') id w)
  unfolding delete_instance
  only_owned_destroyed id w = (
    handle-same
        (λ e.
          if is_api_not_found e
          then pure tt
          else raise (wrap ("getting instance " <> id <> " before delete") e))
        (if_managed id (delete_by_status (destroying api d) id))
        (if_managed id (delete_by_status (destroying api d') id)) (api.get_instance_by_id id)
        (api.get_instance_by_id id) w refl
        λ i w' p.
          if_managed-agree id i (delete_by_status (destroying api d) id)
            (delete_by_status (destroying api d') id) w'
            λ tagged. delete_by_status-agree id i w w' (p, tagged),
    purge_instance_volumes-agree id w,
  )
