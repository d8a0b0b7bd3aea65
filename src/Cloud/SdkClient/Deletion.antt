-- ===== src/Cloud/SdkClient/Deletion.antt =====
-- client.go: the methods of sdkClient that delete, and the tagging of volumes.
use cluster_api_provider_ver.Base.{
  ℕ, suc, String, ◌<>◌, Bool, true, false, not, none, some, List, [], ◌∷◌, ◌++◌, ◌==◌, ◌&&◌, ◌||◌,
  if◌then◌else◌, Option,
}
use cluster_api_provider_ver.Base.Error.{Error, sentinel, wrap, not_managed, has_status}
use cluster_api_provider_ver.Base.Act.{Act, pure, raise, handle, ◌>>=◌, ◌>>◌}
use cluster_api_provider_ver.Cloud.{
  tag_managed_by, managed_by_value, status_discontinued, status_deleted, status_deleting,
  status_offline, volume_deleted,
}
use cluster_api_provider_ver.Cloud.Verda.{VerdaApi, SdkInstance, SdkVolume, SdkScript}
use cluster_api_provider_ver.Cloud.SdkClient.Convert.{is_api_not_found, is_managed, has_tag}
use cluster_api_provider_ver.Base.Distinct.{contains}

-- The closure `add`: ids in the order of their first occurrence; "" is dropped.
unfoldable pub add_id : List String → String → List String
unfolding contains
add_id ids id = if not (id == "") && not (contains id ids) then ids ++ (id ∷ []) else ids

unfoldable pub add_ids : List String → List String → List String
add_ids ids [] = ids
add_ids ids (x ∷ xs) = add_ids (add_id ids x) xs

abbrev pub os_volume_ids : Option String → List String
os_volume_ids none = []
os_volume_ids (some id) = add_id [] id

unfoldable pub instance_volume_ids : SdkInstance → List String
instance_volume_ids i = add_ids (os_volume_ids i.os_volume_id) i.volume_ids

abbrev unmanaged_error : String → SdkInstance → Error
unmanaged_error id i = wrap ("instance " <> id <> " (" <> i.hostname <> ")") (sentinel not_managed)

-- inTrash[volID]
unfoldable pub in_trash : List SdkVolume → String → Bool
in_trash [] id = false
in_trash (v ∷ vs) id = let rest = in_trash vs id in if v.id == id then true else rest

module _ {W A : Type 0} where
  -- The guard of the deletions, and what follows it.
  unfoldable pub if_managed : String → (SdkInstance → Act W A) → SdkInstance → Act W A
  if_managed id next inst =
      if not (is_managed inst) then raise (unmanaged_error id inst) else next inst

module _ {W : Type 0} (api : VerdaApi W) where
  -- A volume in the trash is deleted for good.
  abbrev pub purge_trashed : String → Act W Bool
  purge_trashed id =
      handle (api.delete_volume id true)
        (λ e. if is_api_not_found e then pure false else raise (wrap ("purging volume " <> id) e))
        λ _. pure false

  -- Any other volume is pending until Verda reports it deleted or does not know it.
  abbrev pub await_volume : String → Act W Bool
  await_volume id =
      handle (api.get_volume id)
        (λ e. if is_api_not_found e then pure false else raise (wrap ("getting volume " <> id) e))
        λ vol. pure (not (vol.status == volume_deleted))

  -- One round of the loop of PurgeInstanceVolumes: whether the volume is still pending.
  unfoldable pub purge_volume : List SdkVolume → String → Act W Bool
  purge_volume trash id = if in_trash trash id then purge_trashed id else await_volume id

  abbrev pub bump : Bool → ℕ → ℕ
  bump true n = suc n
  bump false n = n

  unfoldable pub purge_volumes : List SdkVolume → List String → ℕ → Act W ℕ
  purge_volumes trash [] pending = pure pending
  purge_volumes trash (id ∷ ids) pending =
      purge_volume trash id >>= λ waits. purge_volumes trash ids (bump waits pending)

  abbrev pub purge_managed : SdkInstance → Act W ℕ
  purge_managed inst =
      handle api.volumes_in_trash (λ e. raise (wrap "listing trashed volumes" e))
        λ trash. purge_volumes trash (instance_volume_ids inst) 0

  unfoldable pub purge_instance_volumes : String → Act W ℕ
  purge_instance_volumes id =
      handle (api.get_instance_by_id id)
        (λ e. if is_api_not_found e then pure 0 else raise (wrap ("getting instance " <> id) e))
        (if_managed id purge_managed)

  abbrev pub shut_down : String → Act W (Unit {0})
  shut_down id =
      handle (api.shutdown_instance id)
        (λ e.
          if is_api_not_found e then pure tt else raise (wrap ("shutting down instance " <> id) e))
        λ _. pure tt

  abbrev pub delete_offline : String → SdkInstance → Act W (Unit {0})
  delete_offline id inst =
      handle (api.delete_instances (id ∷ []) (instance_volume_ids inst) false)
        (λ e. if is_api_not_found e then pure tt else raise (wrap ("deleting instance " <> id) e))
        λ _. pure tt

  abbrev pub stop : String → SdkInstance → Act W (Unit {0})
  stop id inst = if inst.status == status_offline then delete_offline id inst else shut_down id

  abbrev pub finish_deletion : String → SdkInstance → Act W (Unit {0})
  finish_deletion id inst = if inst.status == status_deleting then pure tt else stop id inst

  -- The switch on the status and what follows it.
  unfoldable pub delete_by_status : String → SdkInstance → Act W (Unit {0})
  delete_by_status id inst =
      if inst.status == status_discontinued || inst.status == status_deleted
      then (purge_instance_volumes id >> pure tt)
      else finish_deletion id inst

  unfoldable pub delete_instance : String → Act W (Unit {0})
  delete_instance id =
      handle (api.get_instance_by_id id)
        (λ e.
          if is_api_not_found e
          then pure tt
          else raise (wrap ("getting instance " <> id <> " before delete") e))
        (if_managed id (delete_by_status id))

  unfoldable pub delete_startup_script : String → Act W (Unit {0})
  delete_startup_script id =
      handle (api.delete_script id)
        (λ e.
          if is_api_not_found e then pure tt else raise (wrap ("deleting startup script " <> id) e))
        λ _. pure tt

  unfoldable pub delete_scripts_named : String → List SdkScript → Act W (Unit {0})
  delete_scripts_named name [] = pure tt
  delete_scripts_named name (s ∷ ss) =
      let rest = delete_scripts_named name ss in
      if not (s.name == name) then rest else (delete_startup_script s.id >> rest)

  unfoldable pub delete_startup_script_by_name : String → Act W (Unit {0})
  delete_startup_script_by_name name =
      handle api.list_scripts (λ e. raise (wrap "listing startup scripts" e))
        λ scripts. delete_scripts_named name scripts

  unfoldable pub delete_volume : String → Act W (Unit {0})
  delete_volume id =
      handle (api.get_volume id)
        (λ e.
          if is_api_not_found e
          then pure tt
          else raise (wrap ("getting volume " <> id <> " before delete") e))
        λ vol.
          if not (has_tag vol.tags tag_managed_by managed_by_value)
          then raise (wrap ("volume " <> id <> " (" <> vol.name <> ")") (sentinel not_managed))
          else handle (api.delete_volume id true)
              (λ e.
                if is_api_not_found e then pure tt else raise (wrap ("deleting volume " <> id) e))
              λ _. pure tt

  -- A conflict (409) says that the volume has the tag.
  unfoldable pub tag_volume : String → Act W (Unit {0})
  tag_volume id =
      handle (api.add_volume_tag id (record { key = tag_managed_by; value = managed_by_value }))
        (λ e. if has_status 409 e then pure tt else raise e) λ _. pure tt

  unfoldable pub ensure_volume_tag : String → Act W (Unit {0})
  ensure_volume_tag id = tag_volume id

  -- A failure to tag the clone is ignored.
  unfoldable pub clone_volume : String → String → String → Act W String
  clone_volume source name location =
      handle (api.clone_volume source name location)
        (λ e. raise (wrap ("cloning volume " <> source <> " as " <> name) e))
        λ id. handle (tag_volume id) (λ _. pure id) λ _. pure id
