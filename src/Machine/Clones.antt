-- ===== src/Machine/Clones.antt =====
-- ensureOSVolume and deleteOSVolume: which volumes the reconciler makes and deletes.
use cluster_api_provider_ver.Machine.Volume.{
  tag_os_volume, set_os_volume_id, delete_found_volume, find_os_volume, os_volume_name,
  delete_os_volume, ensure_os_volume,
}
use cluster_api_provider_ver.Base.{
  ◌≡◌, String, eq_iff, if◌then◌else◌, some, ◌≢◌, arith, true, ◌==◌, refl, ◌<>◌, ◌⊎◌, sym, ap, ◌∙◌,
}
use cluster_api_provider_ver.Machine.Helpers.{MachineScope, MachineState, lift, edit}
use cluster_api_provider_ver.Cloud.{volume_deleting, Volume, volume_deleted}
use cluster_api_provider_ver.Base.Act.{ok, Result, err, pure, Act, raise, handle}
use cluster_api_provider_ver.Api.{VerdaCluster, VerdaMachine}
use cluster_api_provider_ver.Base.Error.{errors_is, not_found}
use cluster_api_provider_ver.Base.Outcomes.{choose-same, handle-same}

abbrev pub after_tagging : Volume → Result (Unit {0}) → Volume
after_tagging v (ok _) = record v { managed = true }
after_tagging v (err _) = v

-- The name that the clone of a machine's OS volume has.
abbrev pub clone_name : VerdaMachine → String
clone_name vm = vm.metadata.namespace <> ("-" <> (vm.metadata.name <> "-os"))

module _ {W : Type 0} (r : MachineScope W) where
  abbrev pub recorded : MachineState W → String
  recorded s = s.vm.status.os_volume_id

  -- deleteOSVolume deletes the recorded volume where it can be read, has the name of the machine's
  -- clone and is not being deleted or deleted already: result and world are those of its deletion.
  pub own_volume_deleted :
      (s : MachineState W) (v : Volume) (w : W)
      → recorded s ≢ ""
      → r.cloud.get_volume (recorded s) s.world ≡ (ok v, w)
      → v.name ≡ os_volume_name s.vm
      → v.status ≢ volume_deleting
      → v.status ≢ volume_deleted
      → ((delete_os_volume r s).0 ≡ (r.cloud.delete_volume (recorded s) w).0)
        × ((delete_os_volume r s).1.world ≡ (r.cloud.delete_volume (recorded s) w).1)
  unfolding delete_os_volume delete_found_volume
  own_volume_deleted s v w named read own live undeleted = (
    ground (
      arith,
      eq_iff (recorded s) "",
      eq_iff v.name (os_volume_name s.vm),
      eq_iff v.status volume_deleting,
      eq_iff v.status volume_deleted,
    ),
    ground (
      arith,
      eq_iff (recorded s) "",
      eq_iff v.name (os_volume_name s.vm),
      eq_iff v.status volume_deleting,
      eq_iff v.status volume_deleted,
    ),
  )

  -- What Verda gives for the clone of a machine: the volume of the recorded id, or, where none is
  -- recorded, that of the name that the clone of the machine has.
  abbrev pub IsCloneAt : MachineState W → Volume → W → Type 0
  IsCloneAt s v w =
      ((recorded s ≢ "") × (r.cloud.get_volume (recorded s) s.world ≡ (ok v, w)))
      ⊎ ((recorded s ≡ "") × (r.cloud.find_volume_by_name (clone_name s.vm) s.world ≡ (ok v, w)))

  find_os_volume-IsCloneAt :
      (s : MachineState W) (v : Volume) (w : W)
      → IsCloneAt s v w
      → find_os_volume r s.vm s.world ≡ (ok (some v), w)
  unfolding find_os_volume os_volume_name
  find_os_volume-IsCloneAt s v w h = ground (arith, h, eq_iff (recorded s) "")

  -- ensureOSVolume, where Verda gives a volume for the recorded id, or for the name of the machine's
  -- clone where no id is recorded, makes no other clone: it returns that volume, as managed once it
  -- is tagged; the machine records its id, and the world is the one that the lookup left, or the
  -- tagging of an untagged clone.
  pub clone_found_once :
      (vc : VerdaCluster) (s : MachineState W) (v : Volume) (w : W)
      → IsCloneAt s v w
      → let (result, t) = ensure_os_volume r vc s in
        (recorded t ≡ v.id)
        × (t.world ≡ (if v.managed then w else (r.cloud.ensure_volume_tag v.id w).1))
        × (result
            ≡ ok (if v.managed then v else after_tagging v (r.cloud.ensure_volume_tag v.id w).0))
  unfolding ensure_os_volume tag_os_volume
  clone_found_once vc s v w found = ground (arith, find_os_volume-IsCloneAt s v w found)

-- The same scope with another DeleteVolume.
abbrev pub deleting : {W : Type 0} → MachineScope W → (String → Act W (Unit {0})) → MachineScope W
deleting r delete = record r { cloud = record r.cloud { delete_volume = delete } }

-- Two ways to delete volumes that do the same to a volume that Verda has just shown with the name of
-- the machine's clone, and neither deleted nor being deleted.
abbrev pub AgreeOnClone :
    {W : Type 0} → MachineScope W → VerdaMachine → (c c' : String → Act W (Unit {0})) → Type 0
AgreeOnClone {W} r vm c c' =
    (v : Volume) (w w' : W)
    → r.cloud.get_volume vm.status.os_volume_id w ≡ (ok v, w')
    → v.name ≡ clone_name vm
    → v.status ≢ "deleting"
    → v.status ≢ "deleted"
    → c vm.status.os_volume_id w' ≡ c' vm.status.os_volume_id w'

module _ {W : Type 0} (r : MachineScope W) (c c' : String → Act W (Unit {0})) where
  delete_found_volume-agree :
      (id : String) (v : Volume) (s : MachineState W)
      → (v.name ≡ clone_name s.vm
          → v.status ≢ "deleting"
          → v.status ≢ "deleted"
          → c id s.world ≡ c' id s.world)
      → delete_found_volume (deleting r c) id v s ≡ delete_found_volume (deleting r c') id v s
  unfolding delete_found_volume os_volume_name
  delete_found_volume-agree id v s same = ground (
    arith,
    eq_iff v.name (clone_name s.vm),
    eq_iff v.status volume_deleting,
    eq_iff v.status volume_deleted,
  )

  -- deleteOSVolume does the same over any two ways to delete volumes that agree on the recorded
  -- volume where it has the name of the machine's clone and is neither deleted nor being deleted: it
  -- deletes no other volume, whatever the lookup says.
  pub only_clone_deleted :
      (s : MachineState W)
      → AgreeOnClone r s.vm c c'
      → delete_os_volume (deleting r c) s ≡ delete_os_volume (deleting r c') s
  unfolding delete_os_volume
  only_clone_deleted s agree =
      choose-same (recorded r s == "") (pure tt) (found c) (pure tt) (found c') s refl (
        handle-same (λ e. if errors_is not_found e then forget else raise e)
          (delete_found_volume (deleting r c) (recorded r s))
          (delete_found_volume (deleting r c') (recorded r s))
          (lift (r.cloud.get_volume (recorded r s))) (lift (r.cloud.get_volume (recorded r s))) s
          refl
          λ v t p.
            let same : s.vm ≡ t.vm = ap (λ x. x.1.vm) p in
            delete_found_volume-agree (recorded r s) v t λ named.
              agree v s.world t.world (ap (λ x. (x.0, x.1.world)) p)
                (named ∙ sym (ap clone_name same)))
    where
      forget : Act (MachineState W) (Unit {0})
      forget = edit (set_os_volume_id "")

      found : (String → Act W (Unit {0})) → Act (MachineState W) (Unit {0})
      found delete =
          handle (lift (r.cloud.get_volume (recorded r s)))
            (λ e. if errors_is not_found e then forget else raise e)
            (delete_found_volume (deleting r delete) (recorded r s))
