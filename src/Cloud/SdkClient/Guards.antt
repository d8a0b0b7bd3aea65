-- ===== src/Cloud/SdkClient/Guards.antt =====
-- client.go: what sdkClient does to resources that the provider does not manage.
use cluster_api_provider_ver.Base.{
  String, ◌≡◌, refl, true, false, ◌<>◌, arith, inr, List, eq_iff, Bool-cases, inl, ◌++◌, [], ◌∷◌,
  ◌≢◌, some,
}
use cluster_api_provider_ver.Base.Error.{
  Error, sentinel, wrap, not_managed, errors_is, hostname_in_use,
}
use cluster_api_provider_ver.Base.Act.{ok, err}
use cluster_api_provider_ver.Cloud.Verda.{VerdaApi, SdkInstance, SdkVolume}
use cluster_api_provider_ver.Cloud.SdkClient.Convert.{is_managed, to_volume, to_instance}
use cluster_api_provider_ver.Cloud.SdkClient.Deletion.{delete_volume}
use cluster_api_provider_ver.Cloud.SdkClient.Creation.{blocks, find_blocker, create_instance}
use cluster_api_provider_ver.Cloud.{InstanceSpec, Instance, status_discontinued}

module _ {W : Type 0} (api : VerdaApi W) where
  -- A volume without the managed-by tag is not deleted: DeleteVolume fails with ErrNotManaged, and
  -- the world is the one that the lookup left.
  pub unmanaged_volume_untouched :
      (id : String) (vol : SdkVolume) (w w' : W)
      → api.get_volume id w ≡ (ok vol, w')
      → (to_volume vol).managed ≡ false
      → (e : Error) × (errors_is not_managed e ≡ true) × (delete_volume api id w ≡ (err e, w'))
  unfolding delete_volume to_volume
  unmanaged_volume_untouched id vol w w' found unmanaged =
      (wrap ("volume " <> id <> " (" <> vol.name <> ")") (sentinel not_managed), refl, ground arith)

find_blocker-append :
    (hostname : String) (pre : List SdkInstance) (x : SdkInstance) (post : List SdkInstance)
    → blocks hostname (to_instance x) ≡ true
    → (i : Instance) × (find_blocker hostname (pre ++ (x ∷ post)) ≡ some i)
unfolding find_blocker
find_blocker-append hostname [] x post h = (to_instance x, ground arith)
find_blocker-append hostname (y ∷ pre) x post h =
    elim (Bool-cases (blocks hostname (to_instance y))) [
      | inl e ↦ (to_instance y, ground arith)
      | inr e ↦
          let later = find_blocker-append hostname pre x post h in
          (later.0, ground (arith, later.1))
    ]

module _ {W : Type 0} (api : VerdaApi W) where
  blocked_by :
      (spec : InstanceSpec) (xs : List SdkInstance) (i : Instance) (w w' : W)
      → api.list_instances w ≡ (ok xs, w')
      → find_blocker spec.hostname xs ≡ some i
      → (e : Error) × (errors_is hostname_in_use e ≡ true)
        × (create_instance api spec w ≡ (err e, w'))
  unfolding create_instance
  blocked_by spec xs i w w' listed blocker =
      (wrap ("instance " <> i.id) (sentinel hostname_in_use), refl, ground arith)

  -- Where any listed instance has the hostname, is not discontinued and lacks the managed-by tag,
  -- CreateInstance fails with ErrHostnameInUse, and the world is the one that the listing left: no
  -- script is deleted or added, and no instance is created.
  pub foreign_hostname_refused :
      (spec : InstanceSpec) (pre : List SdkInstance) (x : SdkInstance) (post : List SdkInstance)
      (w w' : W)
      → api.list_instances w ≡ (ok (pre ++ (x ∷ post)), w')
      → x.hostname ≡ spec.hostname
      → x.status ≢ status_discontinued
      → is_managed x ≡ false
      → (e : Error) × (errors_is hostname_in_use e ≡ true)
        × (create_instance api spec w ≡ (err e, w'))
  unfolding to_instance
  foreign_hostname_refused spec pre x post w w' listed same live foreign =
      let blocker =
        find_blocker-append spec.hostname pre x post
          (ground (arith, eq_iff x.hostname spec.hostname, eq_iff x.status status_discontinued)) in
      blocked_by spec (pre ++ (x ∷ post)) blocker.0 w w' listed blocker.1
