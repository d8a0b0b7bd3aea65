-- ===== src/Cloud/SdkClient/Volumes.antt =====
-- client.go: the volumes of an instance.
use cluster_api_provider_ver.Base.{
  none, List, arith, false, ◌==◌, ◌||◌, [], ◌∷◌, ◌≡◌, eq_iff, some, String, Bool, Option,
}
use cluster_api_provider_ver.Cloud.SdkClient.Deletion.{
  add_id, add_ids, instance_volume_ids, os_volume_ids,
}
use cluster_api_provider_ver.Cloud.Verda.{SdkInstance}
use cluster_api_provider_ver.Base.Distinct.{
  AllDistinct-append, AllDistinct, contains, contains-append,
}

abbrev Holds : List String → Type 0
Holds ids = AllDistinct ids × (contains "" ids ≡ false)

add_id-Holds : (ids : List String) (id : String) → Holds ids → Holds (add_id ids id)
unfolding add_id contains
add_id-Holds ids id h =
    ground (arith, AllDistinct-append ids id h.0, contains-append "" ids (id ∷ []), eq_iff id "")

add_ids-Holds : (ids xs : List String) → Holds ids → Holds (add_ids ids xs)
unfolding add_ids
add_ids-Holds ids [] h = h
add_ids-Holds ids (x ∷ xs) h = add_ids-Holds (add_id ids x) xs (add_id-Holds ids x h)

contains-add_id :
    (a : String) (ids : List String) (id : String)
    → (a == "") ≡ false
    → contains a (add_id ids id) ≡ (contains a ids || id == a)
unfolding add_id contains
contains-add_id a ids id h =
    ground (arith, contains-append a ids (id ∷ []), eq_iff id a, eq_iff id "", eq_iff a "")

contains-add_ids :
    (a : String) (ids xs : List String)
    → (a == "") ≡ false
    → contains a (add_ids ids xs) ≡ (contains a ids || contains a xs)
unfolding add_ids contains
contains-add_ids a ids [] h = ground arith
contains-add_ids a ids (x ∷ xs) h =
    ground (arith, contains-add_ids a (add_id ids x) xs h, contains-add_id a ids x h)

abbrev pub names_os_volume : Option String → String → Bool
names_os_volume none a = false
names_os_volume (some id) a = id == a

os_volume_ids-Holds : (o : Option String) → Holds (os_volume_ids o)
unfolding contains
os_volume_ids-Holds none = ground arith
os_volume_ids-Holds (some id) = add_id-Holds [] id (ground arith)

contains-os_volume_ids :
    (a : String) (o : Option String)
    → (a == "") ≡ false
    → contains a (os_volume_ids o) ≡ names_os_volume o a
unfolding contains
contains-os_volume_ids a none h = ground arith
contains-os_volume_ids a (some id) h = ground (arith, contains-add_id a [] id h)

-- instanceVolumeIDs has no id twice and not the empty one, and any other id is in it exactly when it
-- is the OS volume's or one of the data volumes'.
pub instance_volume_ids_exact :
    (i : SdkInstance) (a : String)
    → (a == "") ≡ false
    → AllDistinct (instance_volume_ids i)
      × (contains "" (instance_volume_ids i) ≡ false)
      × (contains a (instance_volume_ids i)
          ≡ (names_os_volume i.os_volume_id a || contains a i.volume_ids))
unfolding instance_volume_ids
instance_volume_ids_exact i a h =
    let holds = add_ids-Holds _ i.volume_ids (os_volume_ids-Holds i.os_volume_id) in
    (
      holds.0,
      holds.1,
      ground (
        arith,
        contains-add_ids a (os_volume_ids i.os_volume_id) i.volume_ids h,
        contains-os_volume_ids a i.os_volume_id h,
      ),
    )
