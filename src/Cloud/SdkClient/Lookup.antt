-- ===== src/Cloud/SdkClient/Lookup.antt =====
-- client.go: which instance FindInstanceByHostname and FindInstanceByTag find.

use cluster_api_provider_ver.Base.{
  none, refl, List, arith, Option, ◌≡◌, if◌then◌else◌, some, ◌==◌, not, [], ◌∷◌, ◌&&◌, String, Bool,
}
use cluster_api_provider_ver.Cloud.{status_discontinued, Instance}
use cluster_api_provider_ver.Cloud.Verda.{SdkInstance, VerdaApi}
use cluster_api_provider_ver.Base.Dict.{get_text}
use cluster_api_provider_ver.Base.Error.{not_found, sentinel}
use cluster_api_provider_ver.Cloud.SdkClient.Convert.{
  to_instance, scan, find_instance_by_hostname, find_instance_by_tag,
}
use cluster_api_provider_ver.Base.Act.{ok, Result, err}

module _ (test : Instance → Bool) where
  abbrev is_discontinued : Instance → Bool
  is_discontinued i = i.status == status_discontinued

  -- The matches that are live, and those that are discontinued, in the order of the list.
  pub live_matches : List SdkInstance → List Instance
  live_matches [] = []
  live_matches (x ∷ xs) =
      let i = to_instance x in
      let rest = live_matches xs in if test i && not (is_discontinued i) then i ∷ rest else rest

  pub gone_matches : List SdkInstance → List Instance
  gone_matches [] = []
  gone_matches (x ∷ xs) =
      let i = to_instance x in
      let rest = gone_matches xs in if test i && is_discontinued i then i ∷ rest else rest

  pub last_or : Option Instance → List Instance → Option Instance
  last_or o [] = o
  last_or o (i ∷ is) = last_or (some i) is

  abbrev first_or : Option Instance → List Instance → Option Instance
  first_or o [] = o
  first_or o (i ∷ _) = some i

  scan_best :
      (xs : List SdkInstance) (gone : Option Instance)
      → scan test xs gone ≡ first_or (last_or gone (gone_matches xs)) (live_matches xs)
  unfolding scan live_matches gone_matches last_or
  scan_best [] passed = refl
  scan_best (x ∷ xs) gone = ground (arith, scan_best xs gone, scan_best xs (some (to_instance x)))

abbrev pub or_missing : Option Instance → Result Instance
or_missing none = err (sentinel not_found)
or_missing (some i) = ok i

abbrev pub best : (Instance → Bool) → List SdkInstance → Option Instance
best test xs = first_or test (last_or test none (gone_matches test xs)) (live_matches test xs)

module _ {W : Type 0} (api : VerdaApi W) where
  -- When the listing succeeds, both searches return the first live match, or else the last
  -- discontinued match, or else ErrNotFound, and leave the world as the listing left it.
  pub find_best :
      (hostname key value : String) (xs : List SdkInstance) (w w' : W)
      → api.list_instances w ≡ (ok xs, w')
      → (find_instance_by_hostname api hostname w
          ≡ (or_missing (best (λ i. i.hostname == hostname) xs), w'))
        × (find_instance_by_tag api key value w
            ≡ (or_missing (best (λ i. get_text key i.tags == value) xs), w'))
  unfolding find_instance_by_hostname find_instance_by_tag
  find_best hostname key value xs w w' listed = (
    ground (arith, scan_best (λ i. i.hostname == hostname) xs none),
    ground (arith, scan_best (λ i. get_text key i.tags == value) xs none),
  )
