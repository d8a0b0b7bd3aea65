-- ===== src/Cluster/KeyStability.antt =====
-- ensureKeys: the keys of a load balancer stay the same.
-- The secrets of the management cluster, by what is read of them.
use cluster_api_provider_ver.Base.{
  arith, none, Option, some, String, ◌≢◌, ◌≡◌, eq_iff, Option-cases, inl, refl, inr, ◌∙◌, ap,
}
use cluster_api_provider_ver.Cluster.Types.{Secret, ClusterReconciler}
use cluster_api_provider_ver.Cluster.KeySecrets.{
  ensure_keys, keys_from_secret, create_keys, key_secret, store_keys,
}
use cluster_api_provider_ver.Platform.{Cluster}
use cluster_api_provider_ver.Base.Error.{kube_error, missing}
use cluster_api_provider_ver.Base.Act.{ok, err, Result, ◌>>=◌}
use cluster_api_provider_ver.Base.Dict.{Dict, get_text, lookup}
use cluster_api_provider_ver.Api.{VerdaCluster}
use cluster_api_provider_ver.LoadBalancer.{Keys, generate_keys}
use mathlib.Core.Path.{subst}

pub record IsKeyStore {W : Type 0} (r : ClusterReconciler W)
    (view : String → String → W → Option (Dict String)) : Type 0 where
  pub get-none :
      (namespace name : String) (w : W)
      → view namespace name w ≡ none
      → (m : String) × (r.get_secret namespace name w ≡ (err (kube_error missing m), w))
  pub get-some :
      (namespace name : String) (d : Dict String) (w : W)
      → view namespace name w ≡ some d
      → r.get_secret namespace name w ≡ (ok d, w)
  pub view-create :
      (secret : Secret) (w w' : W)
      → r.create_secret secret w ≡ (ok tt, w')
      → view secret.namespace secret.name w' ≡ some secret.contents

-- A key pair has two texts that are not empty.
abbrev pub HasKeys : {W : Type 0} → ClusterReconciler W → Type 0
HasKeys {W = W} r =
    (comment : String) (pair : String × String) (w : W)
    → (r.generate_key_pair comment w).0 ≡ ok pair
    → (pair.0 ≢ "") × (pair.1 ≢ "")

module _ {W : Type 0} (r : ClusterReconciler W) {view : String → String → W → Option (Dict String)}
    (store : IsKeyStore r view) (made : HasKeys r) where
  -- The keys that were read or made are those that the secret holds.
  abbrev IsKept : VerdaCluster → String → Keys → W → Type 0
  IsKept vc name keys w =
      (d : Dict String) × (view vc.metadata.namespace name w ≡ some d)
      × ((u : W) → keys_from_secret vc.metadata.namespace name d u ≡ (ok keys, u))

  read_again :
      (cluster : Cluster) (vc : VerdaCluster) (name : String) (keys : Keys) (w : W)
      → IsKept vc name keys w
      → ensure_keys r cluster vc name w ≡ (ok keys, w)
  unfolding ensure_keys
  read_again cluster vc name keys w (d, seen, same) =
      let got = store.get-some vc.metadata.namespace name d w seen in ground (arith, got, same w)

  abbrev HasTexts : Keys → Type 0
  HasTexts keys =
      (keys.client_private_key ≢ "")
      × (keys.client_public_key ≢ "")
      × (keys.host_private_key ≢ "")
      × (keys.host_public_key ≢ "")

  generate_keys-HasTexts :
      (keys : Keys) (w w' : W) → generate_keys r.generate_key_pair w ≡ (ok keys, w') → HasTexts keys
  unfolding generate_keys
  generate_keys-HasTexts keys w w' h = grind (arith, made)

  stored-HasTexts :
      (cluster : Cluster) (vc : VerdaCluster) (name : String) (keys : Keys) (u : W)
      → HasTexts keys
      → keys_from_secret vc.metadata.namespace name (key_secret r cluster vc name keys).contents u
        ≡ (ok keys, u)
  unfolding keys_from_secret get_text lookup
  stored-HasTexts cluster vc name keys u texts = ground (
    arith,
    eq_iff keys.client_private_key "",
    eq_iff keys.client_public_key "",
    eq_iff keys.host_private_key "",
    eq_iff keys.host_public_key "",
  )

  -- Where the secret can be read, and has keys.
  read-IsKept :
      (vc : VerdaCluster) (name : String) (keys : Keys) (d : Dict String) (w w' : W)
      → view vc.metadata.namespace name w ≡ some d
      → keys_from_secret vc.metadata.namespace name d w ≡ (ok keys, w')
      → IsKept vc name keys w'
  unfolding keys_from_secret
  read-IsKept vc name keys d w w' seen h = (d, ground (arith, seen), λ u. ground arith)

  -- What another reconciliation stored is read.
  reread-IsKept :
      (vc : VerdaCluster) (name : String) (keys : Keys) (w w' : W)
      → (r.get_secret vc.metadata.namespace name >>= keys_from_secret vc.metadata.namespace name) w
        ≡ (ok keys, w')
      → IsKept vc name keys w'
  reread-IsKept vc name keys w w' h = elim (Option-cases (view vc.metadata.namespace name w)) [
    | inl absent ↦
        let (m, got) = store.get-none vc.metadata.namespace name w absent in
        absurd (ground (arith, got, h))
    | inr (d, seen) ↦
        let got = store.get-some vc.metadata.namespace name d w seen in
        read-IsKept vc name keys d w w' seen (ground (arith, got, h))
  ]

  store_keys-IsKept :
      (cluster : Cluster) (vc : VerdaCluster) (name : String) (keys new : Keys) (w w' : W)
      (x : Result (Unit {0}) × W)
      → r.create_secret (key_secret r cluster vc name new) w ≡ x
      → HasTexts new
      → store_keys r cluster vc name new w ≡ (ok keys, w')
      → IsKept vc name keys w'
  unfolding store_keys
  store_keys-IsKept cluster vc name keys new w w' (ok _, w₁) p texts h =
      let secret = key_secret r cluster vc name new in
      let stays : w₁ ≡ w' = ground (arith, p, h) in
      let same : new ≡ keys = ground (arith, p, h) in
      (
        secret.contents,
        subst (λ v. view vc.metadata.namespace name v ≡ some secret.contents) stays
            (store.view-create secret w w₁ p),
        λ u. stored-HasTexts cluster vc name new u texts ∙ ap (λ (k : Keys). (ok k, u)) same,
      )
  store_keys-IsKept cluster vc name keys new w w' (err e, w₁) p texts h =
      reread-IsKept vc name keys w₁ w' (ground (arith, p, h))

  create_keys-IsKept :
      (cluster : Cluster) (vc : VerdaCluster) (name : String) (keys : Keys) (w w' : W)
      (x : Result Keys × W)
      → generate_keys r.generate_key_pair w ≡ x
      → create_keys r cluster vc name w ≡ (ok keys, w')
      → IsKept vc name keys w'
  unfolding create_keys
  create_keys-IsKept cluster vc name keys w w' (err e, w₁) p h = absurd (ground (arith, p, h))
  create_keys-IsKept cluster vc name keys w w' (ok new, w₁) p h =
      store_keys-IsKept cluster vc name keys new w₁ w'
        (r.create_secret (key_secret r cluster vc name new) w₁) refl
        (generate_keys-HasTexts new w w₁ p) (ground (arith, p, h))

  ensure_keys-IsKept :
      (cluster : Cluster) (vc : VerdaCluster) (name : String) (keys : Keys) (w w' : W)
      → ensure_keys r cluster vc name w ≡ (ok keys, w')
      → IsKept vc name keys w'
  unfolding ensure_keys
  ensure_keys-IsKept cluster vc name keys w w' h =
      elim (Option-cases (view vc.metadata.namespace name w)) [
        | inl absent ↦
            let (m, got) = store.get-none vc.metadata.namespace name w absent in
            create_keys-IsKept cluster vc name keys w w' (generate_keys r.generate_key_pair w) refl
              (ground (arith, got, h))
        | inr (d, seen) ↦
            let got = store.get-some vc.metadata.namespace name d w seen in
            read-IsKept vc name keys d w w' seen (ground (arith, got, h))
      ]

  -- Over a store of secrets, and with key pairs that are not empty: once ensureKeys has returned
  -- keys, be they read, made, or stored by another reconciliation in the meantime, it returns the
  -- same keys again and changes nothing.
  pub ensure_keys_again :
      (cluster : Cluster) (vc : VerdaCluster) (name : String) (keys : Keys) (w w' : W)
      → ensure_keys r cluster vc name w ≡ (ok keys, w')
      → ensure_keys r cluster vc name w' ≡ (ok keys, w')
  ensure_keys_again cluster vc name keys w w' h =
      read_again cluster vc name keys w' (ensure_keys-IsKept cluster vc name keys w w' h)
