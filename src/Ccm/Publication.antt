-- ===== src/Ccm/Publication.antt =====
-- The secret by which the cluster reconciler hands the load balancer to the controller manager: what
-- publishServiceLoadBalancerSecret writes, config reads.
-- A client of the workload cluster, by what it reads.
use cluster_api_provider_ver.Base.{
  ◌≢◌, ◌≡◌, true, Option, refl, String, Bool-cases, Option-cases, some, none, inr, inl, eq_iff,
  arith,
}
use cluster_api_provider_ver.Cluster.{
  publish_to, WorkloadClient, is_published, Secret, published_contents, published_secret,
}
use cluster_api_provider_ver.LoadBalancer.{Keys}
use cluster_api_provider_ver.Base.Act.{ok, err}
use cluster_api_provider_ver.Base.Dict.{Dict, get_text, lookup}
use cluster_api_provider_ver.Ccm.ServiceLb.{service_lb_secret_name, LbScope, config}
use cluster_api_provider_ver.Base.Error.{kube_error, missing}
use cluster_api_provider_ver.Platform.{Cluster}

pub record IsSecretStore {W : Type 0} (client : WorkloadClient W)
    (view : String → String → W → Option (Dict String)) : Type 0 where
  pub get-none :
      (namespace name : String) (w : W)
      → view namespace name w ≡ none
      → (m : String) × (client.get namespace name w ≡ (err (kube_error missing m), w))
  pub get-some :
      (namespace name : String) (d : Dict String) (w : W)
      → view namespace name w ≡ some d
      → client.get namespace name w ≡ (ok d, w)
  pub view-create :
      (secret : Secret) (w w' : W)
      → client.create secret w ≡ (ok tt, w')
      → view secret.namespace secret.name w' ≡ some secret.contents
  pub view-update :
      (namespace name : String) (d : Dict String) (w w' : W)
      → client.update namespace name d w ≡ (ok tt, w')
      → view namespace name w' ≡ some d

abbrev Says : String → Keys → Dict String → Type 0
Says address keys d =
    (get_text "address" d ≡ address)
    × (get_text "ssh-privatekey" d ≡ keys.client_private_key)
    × (get_text "host-publickey" d ≡ keys.host_public_key)

published-Says :
    (cluster : Cluster) (address : String) (keys : Keys)
    → Says address keys (published_contents cluster address keys)
unfolding published_contents get_text lookup
published-Says cluster address keys = (refl, refl, refl)

module _ {W : Type 0} {client : WorkloadClient W}
    {view : String → String → W → Option (Dict String)} (store : IsSecretStore client view) where
  -- After publishing succeeds, the secret says the address and the keys.
  view-publish_to :
      (cluster : Cluster) (address : String) (keys : Keys) (w w' : W)
      → ((d : Dict String)
          → view "kube-system" service_lb_secret_name w ≡ some d
          → is_published address keys d ≡ true
          → get_text "host-publickey" d ≡ keys.host_public_key)
      → publish_to client cluster address keys w ≡ (ok tt, w')
      → (d : Dict String) × (view "kube-system" service_lb_secret_name w' ≡ some d)
        × Says address keys d
  unfolding publish_to is_published
  view-publish_to cluster address keys w w' known h =
      elim (Option-cases (view "kube-system" service_lb_secret_name w)) [
        | inl absent ↦
            let (m, got) = store.get-none "kube-system" service_lb_secret_name w absent in
            (
              published_contents cluster address keys,
              store.view-create (published_secret cluster address keys) w w'
                  (ground (arith, got, h)),
              published-Says cluster address keys,
            )
        | inr (d, present) ↦
            let got = store.get-some "kube-system" service_lb_secret_name d w present in
            elim (Bool-cases (is_published address keys d)) [
              | inl same ↦ (
                d,
                ground (arith, got, h, present),
                (
                  ground (arith, eq_iff (get_text "address" d) address),
                  ground (arith, eq_iff (get_text "ssh-privatekey" d) keys.client_private_key),
                  known d present same,
                ),
              )
              | inr other ↦ (
                published_contents cluster address keys,
                store.view-update "kube-system" service_lb_secret_name
                    (published_contents cluster address keys) w w' (ground (arith, got, h)),
                published-Says cluster address keys,
              )
            ]
      ]

  config-view :
      (l : LbScope W) (address : String) (keys : Keys) (d : Dict String) (w : W)
      → address ≢ ""
      → keys.client_private_key ≢ ""
      → keys.host_public_key ≢ ""
      → view "kube-system" service_lb_secret_name w ≡ some d
      → Says address keys d
      → config (record l { get_secret = client.get }) w ≡ (
        ok (record {
          address = address;
          client_private_key = keys.client_private_key;
          host_public_key = keys.host_public_key;
        }),
        w,
      )
  unfolding config
  config-view l address keys d w a b c seen (p, q, o) =
      let got = store.get-some "kube-system" service_lb_secret_name d w seen in
      ground (
        arith,
        got,
        eq_iff address "",
        eq_iff keys.client_private_key "",
        eq_iff keys.host_public_key "",
      )

  -- Where a client stores secrets, and the secret of the load balancer, if it is there with the
  -- address and the client's key, has the host's key too: after publishServiceLoadBalancerSecret
  -- succeeds with an address and keys that are not empty, config over the same client gives that
  -- address, that client's key and that host's key.
  pub config-publish_to :
      (l : LbScope W) (cluster : Cluster) (address : String) (keys : Keys) (w w' : W)
      → address ≢ ""
      → keys.client_private_key ≢ ""
      → keys.host_public_key ≢ ""
      → ((d : Dict String)
          → view "kube-system" service_lb_secret_name w ≡ some d
          → is_published address keys d ≡ true
          → get_text "host-publickey" d ≡ keys.host_public_key)
      → publish_to client cluster address keys w ≡ (ok tt, w')
      → config (record l { get_secret = client.get }) w' ≡ (
        ok (record {
          address = address;
          client_private_key = keys.client_private_key;
          host_public_key = keys.host_public_key;
        }),
        w',
      )
  config-publish_to l cluster address keys w w' a b c known h =
      let (d, seen, said) = view-publish_to cluster address keys w w' known h in
      config-view l address keys d w' a b c seen said
