-- ===== src/Cluster/KeySecrets.antt =====
-- ensureKeys and keysFromSecret: a load balancer's keys, kept in a secret of the management cluster.
use cluster_api_provider_ver.Cluster.Types.{Secret, ClusterReconciler}
use cluster_api_provider_ver.Base.{
  ◌<>◌, not, if◌then◌else◌, ◌∷◌, ◌==◌, some, Bool, String, ◌||◌, [],
}
use cluster_api_provider_ver.Base.Error.{kube_not_found, plain, kube_already_exists, wrap}
use cluster_api_provider_ver.Base.Act.{Act, raise, pure, handle, ◌>>=◌}
use cluster_api_provider_ver.LoadBalancer.{Keys, generate_keys}
use cluster_api_provider_ver.Base.Dict.{get_text, Dict}
use cluster_api_provider_ver.Platform.{Cluster}
use cluster_api_provider_ver.Cluster.Helpers.{verda_cluster_kind}
use cluster_api_provider_ver.Api.{VerdaCluster}

abbrev missing_keys : Keys → Bool
missing_keys keys =
    keys.client_private_key == ""
    || keys.client_public_key == ""
    || keys.host_private_key == ""
    || keys.host_public_key == ""

abbrev keys_of : Dict String → Keys
keys_of contents = record {
  client_private_key = get_text "ssh-privatekey" contents;
  client_public_key = get_text "ssh-publickey" contents;
  host_private_key = get_text "host-privatekey" contents;
  host_public_key = get_text "host-publickey" contents;
}

module _ {W : Type 0} where
  unfoldable pub keys_from_secret : String → String → Dict String → Act W Keys
  keys_from_secret namespace name contents =
      if missing_keys (keys_of contents)
      then raise (plain ("load balancer secret " <> namespace <> "/" <> name <> " is missing keys"))
      else pure (keys_of contents)

  module _ (r : ClusterReconciler W) where
    abbrev pub key_secret : Cluster → VerdaCluster → String → Keys → Secret
    key_secret cluster vc name keys = record {
      namespace = vc.metadata.namespace;
      name = name;
      labels = (r.cluster_name_label, cluster.name) ∷ [];
      controller = some (verda_cluster_kind, vc.metadata.name);
      kind = r.ssh_auth_type;
      contents =
          ("ssh-privatekey", keys.client_private_key)
          ∷ ("ssh-publickey", keys.client_public_key)
          ∷ ("host-privatekey", keys.host_private_key)
          ∷ ("host-publickey", keys.host_public_key)
          ∷ [];
    }

    -- Another reconciliation may have created the secret in the meantime.
    unfoldable pub store_keys : Cluster → VerdaCluster → String → Keys → Act W Keys
    store_keys cluster vc name keys =
        let namespace = vc.metadata.namespace in
        handle (r.create_secret (key_secret cluster vc name keys))
          (λ e.
            if kube_already_exists e
            then r.get_secret namespace name >>= keys_from_secret namespace name
            else raise (wrap ("creating load balancer secret " <> namespace <> "/" <> name) e))
          λ _. pure keys

    unfoldable pub create_keys : Cluster → VerdaCluster → String → Act W Keys
    create_keys cluster vc name = generate_keys r.generate_key_pair >>= store_keys cluster vc name

    unfoldable pub ensure_keys : Cluster → VerdaCluster → String → Act W Keys
    ensure_keys cluster vc name =
        let namespace = vc.metadata.namespace in
        handle (r.get_secret namespace name)
          (λ e.
            if not (kube_not_found e)
            then raise (wrap ("getting load balancer secret " <> namespace <> "/" <> name) e)
            else create_keys cluster vc name)
          (keys_from_secret namespace name)
