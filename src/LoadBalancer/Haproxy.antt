-- ===== src/LoadBalancer/Haproxy.antt =====
-- haproxy.go: the control plane load balancer's configuration and keys.
use cluster_api_provider_ver.Base.{String, ◌<>◌, ℕ, List}
use cluster_api_provider_ver.Base.Sort.{sort_texts}
use cluster_api_provider_ver.Base.Error.{wrap}
use cluster_api_provider_ver.Base.Act.{Act, pure, raise, handle}
use Prim.Native.String.{String}
use cluster_api_provider_ver.LoadBalancer.Templates.{
  config_path, render_haproxy, render_haproxy_startup,
}
use cluster_api_provider_ver.LoadBalancer.Types.{Keys}

abbrev pub api_port : ℕ
api_port = 6443

-- Config
unfoldable pub haproxy_config : List String → String
haproxy_config backends = render_haproxy (sort_texts backends) api_port

unfoldable pub startup_script : Keys → List String → String
startup_script keys backends = render_haproxy_startup keys (haproxy_config backends)

abbrev pub update_command : String
update_command =
    "set -e; cat > " <> config_path <> ".new && haproxy -c -f " <> config_path
    <> ".new >/dev/null && mv " <> config_path <> ".new " <> config_path
    <> " && systemctl reload haproxy"

-- GenerateKeys, over generateKeyPair, which is ed25519 and its encodings.
unfoldable pub generate_keys : {W : Type 0} → (String → Act W (String × String)) → Act W Keys
generate_keys generate_key_pair =
    handle (generate_key_pair "cluster-api-provider-verda")
      (λ e. raise (wrap "generating client key" e))
      λ client.
        handle (generate_key_pair "") (λ e. raise (wrap "generating host key" e))
          λ host. pure (record {
            client_private_key = client.0;
            client_public_key = client.1;
            host_private_key = host.0;
            host_public_key = host.1;
          })
