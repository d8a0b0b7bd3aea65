-- ===== src/LoadBalancer/Templates.antt =====
-- internal/loadbalancer's templates, as text/template renders them, and templates.go's b64.
use cluster_api_provider_ver.Base.{String, ◌<>◌, ℕ, List, [], ◌∷◌, suc}
use cluster_api_provider_ver.Base.Base64.{encode_text}
use cluster_api_provider_ver.Base.Text.{decimal}
use Prim.Native.String.{String}
use cluster_api_provider_ver.LoadBalancer.Types.{Keys}

abbrev pub envoy_version : String
envoy_version = "1.34.1"

abbrev pub envoy_dir : String
envoy_dir = "/etc/envoy"

abbrev pub envoy_lds_path : String
envoy_lds_path = envoy_dir <> "/lds.yaml"

abbrev pub envoy_cds_path : String
envoy_cds_path = envoy_dir <> "/cds.yaml"

abbrev pub config_path : String
config_path = "/etc/haproxy/haproxy.cfg"

-- 6443 where the port is the program's constant.
unfoldable server_lines : ℕ → String → ℕ → List String → String
server_lines port prefix i [] = ""
server_lines port prefix i (ip ∷ ips) =
    prefix
    <> decimal i
    <> " "
    <> ip
    <> ":"
    <> decimal port
    <> " check\n"
    <> server_lines port prefix (suc i) ips

-- haproxy.cfg.tmpl, with one line for a backend.
unfoldable pub render_haproxy : List String → ℕ → String
unfolding server_lines
render_haproxy backends port =
    "# Managed by cluster-api-provider-verda. Do not edit.\n"
    <> "global\n"
    <> "    log /dev/log local0\n"
    <> "    maxconn 4096\n"
    <> "\n"
    <> "defaults\n"
    <> "    mode tcp\n"
    <> "    log global\n"
    <> "    option tcplog\n"
    <> "    option dontlognull\n"
    <> "    timeout connect 10s\n"
    <> "    timeout client 1h\n"
    <> "    timeout server 1h\n"
    <> "\n"
    <> "frontend kube-apiserver\n"
    <> "    bind *:6443\n"
    <> "    default_backend kube-apiserver\n"
    <> "\n"
    <> "backend kube-apiserver\n"
    <> "    balance roundrobin\n"
    <> "    option tcp-check\n"
    <> "    default-server inter 5s fall 3 rise 2\n"
    <> server_lines port "    server cp-" 0 backends

-- envoy-bootstrap.yaml.tmpl
unfoldable pub envoy_bootstrap : String
envoy_bootstrap =
    "# Managed by cluster-api-provider-verda. Do not edit.\n" <> "node:\n" <> "  id: service-lb\n"
    <> "  cluster: service-lb\n" <> "admin:\n" <> "  address:\n"
    <> "    socket_address: {address: 127.0.0.1, port_value: 9901}\n" <> "dynamic_resources:\n"
    <> "  lds_config:\n" <> "    path_config_source:\n" <> "      path: " <> envoy_lds_path <> "\n"
    <> "      watched_directory: {path: " <> envoy_dir <> "}\n" <> "  cds_config:\n"
    <> "    path_config_source:\n" <> "      path: " <> envoy_cds_path <> "\n"
    <> "      watched_directory: {path: " <> envoy_dir <> "}\n"

-- haproxy-startup.sh.tmpl, with the configuration.
unfoldable pub render_haproxy_startup : Keys → String → String
render_haproxy_startup keys config =
    "#!/bin/bash\n"
    <> "# Generated by cluster-api-provider-verda for the control plane load balancer. Do not edit.\n"
    <> "set -euo pipefail\n"
    <> "exec > >(tee -a /var/log/capi-loadbalancer.log) 2>&1\n"
    <> "echo \"[capi-lb] starting $(date -Is)\"\n"
    <> "\n"
    <> "export DEBIAN_FRONTEND=noninteractive\n"
    <> "for i in 1 2 3 4 5; do apt-get update && apt-get install -y haproxy && break || sleep 10; done\n"
    <> "\n"
    <> "# SSH: provider client key and pre-generated host key.\n"
    <> "mkdir -p /root/.ssh && chmod 700 /root/.ssh\n"
    <> "base64 -d >> /root/.ssh/authorized_keys <<'__CAPI_EOF__'\n"
    <> encode_text keys.client_public_key
    <> "\n"
    <> "__CAPI_EOF__\n"
    <> "chmod 600 /root/.ssh/authorized_keys\n"
    <> "base64 -d > /etc/ssh/ssh_host_ed25519_key <<'__CAPI_EOF__'\n"
    <> encode_text keys.host_private_key
    <> "\n"
    <> "__CAPI_EOF__\n"
    <> "base64 -d > /etc/ssh/ssh_host_ed25519_key.pub <<'__CAPI_EOF__'\n"
    <> encode_text keys.host_public_key
    <> "\n"
    <> "__CAPI_EOF__\n"
    <> "chmod 600 /etc/ssh/ssh_host_ed25519_key\n"
    <> "chmod 644 /etc/ssh/ssh_host_ed25519_key.pub\n"
    <> "systemctl restart ssh || systemctl restart sshd\n"
    <> "\n"
    <> "# haproxy\n"
    <> "base64 -d > "
    <> config_path
    <> " <<'__CAPI_EOF__'\n"
    <> encode_text config
    <> "\n"
    <> "__CAPI_EOF__\n"
    <> "haproxy -c -f "
    <> config_path
    <> "\n"
    <> "systemctl enable haproxy\n"
    <> "systemctl restart haproxy\n"
    <> "echo \"[capi-lb] finished $(date -Is)\"\n"

-- envoy-startup.sh.tmpl, with the resources of no frontends.
unfoldable pub render_envoy_startup : Keys → String → String → String
render_envoy_startup keys lds cds =
    "#!/bin/bash\n"
    <> "# Generated by cluster-api-provider-verda for the service load balancer. Do not edit.\n"
    <> "set -euo pipefail\n"
    <> "exec > >(tee -a /var/log/capi-loadbalancer.log) 2>&1\n"
    <> "echo \"[capi-lb] starting $(date -Is)\"\n"
    <> "\n"
    <> "# SSH: provider client key and pre-generated host key.\n"
    <> "mkdir -p /root/.ssh && chmod 700 /root/.ssh\n"
    <> "base64 -d >> /root/.ssh/authorized_keys <<'__CAPI_EOF__'\n"
    <> encode_text keys.client_public_key
    <> "\n"
    <> "__CAPI_EOF__\n"
    <> "chmod 600 /root/.ssh/authorized_keys\n"
    <> "base64 -d > /etc/ssh/ssh_host_ed25519_key <<'__CAPI_EOF__'\n"
    <> encode_text keys.host_private_key
    <> "\n"
    <> "__CAPI_EOF__\n"
    <> "base64 -d > /etc/ssh/ssh_host_ed25519_key.pub <<'__CAPI_EOF__'\n"
    <> encode_text keys.host_public_key
    <> "\n"
    <> "__CAPI_EOF__\n"
    <> "chmod 600 /etc/ssh/ssh_host_ed25519_key\n"
    <> "chmod 644 /etc/ssh/ssh_host_ed25519_key.pub\n"
    <> "systemctl restart ssh || systemctl restart sshd\n"
    <> "\n"
    <> "# envoy\n"
    <> "for i in 1 2 3 4 5; do curl -fsSL -o /usr/local/bin/envoy https://github.com/envoyproxy/envoy/releases/download/v"
    <> envoy_version
    <> "/envoy-"
    <> envoy_version
    <> "-linux-x86_64 && break || sleep 10; done\n"
    <> "chmod 0755 /usr/local/bin/envoy\n"
    <> "mkdir -p "
    <> envoy_dir
    <> "\n"
    <> "base64 -d > "
    <> envoy_dir
    <> "/envoy.yaml <<'__CAPI_EOF__'\n"
    <> encode_text envoy_bootstrap
    <> "\n"
    <> "__CAPI_EOF__\n"
    <> "base64 -d > "
    <> envoy_lds_path
    <> " <<'__CAPI_EOF__'\n"
    <> encode_text lds
    <> "\n"
    <> "__CAPI_EOF__\n"
    <> "base64 -d > "
    <> envoy_cds_path
    <> " <<'__CAPI_EOF__'\n"
    <> encode_text cds
    <> "\n"
    <> "__CAPI_EOF__\n"
    <> "cat > /etc/systemd/system/envoy.service <<'__CAPI_EOF__'\n"
    <> "[Unit]\n"
    <> "Description=Envoy service load balancer (cluster-api-provider-verda)\n"
    <> "After=network-online.target\n"
    <> "Wants=network-online.target\n"
    <> "\n"
    <> "[Service]\n"
    <> "ExecStart=/usr/local/bin/envoy -c /etc/envoy/envoy.yaml --log-path /var/log/envoy.log\n"
    <> "Restart=always\n"
    <> "RestartSec=2\n"
    <> "LimitNOFILE=65536\n"
    <> "\n"
    <> "[Install]\n"
    <> "WantedBy=multi-user.target\n"
    <> "__CAPI_EOF__\n"
    <> "/usr/local/bin/envoy --mode validate -c /etc/envoy/envoy.yaml\n"
    <> "systemctl daemon-reload\n"
    <> "systemctl enable envoy\n"
    <> "systemctl restart envoy\n"
    <> "echo \"[capi-lb] finished $(date -Is)\"\n"
