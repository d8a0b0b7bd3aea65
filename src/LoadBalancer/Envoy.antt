-- ===== src/LoadBalancer/Envoy.antt =====
-- envoy.go: the listeners and clusters of the service load balancer's envoy.
use cluster_api_provider_ver.Base.{
  String, ◌<>◌, Bool, not, ◌&&◌, ◌||◌, List, [], ◌∷◌, map, ltb, if◌then◌else◌,
}
use cluster_api_provider_ver.Base.Text.{decimal, codes, equal_fold}
use cluster_api_provider_ver.Base.Sort.{codes_leb}
use Prim.Native.String.{String}
use cluster_api_provider_ver.LoadBalancer.Templates.{
  envoy_cds_path, render_envoy_startup, envoy_lds_path,
}
use cluster_api_provider_ver.LoadBalancer.Types.{Frontend, File, Keys, Backend}

-- slices.SortFunc by name and by address. Go leaves the order of equal keys open; here they keep
-- theirs.
unfoldable insert_frontend : Frontend → List Frontend → List Frontend
insert_frontend x [] = x ∷ []
insert_frontend x (y ∷ ys) =
    let later = insert_frontend x ys in
    if codes_leb (codes x.name) (codes y.name) then x ∷ y ∷ ys else y ∷ later

unfoldable sort_frontends : List Frontend → List Frontend
unfolding insert_frontend
sort_frontends [] = []
sort_frontends (x ∷ xs) = insert_frontend x (sort_frontends xs)

unfoldable insert_backend : Backend → List Backend → List Backend
insert_backend x [] = x ∷ []
insert_backend x (y ∷ ys) =
    let later = insert_backend x ys in
    if codes_leb (codes x.address) (codes y.address) then x ∷ y ∷ ys else y ∷ later

unfoldable sort_backends : List Backend → List Backend
unfolding insert_backend
sort_backends [] = []
sort_backends (x ∷ xs) = insert_backend x (sort_backends xs)

abbrev view_of : Frontend → Frontend
view_of f = record f { backends = sort_backends f.backends }

abbrev is_udp : Frontend → Bool
is_udp f = equal_fold f.protocol "UDP"

abbrev lds_address : Frontend → String
lds_address f =
    if is_udp f
    then "  address:\n"
      <> "    socket_address: {protocol: UDP, address: 0.0.0.0, port_value: "
      <> decimal f.port
      <> "}\n"
      <> "  listener_filters:\n"
      <> "  - name: envoy.filters.udp_listener.udp_proxy\n"
      <> "    typed_config:\n"
      <> "      \"@type\": type.googleapis.com/envoy.extensions.filters.udp.udp_proxy.v3.UdpProxyConfig\n"
      <> "      stat_prefix: "
      <> f.name
      <> "\n"
      <> "      matcher:\n"
      <> "        on_no_match:\n"
      <> "          action:\n"
      <> "            name: route\n"
      <> "            typed_config:\n"
      <> "              \"@type\": type.googleapis.com/envoy.extensions.filters.udp.udp_proxy.v3.Route\n"
    else "{{- else }}\n"
      <> "  address:\n"
      <> "    socket_address: {address: 0.0.0.0, port_value: "
      <> decimal f.port
      <> "}\n"
      <> "  filter_chains:\n"
      <> "  - filters:\n"
      <> "    - name: envoy.filters.network.tcp_proxy\n"
      <> "      typed_config:\n"
      <> "        \"@type\": type.googleapis.com/envoy.extensions.filters.network.tcp_proxy.v3.TcpProxy\n"
      <> "        stat_prefix: "
      <> f.name
      <> "\n"

-- envoy-lds.yaml.tmpl for one frontend, and for all.
unfoldable lds_of : Frontend → String
lds_of f =
    "- \"@type\": type.googleapis.com/envoy.config.listener.v3.Listener\n"
    <> "  name: "
    <> f.name
    <> "\n"
    <> lds_address f

unfoldable concat_texts : List String → String
concat_texts [] = ""
concat_texts (t ∷ ts) = t <> concat_texts ts

abbrev resources : List String → String
resources entries =
    "# Managed by cluster-api-provider-verda. Do not edit.\n"
    <> "resources:\n"
    <> concat_texts entries

abbrev endpoint_of : Backend → String
endpoint_of b =
    "      - endpoint:\n"
    <> "          address:\n"
    <> "            socket_address: {address: "
    <> b.address
    <> ", port_value: "
    <> decimal b.port
    <> "}\n"

unfoldable endpoint_lines : List Backend → String
endpoint_lines [] = ""
endpoint_lines (b ∷ bs) = endpoint_of b <> endpoint_lines bs

abbrev endpoints : List Backend → String
endpoints [] = "      []\n"
endpoints (b ∷ bs) = endpoint_lines (b ∷ bs)

abbrev health_checks : Frontend → String
health_checks f =
    if ltb 0 f.health_check_port || not (is_udp f)
    then "  health_checks:\n"
      <> "  - timeout: 2s\n"
      <> "    interval: 5s\n"
      <> "    no_traffic_interval: 5s\n"
      <> "    unhealthy_threshold: 3\n"
      <> "    healthy_threshold: 2\n"
      <> (if ltb 0 f.health_check_port
          then "    alt_port: "
            <> decimal f.health_check_port
            <> "\n"
            <> "    http_health_check: {path: /healthz}\n"
          else "    tcp_health_check: {}\n")
    else ""

abbrev proxy_transport : Frontend → String
proxy_transport f =
    if f.proxy_protocol && not (is_udp f)
    then "  transport_socket:\n" <> "    name: envoy.transport_sockets.upstream_proxy_protocol\n"
      <> "    typed_config:\n"
      <> "      \"@type\": type.googleapis.com/envoy.extensions.transport_sockets.proxy_protocol.v3.ProxyProtocolUpstreamTransport\n"
      <> "      config: {version: V2}\n" <> "      transport_socket:\n"
      <> "        name: envoy.transport_sockets.raw_buffer\n" <> "        typed_config:\n"
      <> "          \"@type\": type.googleapis.com/envoy.extensions.transport_sockets.raw_buffer.v3.RawBuffer\n"
    else ""

-- envoy-cds.yaml.tmpl for one frontend.
unfoldable cds_of : Frontend → String
unfolding endpoint_lines
cds_of f =
    "- \"@type\": type.googleapis.com/envoy.config.cluster.v3.Cluster\n"
    <> "  name: "
    <> f.name
    <> "\n"
    <> "  type: STATIC\n"
    <> "  connect_timeout: 5s\n"
    <> "  lb_policy: ROUND_ROBIN\n"
    <> "  load_assignment:\n"
    <> "    cluster_name: "
    <> f.name
    <> "\n"
    <> "    endpoints:\n"
    <> "    - lb_endpoints:\n"
    <> endpoints f.backends
    <> health_checks f
    <> proxy_transport f

-- EnvoyResources: the two files, from the frontends and their backends in order.
unfoldable pub envoy_lds : List Frontend → String
unfolding concat_texts lds_of sort_frontends sort_backends
envoy_lds frontends = resources (map lds_of (map view_of (sort_frontends frontends)))

unfoldable pub envoy_cds : List Frontend → String
unfolding concat_texts cds_of sort_frontends sort_backends
envoy_cds frontends = resources (map cds_of (map view_of (sort_frontends frontends)))

-- EnvoyStartupScript
unfoldable pub envoy_startup_script : Keys → String
unfolding envoy_lds envoy_cds render_envoy_startup
envoy_startup_script keys = render_envoy_startup keys (envoy_lds []) (envoy_cds [])

-- EnvoyFiles: the clusters before the listeners that name them.
unfoldable pub envoy_files : List Frontend → List File
unfolding envoy_lds envoy_cds
envoy_files frontends =
    record { path = envoy_cds_path; content = envoy_cds frontends }
    ∷ record { path = envoy_lds_path; content = envoy_lds frontends }
    ∷ []
