-- ===== src/Ccm/Frontends.antt =====
-- loadbalancer.go: Frontends, which shares the ports of one load balancer among the services.
use cluster_api_provider_ver.Base.Text.{codes, equal_fold, to_lower, decimal}
use cluster_api_provider_ver.Base.{
  [], ◌||◌, not, ltb, Option, ◌++◌, ◌==◌, some, false, Bool, ◌&&◌, ◌∷◌, String, List, ◌<>◌, map,
  nat_eq, true, if◌then◌else◌, none, ℕ,
}
use Prim.Native.Char.{code}
use cluster_api_provider_ver.Base.Dict.{Dict, get_text, insert, lookup}
use cluster_api_provider_ver.Base.Sort.{codes_leb}
use Prim.Native.String.{String}
use cluster_api_provider_ver.Ccm.Types.{Service, ServicePort}
use cluster_api_provider_ver.LoadBalancer.{Frontend}

-- svc.Namespace + "/" + svc.Name
abbrev pub service_key : Service → String
service_key svc = svc.namespace <> "/" <> svc.name

-- The comparison of SortFunc: by the time of creation, then by the key.
unfoldable pub service_leb : Service → Service → Bool
unfolding codes_leb
service_leb a b =
    if nat_eq a.created_at b.created_at
    then codes_leb (codes (service_key a)) (codes (service_key b))
    else ltb a.created_at b.created_at

-- slices.SortFunc, by insertion.
unfoldable pub insert_service : Service → List Service → List Service
insert_service x [] = x ∷ []
insert_service x (y ∷ ys) =
    let later = insert_service x ys in if service_leb y x then y ∷ later else x ∷ y ∷ ys

unfoldable pub sort_services : List Service → List Service
sort_services [] = []
sort_services (x ∷ xs) = insert_service x (sort_services xs)

-- The two replacements of the Replacer, '-' and '.', each by '_'.
unfoldable pub sanitize : String → String
sanitize String.[] = ""
sanitize (String.◌∷◌ c s) =
    if nat_eq (code c) b'-' || nat_eq (code c) b'.'
    then "_" <> sanitize s
    else String.◌∷◌ c (sanitize s)

unfoldable pub frontend_name : Service → ServicePort → String
frontend_name svc port =
    sanitize svc.namespace
    <> "_"
    <> sanitize svc.name
    <> "_"
    <> decimal port.port
    <> "_"
    <> (if to_lower port.protocol == "" then "tcp" else to_lower port.protocol)

abbrev pub proto_of : ServicePort → String
proto_of port = if port.protocol == "" then "TCP" else port.protocol

abbrev slot_text : ℕ → String → String
slot_text port proto = decimal port <> "/" <> proto

unfoldable pub port_slot : ServicePort → String
port_slot port = slot_text port.port (proto_of port)

unfoldable pub frontend_slot : Frontend → String
frontend_slot f = slot_text f.port f.protocol

abbrev pub proxy_protocol_annotation : String
proxy_protocol_annotation = "verda.cluster.x-k8s.io/proxy-protocol"

unfoldable pub frontend : Service → List String → ServicePort → Frontend
frontend svc nodes port = record {
  name = frontend_name svc port;
  protocol = proto_of port;
  port = port.port;
  proxy_protocol = equal_fold (get_text proxy_protocol_annotation svc.annotations) "true";
  health_check_port =
      if svc.external_traffic_policy == "Local" then svc.health_check_node_port else 0;
  backends = map (λ n. record { address = n; port = port.node_port }) nodes;
}

-- Why the port of a service cannot be exposed, where `taken` maps the slots in use to their owners.
unfoldable pub port_conflict : Dict String → ServicePort → Option String
port_conflict taken port =
    if not (proto_of port == "TCP") && not (proto_of port == "UDP")
    then some ("protocol " <> proto_of port <> " is not supported")
    else if nat_eq port.node_port 0
    then some ("port " <> decimal port.port <> " has no nodePort yet")
    else elim (lookup (port_slot port) taken) [
      | none ↦ none
      | some owner ↦ some (
          "port "
          <> port_slot port
          <> " is already used by "
          <> owner
          <> " on the shared load balancer")
    ]

-- The loop over the ports of a service: the frontends before the first conflict, and the conflict.
unfoldable pub claim_ports :
    Service → List String → Dict String → List ServicePort → List Frontend × Option String
claim_ports svc nodes taken [] = ([], none)
claim_ports svc nodes taken (port ∷ ports) =
    let rest = claim_ports svc nodes taken ports in
    elim (port_conflict taken port) [
      | some reason ↦ ([], some reason)
      | none ↦ (frontend svc nodes port ∷ rest.0, rest.1)
    ]

-- The variables of the loop over the services.
pub record Sharing : Type 0 where
  pub conflicts : Dict String
  pub taken : Dict String
  pub frontends : List Frontend

abbrev pub note_conflict : String → Option String → Dict String → Dict String
note_conflict key none conflicts = conflicts
note_conflict key (some reason) conflicts = insert key reason conflicts

unfoldable pub take_slots : String → List Frontend → Dict String → Dict String
take_slots key [] taken = taken
take_slots key (f ∷ fs) taken = take_slots key fs (insert (frontend_slot f) key taken)

abbrev pub is_some : {A : Type 0} → Option A → Bool
is_some none = false
is_some (some _) = true

unfoldable pub expose_service : List String → Service → Sharing → Sharing
unfolding take_slots
expose_service nodes svc s =
    let (mine, conflict) = claim_ports svc nodes s.taken svc.ports in
    let conflicts = note_conflict (service_key svc) conflict s.conflicts in
    if is_some (lookup (service_key svc) conflicts)
    then record s { conflicts = conflicts }
    else record s {
      conflicts = conflicts;
      taken = take_slots (service_key svc) mine s.taken;
      frontends = s.frontends ++ mine;
    }

unfoldable pub expose_all : List String → List Service → Sharing → Sharing
expose_all nodes [] s = s
expose_all nodes (svc ∷ rest) s = expose_all nodes rest (expose_service nodes svc s)

abbrev pub nothing_shared : Sharing
nothing_shared = record { conflicts = []; taken = []; frontends = [] }

unfoldable pub frontends_of : List Service → List String → Sharing
frontends_of services nodes = expose_all nodes (sort_services services) nothing_shared
