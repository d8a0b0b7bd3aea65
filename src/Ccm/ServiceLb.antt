-- ===== src/Ccm/ServiceLb.antt =====
-- loadbalancer.go: serviceLB, which renders all services again whenever one of them changes. The
-- mutex that serialises its updates is not modelled: a model's update is one action.
use cluster_api_provider_ver.Base.Act.{raise, handle, Act, pure, ◌>>◌, ◌>>=◌}
use cluster_api_provider_ver.Base.{
  some, ◌&&◌, not, String, ◌==◌, List, Bool, true, ◌||◌, ◌++◌, Option, ◌<>◌, false, [], ◌∷◌,
  if◌then◌else◌, none,
}
use cluster_api_provider_ver.Base.Error.{wrap, missing, kube_not_found, plain, kube_error}
use cluster_api_provider_ver.Api.{external_ip, internal_ip, AddressType}
use cluster_api_provider_ver.Base.Dict.{lookup, get_text, Dict}
use cluster_api_provider_ver.Ccm.Frontends.{Sharing, frontends_of, is_some, service_key}
use cluster_api_provider_ver.Base.Sort.{insert_text}
use Prim.Native.String.{String}
use cluster_api_provider_ver.Ccm.Types.{Service, NodeAddress, Node}
use cluster_api_provider_ver.LoadBalancer.{Frontend, Keys, File, envoy_files}

pub record LbConfig : Type 0 where
  pub address : String
  pub client_private_key : String
  pub host_public_key : String

-- The calls of the Kubernetes client, and the updater of the instance at an address.
pub record LbScope (W : Type 0) : Type 0 where
  pub get_secret : String → String → Act W (Dict String)
  pub list_services : Act W (List Service)
  pub list_nodes : Act W (List Node)
  pub update_files : String → Keys → List File → String → Act W (Unit {0})

abbrev pub service_lb_secret_name : String
service_lb_secret_name = "verda-service-lb"

abbrev pub exclude_label : String
exclude_label = "node.kubernetes.io/exclude-from-external-load-balancers"

abbrev of_kind : AddressType → AddressType → Bool
of_kind internal_ip internal_ip = true
of_kind external_ip external_ip = true
of_kind _ _ = false

unfoldable pub first_address : AddressType → List NodeAddress → String
first_address kind [] = ""
first_address kind (a ∷ rest) =
    let later = first_address kind rest in
    if of_kind kind a.kind && not (a.address == "") then a.address else later

unfoldable pub node_address : Node → String
unfolding first_address
node_address node =
    let internal = first_address internal_ip node.addresses in
    if internal == "" then first_address external_ip node.addresses else internal

abbrev pub is_backend : Node → Bool
is_backend node =
    not (is_some (lookup exclude_label node.labels))
    && not (is_some node.deletion_timestamp)
    && not (node_address node == "")

unfoldable pub backend_addresses : List Node → List String
backend_addresses [] = []
backend_addresses (node ∷ nodes) =
    let rest = backend_addresses nodes in
    if is_backend node then insert_text (node_address node) rest else rest

abbrev same_service : Service → Service → Bool
same_service a b = a.namespace == b.namespace && a.name == b.name

abbrev pub is_current : Option Service → Service → Bool
is_current none svc = false
is_current (some current) svc = same_service svc current

abbrev pub is_skipped : Option Service → Service → Bool
is_skipped none svc = false
is_skipped (some deleting) svc = service_key svc == service_key deleting

-- The listed services that sync exposes beside the current one.
unfoldable pub other_services : Option Service → Option Service → List Service → List Service
other_services current deleting [] = []
other_services current deleting (svc ∷ rest) =
    let others = other_services current deleting rest in
    if not (svc.kind == "LoadBalancer")
      || is_skipped deleting svc
      || is_some svc.deletion_timestamp
      || is_current current svc
    then others
    else svc ∷ others

abbrev pub or_current : Option Service → List Service
or_current none = []
or_current (some svc) = svc ∷ []

-- The error of sync where the current service is in conflict.
abbrev pub conflict_of : Option Service → Dict String → Option String
conflict_of none conflicts = none
conflict_of (some svc) conflicts = elim (lookup (service_key svc) conflicts) [
  | none ↦ none
  | some reason ↦ some ("service " <> service_key svc <> ": " <> reason)
]

module _ {W : Type 0} (l : LbScope W) where
  unfoldable pub backend_nodes : Act W (List String)
  unfolding backend_addresses insert_text node_address
  backend_nodes =
      handle l.list_nodes (λ e. raise (wrap "listing nodes" e))
        λ nodes. pure (backend_addresses nodes)

  abbrev get_data : String → Dict String → String
  get_data key secret = get_text key secret

  -- The text of the first error is the name that it is given.
  unfoldable pub config : Act W LbConfig
  config =
      handle (l.get_secret "kube-system" service_lb_secret_name)
        (λ e.
          if kube_not_found e
          then raise (
              kube_error missing (
                service_lb_secret_name
                <> " (enable spec.serviceLoadBalancer on the VerdaCluster to get a load balancer)"))
          else raise (wrap ("reading kube-system/" <> service_lb_secret_name) e))
        λ secret.
          if get_data "address" secret == ""
            || get_data "ssh-privatekey" secret == ""
            || get_data "host-publickey" secret == ""
          then raise (plain ("secret kube-system/" <> service_lb_secret_name <> " is incomplete"))
          else pure (record {
            address = get_data "address" secret;
            client_private_key = get_data "ssh-privatekey" secret;
            host_public_key = get_data "host-publickey" secret;
          })

  abbrev keys_of : LbConfig → Keys
  keys_of lb = record {
    client_private_key = lb.client_private_key;
    client_public_key = "";
    host_private_key = "";
    host_public_key = lb.host_public_key;
  }

  abbrev pub update_listeners : LbConfig → List Frontend → Act W (Unit {0})
  update_listeners lb frontends = l.update_files lb.address (keys_of lb) (envoy_files frontends) ""

  -- What sync does with the services and nodes that it has read.
  unfoldable pub upload : LbConfig → Option Service → Sharing → Act W (Unit {0})
  upload lb current s = elim (conflict_of current s.conflicts) [
    | some reason ↦ raise (plain reason)
    | none ↦ update_listeners lb s.frontends
  ]

  unfoldable pub sync : LbConfig → Option Service → Option Service → Act W (Unit {0})
  sync lb current deleting =
      handle l.list_services (λ e. raise (wrap "listing services" e))
        λ services. do
          nodes ← backend_nodes
          upload lb current
              (frontends_of (other_services current deleting services ++ or_current current) nodes)

  -- The status that a load balancer is reported with is its one address.
  unfoldable pub get_load_balancer : Service → Act W (Option String)
  get_load_balancer svc =
      handle config (λ e. if kube_not_found e then pure none else raise e)
        λ lb. elim svc.ingress [ [] ↦ pure none | _ ∷ _ ↦ pure (some lb.address) ]

  unfoldable pub ensure_load_balancer : Service → Act W String
  ensure_load_balancer svc = do lb ← config; sync lb (some svc) none; pure lb.address

  unfoldable pub update_load_balancer : Service → Act W (Unit {0})
  update_load_balancer svc = config >>= λ lb. sync lb (some svc) none

  unfoldable pub ensure_load_balancer_deleted : Service → Act W (Unit {0})
  ensure_load_balancer_deleted svc =
      handle config (λ e. if kube_not_found e then pure tt else raise e)
        λ lb. sync lb none (some svc)
