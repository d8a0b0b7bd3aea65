-- ===== src/Tests/Services.antt =====
-- The services of one load balancer, and the nodes of the cluster.
use cluster_api_provider_ver.Base.Act.{ok, pure}
use cluster_api_provider_ver.Base.Dict.{lookup}
use cluster_api_provider_ver.Ccm.Nodes.{IsGone, instance_exists_exact, IsUnknown, IsLive}
use cluster_api_provider_ver.Ccm.{
  is_some, port_slot, ServicePort, nothing_shared, expose_service, Service, Node, LbConfig,
  frontends_of, instance_exists, LbScope,
}
use cluster_api_provider_ver.Api.{internal_ip}
use cluster_api_provider_ver.Base.{false, ◌⊎◌, refl, none, ◌∷◌, [], String, List, ◌≡◌, true, inr}
use cluster_api_provider_ver.Tests.Fixtures.{running_instance, cloud_with}
use cluster_api_provider_ver.Base.Distinct.{AllDistinct, contains}
use cluster_api_provider_ver.Ccm.Exposure.{IsRefused, IsExposed, all_or_nothing}
use cluster_api_provider_ver.Ccm.Slots.{slots_distinct, own_slots, slots}
use cluster_api_provider_ver.Base.Text.{decimal}
use cluster_api_provider_ver.Cloud.Fake.{fake_client}
use cluster_api_provider_ver.LoadBalancer.{File}
use cluster_api_provider_ver.Ccm.Refinement.{frontends_of-exposed_frontends, exposed_frontends}

abbrev http : ServicePort
http = record { protocol = "TCP"; port = 80; node_port = 30080 }

abbrev web : Service
web = record {
  namespace = "default";
  name = "web";
  created_at = 1;
  deletion_timestamp = none;
  annotations = [];
  kind = "LoadBalancer";
  ports = http ∷ record http { port = 443; node_port = 30443 } ∷ [];
  external_traffic_policy = "";
  health_check_node_port = 0;
  ingress = [];
}

-- A newer service that wants one of the ports of the first.
abbrev shop : Service
shop = record web { name = "shop"; created_at = 2; ports = http ∷ [] }

web_slots : AllDistinct (own_slots web)
unfolding port_slot contains decimal
web_slots = (refl, (refl, tt))

shop_slots : AllDistinct (own_slots shop)
unfolding port_slot contains decimal
shop_slots = (refl, tt)

slots_distinct_example :
    let s = frontends_of (shop ∷ web ∷ []) ("10.0.0.2" ∷ []) in
    AllDistinct (slots s.frontends)
    × ((x : String) → contains x (slots s.frontends) ≡ is_some (lookup x s.taken))
slots_distinct_example =
    slots_distinct (shop ∷ web ∷ []) ("10.0.0.2" ∷ []) (shop_slots, (web_slots, tt))

all_or_nothing_example :
    let t = expose_service [] web nothing_shared in
    IsExposed [] web nothing_shared t ⊎ IsRefused web nothing_shared t
unfolding lookup
all_or_nothing_example = all_or_nothing [] web nothing_shared refl

abbrev node : Node
node = record {
  name = "worker";
  provider_id = "";
  labels = [];
  deletion_timestamp = none;
  addresses = record { kind = internal_ip; address = "10.0.0.2" } ∷ [];
}

abbrev keys : LbConfig
keys = record { address = "192.0.2.7"; client_private_key = "k"; host_public_key = "h" }

-- The world is the files that were uploaded last.
abbrev balancer : LbScope (List File)
balancer = record {
  get_secret = λ namespace name.
      pure (("address", "192.0.2.7") ∷ ("ssh-privatekey", "k") ∷ ("host-publickey", "h") ∷ []);
  list_services = pure (web ∷ []);
  list_nodes = pure (node ∷ []);
  update_files = λ address keys files reload w. (ok tt, files);
}

abbrev named_node : Node
named_node = record node { provider_id = "verda://worker" }

instance_exists_exact_example :
    let w = cloud_with running_instance in
    let found = (fake_client.find_instance_by_hostname "worker" w).0 in
    let answer = (instance_exists fake_client named_node w).0 in
    (IsGone fake_client found × (answer ≡ ok false))
    ⊎ (IsLive fake_client found × (answer ≡ ok true))
    ⊎ IsUnknown fake_client found answer
instance_exists_exact_example =
    instance_exists_exact fake_client named_node "worker" (cloud_with running_instance) (inr refl)

frontends_of-exposed_frontends_example :
    (frontends_of (shop ∷ web ∷ []) []).frontends ≡ exposed_frontends (shop ∷ web ∷ []) []
unfolding contains
frontends_of-exposed_frontends_example =
    frontends_of-exposed_frontends (shop ∷ web ∷ []) [] (refl, (refl, tt))
