-- ===== src/Tests/Fixtures.antt =====
-- A machine and its cluster, over the in-memory cloud, with concrete library functions.
use cluster_api_provider_ver.Base.{
  true, zero, Bool, none, ◌==◌, String, [], if◌then◌else◌, ◌≡◌, suc, false, ap, some, arith, refl,
  ◌∷◌, List, ℕ,
}
use cluster_api_provider_ver.Base.Distinct.{contains}
use cluster_api_provider_ver.Api.{
  VerdaCluster, VerdaClusterSpec, ControlPlaneLoadBalancer, machine_finalizer, Condition,
  VerdaMachine, ObjectMeta, VerdaMachineStatus, VerdaMachineSpec, LoadBalancerStatus,
}
use cluster_api_provider_ver.Platform.{IsRfc3339, IsLawful, Library, Cluster, Machine, Clock}
use cluster_api_provider_ver.Cloud.{
  tag_managed_by, status_running, Instance, managed_by_value, tag_machine,
}
use cluster_api_provider_ver.Machine.{MachineScope}
use cluster_api_provider_ver.Cloud.Fake.{Fake, fake_client}
use cluster_api_provider_ver.Base.Act.{pure}
use cluster_api_provider_ver.Base.Int.{pos}

abbrev is_true_of : List Condition → String → Bool
is_true_of [] t = false
is_true_of (c ∷ cs) t = if c.kind == t then c.status else is_true_of cs t

abbrev reason_of : List Condition → String → String
reason_of [] t = ""
reason_of (c ∷ cs) t = if c.kind == t then c.reason else reason_of cs t

abbrev message_of : List Condition → String → String
message_of [] t = ""
message_of (c ∷ cs) t = if c.kind == t then c.message else message_of cs t

abbrev without : String → List String → List String
without f [] = []
without f (x ∷ xs) = let rest = without f xs in if x == f then rest else x ∷ rest

abbrev pub library : Library
library = record {
  set_condition = λ cs c. c ∷ cs;
  delete_condition = λ cs t. cs;
  is_true = is_true_of;
  get_reason = reason_of;
  get_message = message_of;
  remove_finalizer = without;
  is_control_plane_machine = λ m. false;
  ready_reason = "Ready";
  not_ready_reason = "NotReady";
  deleting_reason = "Deleting";
  ready_condition = "Ready";
}

contains-without : (f : String) (fs : List String) → contains f (without f fs) ≡ false
unfolding contains
contains-without f [] = refl
contains-without f (x ∷ xs) = ground (arith, contains-without f xs)

pub library-IsLawful : IsLawful library
library-IsLawful = record {
  is_true-set_condition = λ cs c t. refl;
  get_reason-set_condition = λ cs c t. refl;
  contains-remove_finalizer = contains-without;
}

-- A clock that stands still, and writes an instant as a text of that length.
abbrev strokes : ℕ → String
strokes zero = ""
strokes (suc n) = String.◌∷◌ "i" (strokes n)

abbrev count : String → ℕ
count String.[] = 0
count (String.◌∷◌ c s) = suc (count s)

abbrev pub stopped : Clock Fake
stopped = record { now = λ w. (7, w); parse = λ s. some (count s); format = strokes }

count-strokes : (t : ℕ) → count (strokes t) ≡ t
count-strokes zero = refl
count-strokes (suc n) = ap suc (count-strokes n)

pub stopped-IsRfc3339 : IsRfc3339 stopped
stopped-IsRfc3339 = record {
  floor = λ t. t;
  parse-format = λ t. ap some (count-strokes t);
  floor-le = λ t. omega arith;
  lt-floor = λ t. omega arith;
}

abbrev pub scope : MachineScope Fake
scope = record {
  cloud = fake_client;
  lib = library;
  clock = stopped;
  get_secret = λ namespace name. pure (("value", "#!/bin/sh") ∷ []);
  to_startup_script = λ text name. pure (text, []);
}

abbrev pub machine_spec : VerdaMachineSpec
machine_spec = record {
  provider_id = "";
  instance_type = "CPU.4V.16G";
  image = "ubuntu-24.04";
  os_volume_id = "";
  ssh_key_ids = [];
  os_volume_size_gb = pos 0;
  contract = "";
  spot = none;
  spot_discontinue_policy = "";
  additional_volumes = [];
}

abbrev pub fresh_status : VerdaMachineStatus
fresh_status = record {
  provisioned = none;
  conditions = [];
  addresses = [];
  failure_domain = "";
  instance_id = "";
  instance_state = "";
  os_volume_id = "";
  startup_script_id = "";
}

abbrev pub metadata : ObjectMeta
metadata = record {
  namespace = "default";
  name = "worker";
  labels = [];
  annotations = [];
  finalizers = machine_finalizer ∷ [];
  deletion_timestamp = none;
}

abbrev pub verda_machine : VerdaMachine
verda_machine = record { metadata = metadata; spec = machine_spec; status = fresh_status }

abbrev pub off : ControlPlaneLoadBalancer
off = record { enabled = none; instance_type = ""; image = ""; ssh_key_ids = [] }

abbrev pub cluster_spec : VerdaClusterSpec
cluster_spec = record {
  location = "FIN-01";
  control_plane_endpoint = record { host = "10.0.0.1"; port = pos 0 };
  identity_ref = none;
  control_plane_load_balancer = record off { enabled = some true };
  service_load_balancer = off;
}

abbrev no_balancer : LoadBalancerStatus
no_balancer = record {
  instance_id = "";
  startup_script_id = "";
  address = "";
  backends = [];
  secret_published = none;
}

abbrev pub verda_cluster : VerdaCluster
verda_cluster = record {
  metadata = metadata;
  spec = cluster_spec;
  status = record {
    provisioned = some true;
    conditions = [];
    load_balancer = no_balancer;
    service_load_balancer = no_balancer;
    failure_domains = [];
  };
}

abbrev pub cluster : Cluster
cluster = record {
  namespace = "default";
  name = "c1";
  infrastructure_provisioned = some true;
  infrastructure_ref_name = "c1";
  infrastructure_ref_kind = "VerdaCluster";
  control_plane_endpoint = record { host = "10.0.0.1"; port = pos 6443 };
}

abbrev pub machine : Machine
machine = record { namespace = "default"; labels = []; data_secret_name = some "boot" }

abbrev pub running_instance : Instance
running_instance = record {
  id = "inst-1";
  hostname = "worker";
  status = status_running;
  ip = "192.0.2.1";
  location = "FIN-01";
  instance_type = "CPU.4V.16G";
  startup_script_id = "";
  os_volume_id = "";
  tags = (tag_managed_by, managed_by_value) ∷ (tag_machine, "default/worker") ∷ [];
}

-- The in-memory cloud with one instance.
abbrev pub cloud_with : Instance → Fake
cloud_with i = record {
  next_id = 1;
  instances = (i.id, i) ∷ [];
  scripts = [];
  script_names = [];
  volumes = [];
  instance_types = [];
  created = [];
}
