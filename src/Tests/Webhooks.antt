-- ===== src/Tests/Webhooks.antt =====
-- The webhooks, on a machine and on a cluster.
use cluster_api_provider_ver.Webhook.MachineRules.{
  IsSpotConsistent, machine_create_exact, machine_update_exact, KeepsImmutable, IsBootable,
}
use cluster_api_provider_ver.Base.{none, true, ◌↔◌, ◌≢◌, false, ◌≡◌, ◌⊎◌, some, []}
use cluster_api_provider_ver.Webhook.{
  validate_cluster_update, validate_machine_update, validate_cluster_create,
  validate_machine_create, validate_cluster_template_update, validate_cluster_template_create,
  validate_template_create, validate_template_update,
}
use cluster_api_provider_ver.Webhook.ClusterRules.{cluster_update_exact, KeepsPlace}
use cluster_api_provider_ver.Base.Int.{pos}
use cluster_api_provider_ver.Api.{
  VerdaCluster, VerdaMachine, VerdaMachineSpec, VerdaClusterSpec, VerdaMachineTemplate,
  VerdaClusterTemplate,
}
use cluster_api_provider_ver.Tests.Fixtures.{
  cluster_spec, machine_spec, verda_machine, verda_cluster, metadata,
}
use cluster_api_provider_ver.Base.Act.{ok}
use cluster_api_provider_ver.Webhook.TemplateRules.{template_update_exact}

machine_create_exact_example :
    (validate_machine_create verda_machine ≡ none)
    ↔ ((machine_spec.instance_type ≢ "") × IsBootable machine_spec × IsSpotConsistent machine_spec)
machine_create_exact_example = machine_create_exact verda_machine

abbrev resized : VerdaMachine
resized = record verda_machine { spec = record machine_spec { instance_type = "1H100.80S.30V" } }

machine_update_exact_example :
    (validate_machine_update verda_machine resized ≡ none)
    ↔ ((validate_machine_create resized ≡ none) × KeepsImmutable machine_spec resized.spec)
machine_update_exact_example = machine_update_exact verda_machine resized

abbrev spot_spec : VerdaMachineSpec
spot_spec = record machine_spec { spot = some true }

abbrev cloned : VerdaMachine
cloned = record verda_machine {
  spec = record machine_spec { image = ""; os_volume_id = "v1"; os_volume_size_gb = pos 50 };
}

abbrev moved : VerdaCluster
moved = record verda_cluster { spec = record cluster_spec { location = "FIN-02" } }

cluster_update_exact_example :
    (validate_cluster_update verda_cluster moved ≡ none)
    ↔ ((validate_cluster_create moved ≡ none) × KeepsPlace cluster_spec moved.spec)
cluster_update_exact_example = cluster_update_exact verda_cluster moved

abbrev machine_template : VerdaMachineSpec → VerdaMachineTemplate
machine_template spec = record {
  metadata = metadata;
  spec = spec;
  status = record {
    capacity = [];
    node_info = record { architecture = ""; operating_system = "" };
    conditions = [];
  };
}

abbrev cluster_template : VerdaClusterSpec → VerdaClusterTemplate
cluster_template spec = record { metadata = metadata; spec = spec }

template_update_exact_example :
    let old = machine_template machine_spec in
    let new = machine_template spot_spec in
    let before = cluster_template cluster_spec in
    let after = cluster_template moved.spec in
    ((validate_template_update (ok false) old new ≡ ok none)
      ↔ ((validate_template_create new ≡ none) × ((false ≡ true) ⊎ (old.spec ≡ new.spec))))
    × ((validate_cluster_template_update (ok false) before after ≡ ok none) ↔ (
        (validate_cluster_template_create after ≡ none)
        × ((false ≡ true) ⊎ (before.spec ≡ after.spec))))
template_update_exact_example =
    template_update_exact false (machine_template machine_spec) (machine_template spot_spec)
      (cluster_template cluster_spec) (cluster_template moved.spec)
