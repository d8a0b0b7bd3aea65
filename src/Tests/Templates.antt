-- ===== src/Tests/Templates.antt =====
-- The reconciler of machine templates, over the in-memory cloud.
use cluster_api_provider_ver.Template.{
  reconcile_capacity, capacity_for, identity_of, TemplateReconciler, observe, TemplateState,
}
use cluster_api_provider_ver.Base.{◌∷◌, ◌≡◌, [], refl, ◌⊎◌, true}
use cluster_api_provider_ver.Cloud.Fake.{fake_client, get_instance_type, new_fake, Fake}
use cluster_api_provider_ver.Base.Dict.{lookup}
use cluster_api_provider_ver.Base.Act.{pure}
use cluster_api_provider_ver.Template.Capacity.{
  IsWithoutType, IsWithoutClient, IsPublished, capacity_follows_catalog,
}
use cluster_api_provider_ver.Api.{VerdaMachineTemplate}
use cluster_api_provider_ver.Base.Int.{pos}
use cluster_api_provider_ver.Tests.Fixtures.{
  verda_cluster, machine_spec, metadata, cluster, library, library-IsLawful,
}

abbrev template : VerdaMachineTemplate
template = record {
  metadata = metadata;
  spec = machine_spec;
  status = record {
    capacity = [];
    node_info = record { architecture = ""; operating_system = "" };
    conditions = [];
  };
}

abbrev reconciler : TemplateReconciler Fake
reconciler = record {
  get_template = λ namespace name. pure template;
  get_cluster = λ namespace name. pure cluster;
  get_verda_cluster = λ namespace name. pure verda_cluster;
  new_patch_helper = λ t. pure tt;
  patch = λ before after. pure tt;
  client_for = λ identity. pure fake_client;
  is_defined = λ c. true;
  lib = library;
}

abbrev unobserved : TemplateState Fake
unobserved = record { template = template; world = new_fake }

capacity_follows_catalog_example :
    IsPublished reconciler unobserved (reconcile_capacity reconciler unobserved)
    ⊎ IsWithoutType reconciler unobserved (reconcile_capacity reconciler unobserved)
    ⊎ IsWithoutClient reconciler unobserved (reconcile_capacity reconciler unobserved)
capacity_follows_catalog_example = capacity_follows_catalog reconciler library-IsLawful unobserved

-- 16 GiB of memory, in bytes.
published :
    (reconcile_capacity reconciler unobserved).1.template.status.capacity
    ≡ (("cpu", pos 4) ∷ ("memory", pos 17_179_869_184) ∷ [])
unfolding reconcile_capacity identity_of observe capacity_for lookup fake_client get_instance_type
    new_fake
published = refl
