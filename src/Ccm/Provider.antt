-- ===== src/Ccm/Provider.antt =====
-- provider.go: the instances behind the nodes.
use cluster_api_provider_ver.Base.{
  Bool, false, String, if◌then◌else◌, ◌<>◌, List, ◌==◌, ◌∷◌, not, [], ◌||◌,
}
use cluster_api_provider_ver.Base.Text.{trim_prefix, has_prefix}
use cluster_api_provider_ver.Base.Act.{Act, ok, err, handle, pure, Result, ◌>>=◌, raise}
use cluster_api_provider_ver.Base.Error.{plain, errors_is, not_found}
use cluster_api_provider_ver.Api.{external_ip, provider_id_prefix, internal_ip, host_name}
use cluster_api_provider_ver.Cloud.{
  Client, status_offline, status_deleted, status_not_found, status_discontinued, Instance,
}
use cluster_api_provider_ver.Ccm.Types.{NodeAddress, Node}

-- p.lookup up to the call of the client: the hostname that the node's instance has.
unfoldable pub node_hostname : Node → Result String
node_hostname node =
    if node.provider_id == ""
    then ok node.name
    else if has_prefix node.provider_id provider_id_prefix
    then ok (trim_prefix node.provider_id provider_id_prefix)
    else err
        (plain ("node " <> node.name <> " has foreign provider ID \"" <> node.provider_id <> "\""))

pub record InstanceMetadata : Type 0 where
  pub provider_id : String
  pub instance_type : String
  pub node_addresses : List NodeAddress
  pub zone : String
  pub region : String

abbrev pub metadata_of : Instance → InstanceMetadata
metadata_of i = record {
  provider_id = provider_id_prefix <> i.hostname;
  instance_type = i.instance_type;
  node_addresses =
      record { kind = host_name; address = i.hostname }
      ∷ (if i.ip == ""
          then []
          else record { kind = external_ip; address = i.ip }
            ∷ record { kind = internal_ip; address = i.ip }
            ∷ []);
  zone = i.location;
  region = i.location;
}

abbrev pub is_removed : Instance → Bool
is_removed i =
    i.status == status_discontinued || i.status == status_deleted || i.status == status_not_found

module _ {W : Type 0} (client : Client W) where
  abbrev find_named : Result String → Act W Instance
  find_named (err e) w = (err e, w)
  find_named (ok hostname) w = client.find_instance_by_hostname hostname w

  unfoldable pub lookup_node : Node → Act W Instance
  unfolding node_hostname
  lookup_node node = find_named (node_hostname node)

  unfoldable pub instance_exists : Node → Act W Bool
  instance_exists node =
      handle (lookup_node node) (λ e. if errors_is not_found e then pure false else raise e)
        λ i. pure (not (is_removed i))

  unfoldable pub instance_shutdown : Node → Act W Bool
  instance_shutdown node = lookup_node node >>= λ i. pure (i.status == status_offline)

  unfoldable pub instance_metadata : Node → Act W InstanceMetadata
  instance_metadata node = lookup_node node >>= λ i. pure (metadata_of i)
