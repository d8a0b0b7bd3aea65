-- ===== src/Cloud/Factory.antt =====
-- internal/cloud/factory.go: the client of an identity, with a cache. NewClient, which connects to
-- nothing, is a parameter. The mutex is not modelled: a call is one action.
pub mod Cache
use cluster_api_provider_ver.Base.{if◌then◌else◌, some, ◌<>◌, ◌||◌, String, none, ◌==◌, Option}
use cluster_api_provider_ver.Base.Act.{raise, err, pure, ok, handle, Act, Result}
use cluster_api_provider_ver.Base.Dict.{lookup, insert, get_text, Dict}
use cluster_api_provider_ver.Base.Error.{wrap, plain}
use cluster_api_provider_ver.Cloud.{Client}

pub record Identity : Type 0 where
  pub namespace : String
  pub secret_name : String

-- The fields of credentials.go's Credentials.
pub record Credentials : Type 0 where
  pub client_id : String
  pub client_secret : String
  pub base_url : String

-- The fields of corev1.Secret that ClientFor reads.
pub record Secret : Type 0 where
  pub content : Dict String
  pub resource_version : String

pub record CachedClient (W : Type 0) : Type 0 where
  pub resource_version : String
  pub client : Client W

pub record SecretFactory (W : Type 0) : Type 0 where
  pub get_secret : String → String → Act W Secret
  pub global : Option (Client W)
  pub new_client : Credentials → Result (Client W)

-- The cache is a field of the factory that ClientFor changes; it stands beside the world.
pub record FactoryState (W : Type 0) : Type 0 where
  pub cache : Dict (CachedClient W)
  pub world : W

abbrev pub credentials_of : Secret → Credentials
credentials_of secret = record {
  client_id = get_text "client-id" secret.content;
  client_secret = get_text "client-secret" secret.content;
  base_url = get_text "base-url" secret.content;
}

-- key.String()
abbrev pub identity_key : Identity → String
identity_key identity = identity.namespace <> "/" <> identity.secret_name

module _ {W : Type 0} (f : SecretFactory W) where
  abbrev global_client : Act (FactoryState W) (Client W)
  global_client = elim f.global [
    | none ↦ raise (plain "no identityRef set and the manager has no global Verda credentials")
    | some c ↦ pure c
  ]

  -- The entry of the cache, where it was made from this version of the secret.
  unfoldable pub cached : Identity → Secret → Dict (CachedClient W) → Option (Client W)
  cached identity secret cache = elim (lookup (identity_key identity) cache) [
    | none ↦ none
    | some entry ↦
        if entry.resource_version == secret.resource_version then some entry.client else none
  ]

  abbrev keep : Identity → Secret → Client W → FactoryState W → FactoryState W
  keep identity secret client s = record s {
    cache =
        insert (identity_key identity)
          (record { resource_version = secret.resource_version; client = client }) s.cache;
  }

  abbrev connect : Identity → Secret → Act (FactoryState W) (Client W)
  connect identity secret s = elim (f.new_client (credentials_of secret)) [
    | err e ↦ (err e, s)
    | ok client ↦ (ok client, keep identity secret client s)
  ]

  -- What ClientFor does once it has read the secret.
  unfoldable pub client_of_secret : Identity → Secret → Act (FactoryState W) (Client W)
  unfolding cached
  client_of_secret identity secret s =
      if (credentials_of secret).client_id == "" || (credentials_of secret).client_secret == ""
      then raise
          (plain (
            "identity secret "
            <> identity_key identity
            <> " must have client-id and client-secret"))
          s
      else elim (cached identity secret s.cache) [
        | some client ↦ (ok client, s)
        | none ↦ connect identity secret s
      ]

  abbrev read_secret : Identity → Act (FactoryState W) Secret
  read_secret identity s =
      let (r, w) = f.get_secret identity.namespace identity.secret_name s.world in
      (r, record s { world = w })

  unfoldable pub client_for : Identity → Act (FactoryState W) (Client W)
  client_for identity s =
      if identity.secret_name == ""
      then global_client s
      else handle (read_secret identity)
          (λ e. raise (wrap ("getting identity secret " <> identity_key identity) e))
          (client_of_secret identity) s
