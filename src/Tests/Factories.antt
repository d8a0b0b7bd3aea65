-- ===== src/Tests/Factories.antt =====
-- The factory of clients, with a client in its cache that an older version of the secret made.
use cluster_api_provider_ver.Cloud.Factory
use cluster_api_provider_ver.Cloud.Factory.Cache.{client_for_current, secret_at, IsFresh}
use cluster_api_provider_ver.Base.Dict.{get_text, lookup, Dict}
use cluster_api_provider_ver.Base.Act.{ok, pure}
use cluster_api_provider_ver.Base.{eq_iff, arith, [], none, ◌∷◌, ◌≡◌, refl, String}
use cluster_api_provider_ver.Cloud.Fake.{new_fake, Fake, fake_client}

abbrev content : String → String → Dict String
content key version = ("client-id", "id") ∷ ("client-secret", version) ∷ []

abbrev tenant : Factory.Identity
tenant = record { namespace = "default"; secret_name = "tenant" }

abbrev factory : Factory.SecretFactory Fake
factory = record {
  get_secret = λ namespace name. pure (secret_at content "default/tenant" "2");
  global = none;
  new_client = λ credentials. ok fake_client;
}

abbrev old_entry : Factory.CachedClient Fake
old_entry = record { resource_version = "1"; client = fake_client }

abbrev warm : Factory.FactoryState Fake
warm = record { cache = ("default/tenant", old_entry) ∷ []; world = new_fake }

warm-IsFresh : IsFresh factory content warm.cache
unfolding lookup
warm-IsFresh key entry found = ground arith

client_for_current_example :
    ((Factory.client_for factory tenant warm).0
      ≡ factory.new_client (Factory.credentials_of (secret_at content "default/tenant" "2")))
    × IsFresh factory content (Factory.client_for factory tenant warm).1.cache
unfolding get_text lookup
client_for_current_example =
    client_for_current factory content tenant "2" warm new_fake
      (λ p. ground (arith, eq_iff "tenant" "")) refl
      (λ p. ground (arith, eq_iff "id" ""), λ p. ground (arith, eq_iff "2" "")) warm-IsFresh
