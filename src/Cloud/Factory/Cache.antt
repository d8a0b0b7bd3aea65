-- ===== src/Cloud/Factory/Cache.antt =====
-- factory.go: the cache of clients, and the secrets that its clients were made from.
use cluster_api_provider_ver.Base.Dict.{insert, Dict, lookup, lookup-insert}
use cluster_api_provider_ver.Cloud.Factory.{
  identity_key, cached, Identity, client_of_secret, FactoryState, client_for, CachedClient,
  credentials_of, SecretFactory, Secret,
}
use cluster_api_provider_ver.Cloud.{Client}
use cluster_api_provider_ver.Base.{
  ◌≡◌, String, some, ◌≢◌, eq_iff, inl, Option, Option-cases, inr, arith, ◌∙◌, none, sym, refl,
}
use cluster_api_provider_ver.Base.Act.{ok, Result, err}

-- The secret of that key as it was at that version, where `content` says what each version held.
abbrev pub secret_at : (String → String → Dict String) → String → String → Secret
secret_at content key version = record { content = content key version; resource_version = version }

module _ {W : Type 0} (f : SecretFactory W) (content : String → String → Dict String) where
  -- Every client in the cache is the one that the credentials of its secret's version make.
  abbrev pub IsFresh : Dict (CachedClient W) → Type 0
  IsFresh cache =
      (key : String) (entry : CachedClient W)
      → lookup key cache ≡ some entry
      → f.new_client (credentials_of (secret_at content key entry.resource_version))
        ≡ ok entry.client

  cached_lem :
      (identity : Identity) (version : String) (cache : Dict (CachedClient W)) (client : Client W)
      → IsFresh cache
      → cached f identity (secret_at content (identity_key identity) version) cache ≡ some client
      → f.new_client (credentials_of (secret_at content (identity_key identity) version))
        ≡ ok client
  unfolding cached
  cached_lem identity version cache client fresh hit =
      elim (Option-cases (lookup (identity_key identity) cache)) [
        | inl e ↦ ground (arith, hit, e)
        | inr (entry, e) ↦ ground (
          arith,
          hit,
          e,
          fresh (identity_key identity) entry e,
          eq_iff entry.resource_version version,
        )
      ]

  IsFresh-insert :
      (identity : Identity) (version : String) (cache : Dict (CachedClient W)) (client : Client W)
      → IsFresh cache
      → f.new_client (credentials_of (secret_at content (identity_key identity) version))
        ≡ ok client
      → IsFresh (
          insert
            (identity_key identity)
            (record { resource_version = version; client = client })
            cache)
  IsFresh-insert identity version cache client fresh made key entry found = ground (
    arith,
    fresh key entry,
    eq_iff (identity_key identity) key,
    lookup-insert (identity_key identity) key
        (record { resource_version = version; client = client }) cache,
  )

  abbrev HasKeys : Secret → Type 0
  HasKeys secret =
      ((credentials_of secret).client_id ≢ "") × ((credentials_of secret).client_secret ≢ "")

  client_of_secret_from :
      (identity : Identity) (version : String) (s : FactoryState W) (hit : Option (Client W))
      (made : Result (Client W))
      → HasKeys (secret_at content (identity_key identity) version)
      → IsFresh s.cache
      → cached f identity (secret_at content (identity_key identity) version) s.cache ≡ hit
      → f.new_client (credentials_of (secret_at content (identity_key identity) version)) ≡ made
      → let (o, t) =
          client_of_secret f identity (secret_at content (identity_key identity) version) s in
        (o ≡ made) × IsFresh t.cache
  unfolding client_of_secret
  client_of_secret_from identity version s (some c) made keys fresh p q =
      let secret = secret_at content (identity_key identity) version in
      let same : client_of_secret f identity secret s ≡ (ok c, s) = ground (
        arith,
        p,
        keys,
        eq_iff (credentials_of secret).client_id "",
        eq_iff (credentials_of secret).client_secret "",
      ) in
      rw same (sym (cached_lem identity version s.cache c fresh p) ∙ q, fresh)
  client_of_secret_from identity version s none (ok c) keys fresh p q =
      let secret = secret_at content (identity_key identity) version in
      let grown : client_of_secret f identity secret s ≡ (
        ok c,
        record s {
          cache =
              insert (identity_key identity) (record { resource_version = version; client = c })
                s.cache;
        },
      ) =
        ground (
          arith,
          p,
          q,
          keys,
          eq_iff (credentials_of secret).client_id "",
          eq_iff (credentials_of secret).client_secret "",
        ) in
      rw grown (refl, IsFresh-insert identity version s.cache c fresh q)
  client_of_secret_from identity version s none (err e) keys fresh p q =
      let secret = secret_at content (identity_key identity) version in
      let same : client_of_secret f identity secret s ≡ (err e, s) = ground (
        arith,
        p,
        q,
        keys,
        eq_iff (credentials_of secret).client_id "",
        eq_iff (credentials_of secret).client_secret "",
      ) in
      rw same (refl, fresh)

  -- Where the cache holds only clients made from the version of the secret that they are recorded
  -- with, and the secret is read and has both keys, ClientFor returns what a new client made from
  -- the secret as it is now would be, or that error, whether or not the cache had it; and the cache
  -- it leaves has the same property. A resource version stands for one content of the secret.
  pub client_for_current :
      (identity : Identity) (version : String) (s : FactoryState W) (w : W)
      → identity.secret_name ≢ ""
      → f.get_secret identity.namespace identity.secret_name s.world
        ≡ (ok (secret_at content (identity_key identity) version), w)
      → HasKeys (secret_at content (identity_key identity) version)
      → IsFresh s.cache
      → ((client_for f identity s).0
          ≡ f.new_client (credentials_of (secret_at content (identity_key identity) version)))
        × IsFresh (client_for f identity s).1.cache
  unfolding client_for
  client_for_current identity version s w named read keys fresh =
      let secret = secret_at content (identity_key identity) version in
      let t : FactoryState W = record s { world = w } in
      let step : client_for f identity s ≡ client_of_secret f identity secret t =
        ground (arith, read, eq_iff identity.secret_name "") in
      rw step (
        client_of_secret_from identity version t (cached f identity secret s.cache)
          (f.new_client (credentials_of secret)) keys fresh refl refl)
