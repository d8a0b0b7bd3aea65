-- ===== src/Ccm/Nodes.antt =====
-- provider.go: what the node controller is told.
use text.Mathlib.TextPositions.{len-append, starts_with-append, slice-append_right}
use cluster_api_provider_ver.Base.{
  refl, true, ◌≢◌, eq_iff, arith, ◌<>◌, false, ◌≡◌, inr, inl, Bool-cases, Bool, ◌⊎◌, String, ◌↔◌,
  ◌==◌, ◌∙◌, ap, ◌+◌,
}
use cluster_api_provider_ver.Base.Act.{Result, err, ok}
use cluster_api_provider_ver.Base.Error.{errors_is, Error, plain, not_found}
use cluster_api_provider_ver.Cloud.{
  Instance, Client, status_not_found, status_deleted, status_discontinued,
}
use cluster_api_provider_ver.Ccm.Provider.{
  instance_shutdown, is_removed, instance_exists, instance_metadata, node_hostname, lookup_node,
}
use cluster_api_provider_ver.Api.{provider_id_prefix}
use cluster_api_provider_ver.Base.Text.{has_prefix}
use cluster_api_provider_ver.Ccm.Types.{Node}
use Prim.Native.String.{len, slice}

-- The hostname of the instance that a node runs on: its own name, or what its provider ID names.
abbrev pub IsHostOf : Node → String → Type 0
IsHostOf node hostname =
    ((node.provider_id ≡ "") × (hostname ≡ node.name)) ⊎ (node.provider_id ≡ "verda://" <> hostname)

node_hostname-IsHostOf :
    (node : Node) (hostname : String) → IsHostOf node hostname → node_hostname node ≡ ok hostname
unfolding node_hostname
node_hostname-IsHostOf node hostname (inl (none_is, same)) =
    ground (arith, eq_iff node.provider_id "")
node_hostname-IsHostOf node hostname (inr named) =
    let id = node.provider_id in
    let long : len id ≡ 8 + len hostname = ap len named ∙ len-append "verda://" hostname in
    let begins : has_prefix id "verda://" ≡ true =
      ap (λ s. has_prefix s "verda://") named ∙ starts_with-append "verda://" hostname in
    let rest : slice id 8 (len id) ≡ hostname =
      ap (λ s. slice s 8 (len id)) named
      ∙ ap (λ n. slice ("verda://" <> hostname) 8 n) long
      ∙ slice-append_right "verda://" hostname in
    elim (Bool-cases (id == "")) [
      | inl e ↦
          let none_is : len id ≡ 0 = ap len ((eq_iff id "").0 e) in
          absurd (omega (arith, long, none_is))
      | inr e ↦ ground (arith, e, begins, ap ok rest)
    ]

-- The instance runs no more: Verda has discontinued or deleted it, or does not find it.
abbrev pub IsOver : Instance → Type 0
IsOver i = (i.status ≡ "discontinued") ⊎ (i.status ≡ "deleted") ⊎ (i.status ≡ "notfound")

is_removed-IsOver : (i : Instance) → (is_removed i ≡ true) ↔ IsOver i
is_removed-IsOver i = (
  λ h. ground (
    arith,
    eq_iff i.status status_discontinued,
    eq_iff i.status status_deleted,
    eq_iff i.status status_not_found,
  ),
  λ h. ground (
    arith,
    eq_iff i.status status_discontinued,
    eq_iff i.status status_deleted,
    eq_iff i.status status_not_found,
  ),
)

module _ {W : Type 0} (client : Client W) where
  abbrev pub IsGone : Result Instance → Type 0
  IsGone (ok i) = IsOver i
  IsGone (err e) = errors_is not_found e ≡ true

  abbrev pub IsLive : Result Instance → Type 0
  IsLive found = (i : Instance) × (found ≡ ok i) × ¬ (IsOver i)

  abbrev pub IsUnknown : Result Instance → Result Bool → Type 0
  IsUnknown found answer =
      (e : Error) × (found ≡ err e) × (errors_is not_found e ≡ false) × (answer ≡ err e)

  reported :
      (node : Node) (w w' : W) (found : Result Instance)
      → lookup_node client node w ≡ (found, w')
      → let answer = (instance_exists client node w).0 in
        (IsGone found × (answer ≡ ok false))
        ⊎ (IsLive found × (answer ≡ ok true))
        ⊎ IsUnknown found answer
  unfolding instance_exists
  reported node w w' (ok i) p = elim (Bool-cases (is_removed i)) [
    | inl e ↦ inl ((is_removed-IsOver i).0 e, ground (arith, e))
    | inr e ↦ inr (
        inl ((i, refl, λ over. ground (arith, e, (is_removed-IsOver i).1 over)), ground (arith, e)))
  ]
  reported node w w' (err e) p = elim (Bool-cases (errors_is not_found e)) [
    | inl q ↦ inl (q, ground (arith, q))
    | inr q ↦ inr (inr (e, refl, q, ground (arith, q)))
  ]

  -- InstanceExists says of a node that its instance does not exist where the search by hostname says
  -- ErrNotFound or finds an instance that is discontinued, deleted or not found; that it exists where
  -- the search finds any other instance; and it fails with any other error. The hostname is what the
  -- provider ID verda://HOSTNAME names, or the node's name where it has no provider ID.
  pub instance_exists_exact :
      (node : Node) (hostname : String) (w : W)
      → IsHostOf node hostname
      → let found = (client.find_instance_by_hostname hostname w).0 in
        let answer = (instance_exists client node w).0 in
        (IsGone found × (answer ≡ ok false))
        ⊎ (IsLive found × (answer ≡ ok true))
        ⊎ IsUnknown found answer
  unfolding lookup_node
  instance_exists_exact node hostname w host =
      let found = client.find_instance_by_hostname hostname w in
      reported node w found.1 found.0 (rw (node_hostname-IsHostOf node hostname host) refl)

  -- A node with a provider ID of another provider is looked up nowhere: the three calls fail, and
  -- nothing happens to the world.
  pub foreign_node_untouched :
      (node : Node) (w : W)
      → node.provider_id ≢ ""
      → has_prefix node.provider_id provider_id_prefix ≡ false
      → (e : Error) × (instance_exists client node w ≡ (err e, w))
        × (instance_shutdown client node w ≡ (err e, w))
        × (instance_metadata client node w ≡ (err e, w))
  unfolding instance_exists instance_shutdown instance_metadata lookup_node node_hostname
  foreign_node_untouched node w named foreign = (
    plain ("node " <> node.name <> " has foreign provider ID \"" <> node.provider_id <> "\""),
    ground (arith, eq_iff node.provider_id ""),
    ground (arith, eq_iff node.provider_id ""),
    ground (arith, eq_iff node.provider_id ""),
  )
