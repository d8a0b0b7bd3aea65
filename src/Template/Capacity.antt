-- ===== src/Template/Capacity.antt =====
-- What a machine template's status says after its reconciliation.
use cluster_api_provider_ver.Base.{
  Bool, inr, ◌⊎◌, true, refl, inl, ◌≡◌, arith, false, ◌<>◌, String, if◌then◌else◌, some, ◌*◌, none,
  ℕ, sym,
}
use cluster_api_provider_ver.Platform.{requeue, Outcome, IsLawful}
use cluster_api_provider_ver.Api.{capacity_ready_condition, VerdaMachineTemplate}
use cluster_api_provider_ver.Template.{
  capacity_resync_interval, reconcile_capacity, capacity_for, TemplateReconciler, capacity_ready,
  observe, TemplateState, identity_of, set_capacity_not_ready,
}
use cluster_api_provider_ver.Base.Act.{Result, err, Act, ◌>>=◌, ok}
use cluster_api_provider_ver.Cloud.{Client, InstanceTypeInfo}
use text.Mathlib.TextPositions.{eq_refl}
use cluster_api_provider_ver.Base.Error.{error_text, errors_is, Error, not_found}
use cluster_api_provider_ver.Base.Dict.{insert, Dict, lookup}
use cluster_api_provider_ver.Base.Int.{is_positive, ℤ, pos}
use mathlib.Core.Path.{subst}

-- The capacity of an instance type: its cores, its memory in bytes of 2^30 to the unit, and its
-- graphics processors where it has any.
abbrev pub IsCapacityOf : InstanceTypeInfo → Dict ℤ → Type 0
IsCapacityOf info capacity =
    (lookup "cpu" capacity ≡ some info.cpus)
    × ((n : ℕ) → info.memory_gb ≡ pos n → lookup "memory" capacity ≡ some (pos (n * 1_073_741_824)))
    × (lookup "nvidia.com/gpu" capacity ≡ (if is_positive info.gpus then some info.gpus else none))

capacity_for-IsCapacityOf : (info : InstanceTypeInfo) → IsCapacityOf info (capacity_for info)
unfolding capacity_for lookup insert
capacity_for-IsCapacityOf info = (ground arith, λ n h. rw h (ground arith), ground arith)

module _ {W : Type 0} (k : TemplateReconciler W) where
  abbrev pub is_ready : TemplateState W → Bool
  is_ready s = k.lib.is_true s.template.status.conditions capacity_ready_condition

  abbrev pub client_of : VerdaMachineTemplate → Act W (Client W)
  client_of t = identity_of k t >>= k.client_for

  -- What the catalog says of the instance type, with the account's client.
  abbrev pub catalog_says : TemplateState W → Client W → Act W InstanceTypeInfo
  catalog_says s cloud = cloud.get_instance_type s.template.spec.instance_type

  -- The client was made, it knows the instance type, and the status has its capacity.
  abbrev pub IsPublished : TemplateState W → Result Outcome × TemplateState W → Type 0
  IsPublished s (o, t) =
      (cloud : Client W) × (info : InstanceTypeInfo) × (w : W) × (client_of s.template s.world
        ≡ (ok cloud, w))
      × ((catalog_says s cloud w).0 ≡ ok info)
      × IsCapacityOf info t.template.status.capacity
      × (is_ready t ≡ true)
      × (o ≡ ok (requeue capacity_resync_interval))

  -- The status keeps what it had, and says that it is not ready.
  abbrev pub IsKept : TemplateState W → TemplateState W → Type 0
  IsKept s t =
      (t.template.status.capacity ≡ s.template.status.capacity)
      × (t.template.status.node_info ≡ s.template.status.node_info)
      × (is_ready t ≡ false)

  -- The client could not be made.
  abbrev pub IsWithoutClient : TemplateState W → Result Outcome × TemplateState W → Type 0
  IsWithoutClient s (o, t) =
      (e : Error) × ((client_of s.template s.world).0 ≡ err e) × (o ≡ err e) × IsKept s t

  -- The catalog could not be read, or does not have the instance type.
  abbrev pub IsWithoutType : TemplateState W → Result Outcome × TemplateState W → Type 0
  IsWithoutType s (o, t) =
      (cloud : Client W) × (e : Error) × (w : W) × (client_of s.template s.world ≡ (ok cloud, w))
      × ((catalog_says s cloud w).0 ≡ err e)
      × (o ≡ (if errors_is not_found e then ok (requeue capacity_resync_interval) else err e))
      × IsKept s t

  module _ (lawful : IsLawful k.lib) where
    unready :
        (reason message : String) (t : VerdaMachineTemplate)
        → k.lib.is_true
            (set_capacity_not_ready k reason message t).status.conditions
            capacity_ready_condition
          ≡ false
    unready reason message t = ground (
      arith,
      eq_refl capacity_ready_condition,
      lawful.is_true-set_condition t.status.conditions
          (record {
            kind = capacity_ready_condition;
            status = false;
            reason = reason;
            message = message;
          })
          capacity_ready_condition,
    )

    observed :
        (cloud : Client W) (s : TemplateState W) (w : W)
        → client_of s.template s.world ≡ (ok cloud, w)
        → (r : Result InstanceTypeInfo) (w' : W) → catalog_says s cloud w ≡ (r, w')
        → let u : TemplateState W = record s { world = w } in
          IsPublished s (observe k cloud u) ⊎ IsWithoutType s (observe k cloud u)
    unfolding observe
    observed cloud s w made (ok info) w' p =
        let u : TemplateState W = record s { world = w } in
        let is_of : (observe k cloud u).1.template.status.capacity ≡ capacity_for info =
          ground (arith, p) in
        inl (
          cloud,
          info,
          w,
          made,
          ground (arith, p),
          subst (IsCapacityOf info) (sym is_of) (capacity_for-IsCapacityOf info),
          ground (
            arith,
            p,
            eq_refl capacity_ready_condition,
            lawful.is_true-set_condition s.template.status.conditions (capacity_ready k)
                capacity_ready_condition,
          ),
          ground (arith, p),
        )
    observed cloud s w made (err e) w' p =
        let unknown =
          unready "UnknownInstanceType"
            ("instance type \"" <> s.template.spec.instance_type
              <> "\" is not in the Verda catalog")
            s.template in
        let unread = unready "CatalogUnavailable" (error_text e) s.template in
        inr (
          cloud,
          e,
          w,
          made,
          ground (arith, p),
          ground (arith, p),
          ground (arith, p, unknown, unread),
        )

    reconciled :
        (s : TemplateState W) (r : Result (Client W)) (w : W)
        → client_of s.template s.world ≡ (r, w)
        → IsPublished s (reconcile_capacity k s)
          ⊎ IsWithoutType s (reconcile_capacity k s)
          ⊎ IsWithoutClient s (reconcile_capacity k s)
    unfolding reconcile_capacity
    reconciled s (ok cloud) w p =
        let step : reconcile_capacity k s ≡ observe k cloud (record s { world = w }) =
          ground (arith, p) in
        rw step
          (elim (observed cloud s w p (catalog_says s cloud w).0 (catalog_says s cloud w).1 refl) [
            | inl published ↦ inl published
            | inr without ↦ inr (inl without)
          ])
    reconciled s (err e) w p = inr (
        inr (
          e,
          ground (arith, p),
          ground (arith, p),
          ground (arith, p, unready "CredentialsUnavailable" (error_text e) s.template),
        ))

    -- A reconciliation of a machine template has one of three ends. The account's catalog has the
    -- instance type, and the capacity is published, the condition says so, and the template comes
    -- back after the resync interval. Or the catalog fails, or does not have the type: capacity and
    -- node info are kept, the condition says that they are not ready, and the error is returned,
    -- save that an unknown type comes back after the resync interval. Or there is no client: the
    -- same, with the error of that.
    pub capacity_follows_catalog :
        (s : TemplateState W)
        → IsPublished s (reconcile_capacity k s)
          ⊎ IsWithoutType s (reconcile_capacity k s)
          ⊎ IsWithoutClient s (reconcile_capacity k s)
    capacity_follows_catalog s =
        reconciled s (client_of s.template s.world).0 (client_of s.template s.world).1 refl
