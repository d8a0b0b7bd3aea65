-- ===== src/Ccm/Upload.antt =====
-- loadbalancer.go: what EnsureLoadBalancer uploads, of the services and nodes that are listed.
use mathlib.Core.List.Memᴰ
use mathlib.Core.List.{Memᴰ}
use cluster_api_provider_ver.Base.{
  some, ◌≡◌, false, ◌==◌, ◌⊎◌, eq_iff, ◌∷◌, none, inl, [], Bool-cases, ◌↔◌, inr, ◌||◌, Bool, arith,
  List, not, ap, true, ◌++◌, sym, if◌then◌else◌, String, ◌<>◌,
}
use cluster_api_provider_ver.Ccm.Types.{Service}
use cluster_api_provider_ver.Ccm.ServiceLb.{
  is_current, is_skipped, other_services, update_listeners, ensure_load_balancer, LbScope, LbConfig,
}
use cluster_api_provider_ver.Ccm.Frontends.{is_some, frontends_of, service_key}
use mathlib.Core.Path.{subst}
use cluster_api_provider_ver.Base.Act.{◌>>◌, pure, err}
use cluster_api_provider_ver.Base.Error.{plain}
use cluster_api_provider_ver.Base.Dict.{lookup}

-- Another service, of the kind that is exposed, and not being deleted.
abbrev pub IsOther : Service → Service → Type 0
IsOther svc x =
    (x.kind ≡ "LoadBalancer")
    × (x.deletion_timestamp ≡ none)
    × ¬ ((x.namespace ≡ svc.namespace) × (x.name ≡ svc.name))

-- The services that are exposed: the current one as it is given, and the others of the list.
abbrev pub IsServed : Service → List Service → Service → Type 0
IsServed svc services x = (x ≡ svc) ⊎ (Memᴰ x services × IsOther svc x)

abbrev is_dropped : Service → Service → Bool
is_dropped svc x =
    not (x.kind == "LoadBalancer")
    || is_skipped none x
    || is_some x.deletion_timestamp
    || is_current (some svc) x

is_dropped-IsOther : (svc x : Service) → (is_dropped svc x ≡ false) ↔ IsOther svc x
is_dropped-IsOther svc x = (
  λ h. ground (
    arith,
    h,
    eq_iff x.kind "LoadBalancer",
    eq_iff x.namespace svc.namespace,
    eq_iff x.name svc.name,
  ),
  λ h. ground (
    arith,
    h,
    eq_iff x.kind "LoadBalancer",
    eq_iff x.namespace svc.namespace,
    eq_iff x.name svc.name,
  ),
)

module _ (svc : Service) where
  abbrev others : List Service → List Service
  others = other_services (some svc) none

  others_step :
      (y : Service) (ys : List Service) (b : Bool)
      → is_dropped svc y ≡ b
      → others (y ∷ ys) ≡ (if b then others ys else y ∷ others ys)
  unfolding other_services
  others_step y ys b e = ap (λ drops. if drops then others ys else y ∷ others ys) e

  others_sound :
      (services : List Service) (x : Service)
      → Memᴰ x (others services)
      → Memᴰ x services × IsOther svc x
  unfolding other_services
  others_sound [] x m = absurd (Memᴰ.not-nil m)
  others_sound (y ∷ ys) x m = elim (Bool-cases (is_dropped svc y)) [
    | inl e ↦
        let (found, other) = others_sound ys x (subst (Memᴰ x) (others_step y ys true e) m) in
        (Memᴰ.tail found, other)
    | inr e ↦ elim (Memᴰ.cases_cons (subst (Memᴰ x) (others_step y ys false e) m)) [
      | inl same ↦ (Memᴰ.head same, subst (IsOther svc) (sym same) ((is_dropped-IsOther svc y).0 e))
      | inr later ↦ let (found, other) = others_sound ys x later in (Memᴰ.tail found, other)
    ]
  ]

  others_complete :
      (services : List Service) (x : Service)
      → Memᴰ x services
      → IsOther svc x
      → Memᴰ x (others services)
  others_complete [] x m other = absurd (Memᴰ.not-nil m)
  others_complete (y ∷ ys) x (Memᴰ.head same) other =
      let kept = (is_dropped-IsOther svc y).1 (subst (IsOther svc) same other) in
      subst (Memᴰ x) (sym (others_step y ys false kept)) (Memᴰ.head same)
  others_complete (y ∷ ys) x (Memᴰ.tail m) other =
      let rest = others_complete ys x m other in
      elim (Bool-cases (is_dropped svc y)) [
        | inl e ↦ subst (Memᴰ x) (sym (others_step y ys true e)) rest
        | inr e ↦ subst (Memᴰ x) (sym (others_step y ys false e)) (Memᴰ.tail rest)
      ]

  pub IsServed-exact :
      (services : List Service) (x : Service)
      → Memᴰ x (others services ++ (svc ∷ [])) ↔ IsServed svc services x
  IsServed-exact services x = (
    λ m. elim (Memᴰ.append_cases (others services) m) [
      | inl listed ↦ inr (others_sound services x listed)
      | inr last ↦ elim (Memᴰ.cases_cons last) [
        | inl same ↦ inl same
        | inr none_is ↦ absurd (Memᴰ.not-nil none_is)
      ]
    ],
    λ served. elim served [
      | inl same ↦ Memᴰ.append_right (others services) (Memᴰ.head same)
      | inr (listed, other) ↦ Memᴰ.append_left (svc ∷ []) (others_complete services x listed other)
    ],
  )

module _ {W : Type 0} (l : LbScope W) where
  -- What EnsureLoadBalancer does at a world, over these services and backends: it uploads their
  -- frontends and returns the address, or its own service is in conflict and it fails.
  abbrev pub IsUploaded : Service → LbConfig → List Service → List String → W → W → Type 0
  IsUploaded svc lb shown addresses w w' =
      let s = frontends_of shown addresses in
      ((lookup (service_key svc) s.conflicts ≡ none)
        × (ensure_load_balancer l svc w
            ≡ (update_listeners l lb s.frontends >> pure lb.address) w'))
      ⊎ ((reason : String) × (lookup (service_key svc) s.conflicts ≡ some reason)
          × (ensure_load_balancer l svc w
              ≡ (err (plain ("service " <> service_key svc <> ": " <> reason)), w')))
