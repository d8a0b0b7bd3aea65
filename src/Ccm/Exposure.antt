-- ===== src/Ccm/Exposure.antt =====
-- loadbalancer.go: which services the load balancer exposes, and what sync uploads.
use cluster_api_provider_ver.Ccm.Frontends.{
  is_some, frontend, port_slot, expose_all, service_leb, Sharing, nothing_shared, sort_services,
  port_conflict, expose_service, proto_of, insert_service, frontends_of, claim_ports, service_key,
}
use cluster_api_provider_ver.Base.Dict.{lookup, Dict, lookup-insert}
use cluster_api_provider_ver.Base.{
  ◌↔◌, map, eq_iff, [], ◌≢◌, inr, ◌++◌, ◌≡◌, true, ◌∷◌, inl, String, arith, refl, ◌⊎◌, none,
  Option-cases, List,
}
use cluster_api_provider_ver.Ccm.Types.{ServicePort, Service}
use text.Mathlib.TextPositions.{eq_refl}

-- Every port has a protocol that the load balancer knows, has a node port, and is not taken.
abbrev IsClaimable : Dict String → ServicePort → Type 0
IsClaimable taken p =
    ((proto_of p ≡ "TCP") ⊎ (proto_of p ≡ "UDP"))
    × (p.node_port ≢ 0)
    × (lookup (port_slot p) taken ≡ none)

abbrev AllClaimable : Dict String → List ServicePort → Type 0
AllClaimable taken [] = Unit
AllClaimable taken (p ∷ ps) = IsClaimable taken p × AllClaimable taken ps

port_conflict_exact :
    (taken : Dict String) (p : ServicePort) → (port_conflict taken p ≡ none) ↔ IsClaimable taken p
unfolding port_conflict
port_conflict_exact taken p = (
  λ h. ground (arith, eq_iff (proto_of p) "TCP", eq_iff (proto_of p) "UDP"),
  λ h. ground (arith, eq_iff (proto_of p) "TCP", eq_iff (proto_of p) "UDP"),
)

module _ (svc : Service) (nodes : List String) (taken : Dict String) where
  pub claim_ports-none :
      (ports : List ServicePort)
      → (claim_ports svc nodes taken ports).1 ≡ none
      → AllClaimable taken ports
        × ((claim_ports svc nodes taken ports).0 ≡ map (frontend svc nodes) ports)
  unfolding claim_ports
  claim_ports-none [] h = (tt, refl)
  claim_ports-none (p ∷ ports) h =
      ground (arith, claim_ports-none ports, (port_conflict_exact taken p).0)

  claim_ports-claimable :
      (ports : List ServicePort)
      → AllClaimable taken ports
      → (claim_ports svc nodes taken ports).1 ≡ none
  unfolding claim_ports
  claim_ports-claimable [] h = refl
  claim_ports-claimable (p ∷ ports) h =
      ground (arith, claim_ports-claimable ports h.1, (port_conflict_exact taken p).1 h.0)

-- A service is exposed as a whole: the frontends of all its ports are added, and no conflict, where
-- every port can be claimed.
abbrev pub IsExposed : List String → Service → Sharing → Sharing → Type 0
IsExposed nodes svc s t =
    AllClaimable s.taken svc.ports
    × (t.frontends ≡ s.frontends ++ map (frontend svc nodes) svc.ports)
    × (t.conflicts ≡ s.conflicts)

-- Or it is not exposed at all, and the reason is recorded under its key.
abbrev pub IsRefused : Service → Sharing → Sharing → Type 0
IsRefused svc s t =
    ¬ (AllClaimable s.taken svc.ports)
    × (t.frontends ≡ s.frontends)
    × (t.taken ≡ s.taken)
    × (is_some (lookup (service_key svc) t.conflicts) ≡ true)

-- A service whose key has no conflict yet is exposed as a whole where all its ports can be claimed,
-- and otherwise adds no frontend, takes no slot, and has a conflict recorded.
pub all_or_nothing :
    (nodes : List String) (svc : Service) (s : Sharing)
    → lookup (service_key svc) s.conflicts ≡ none
    → let t = expose_service nodes svc s in IsExposed nodes svc s t ⊎ IsRefused svc s t
unfolding expose_service
all_or_nothing nodes svc s fresh = elim (Option-cases (claim_ports svc nodes s.taken svc.ports).1) [
  | inl e ↦
      let claimed = claim_ports-none svc nodes s.taken svc.ports e in
      inl (claimed.0, ground (arith, e, claimed.1, fresh), ground (arith, e, fresh))
  | inr (reason, e) ↦ inr (
    λ all. ground (arith, e, claim_ports-claimable svc nodes s.taken svc.ports all),
    ground (
      arith,
      e,
      lookup-insert (service_key svc) (service_key svc) reason s.conflicts,
      eq_refl (service_key svc),
    ),
    ground (
      arith,
      e,
      lookup-insert (service_key svc) (service_key svc) reason s.conflicts,
      eq_refl (service_key svc),
    ),
    ground (
      arith,
      e,
      lookup-insert (service_key svc) (service_key svc) reason s.conflicts,
      eq_refl (service_key svc),
    ),
  )
]

-- The newest service: SortFunc puts it after all the others.
abbrev IsNewest : Service → List Service → Type 0
IsNewest x [] = Unit
IsNewest x (y ∷ ys) = (service_leb y x ≡ true) × IsNewest x ys

IsNewest-insert_service :
    (x y : Service) (ys : List Service)
    → service_leb y x ≡ true
    → IsNewest x ys
    → IsNewest x (insert_service y ys)
unfolding insert_service
IsNewest-insert_service x y [] h newest = (h, tt)
IsNewest-insert_service x y (z ∷ zs) h newest =
    ground (arith, IsNewest-insert_service x y zs h newest.1)

IsNewest-sort_services :
    (x : Service) (ys : List Service) → IsNewest x ys → IsNewest x (sort_services ys)
unfolding sort_services
IsNewest-sort_services x [] newest = tt
IsNewest-sort_services x (y ∷ ys) newest =
    IsNewest-insert_service x y (sort_services ys) newest.0 (IsNewest-sort_services x ys newest.1)

insert_service-newest :
    (x : Service) (ys : List Service) → IsNewest x ys → insert_service x ys ≡ ys ++ (x ∷ [])
unfolding insert_service
insert_service-newest x [] newest = refl
insert_service-newest x (y ∷ ys) newest = ground (arith, insert_service-newest x ys newest.1)

expose_all-append :
    (nodes : List String) (xs : List Service) (x : Service) (s : Sharing)
    → expose_all nodes (xs ++ (x ∷ [])) s ≡ expose_service nodes x (expose_all nodes xs s)
unfolding expose_all
expose_all-append nodes [] x s = refl
expose_all-append nodes (y ∷ xs) x s = expose_all-append nodes xs x (expose_service nodes y s)

-- A service that is newer than all the others, or as new and not before them by its key, takes
-- nothing from them: with it, the result is that of exposing it on top of theirs.
pub newest_comes_last :
    (x : Service) (others : List Service) (nodes : List String)
    → IsNewest x others
    → frontends_of (x ∷ others) nodes ≡ expose_service nodes x (frontends_of others nodes)
unfolding frontends_of sort_services
newest_comes_last x others nodes newest =
    rw (insert_service-newest x (sort_services others) (IsNewest-sort_services x others newest))
      (expose_all-append nodes (sort_services others) x nothing_shared)
