-- ===== src/Ccm/Refinement.antt =====
-- loadbalancer.go: what Frontends promises, as a specification on the frontends alone, without the
-- maps of conflicts and of taken slots.
-- A port can be added to frontends: it has a known protocol, a node port, and a slot that none has.
use cluster_api_provider_ver.LoadBalancer.{Frontend}
use cluster_api_provider_ver.Ccm.Frontends.{
  sort_services, insert_service, Sharing, port_conflict, is_some, port_slot, service_key, frontend,
  claim_ports, expose_service, proto_of, nothing_shared, frontends_of, expose_all,
}
use cluster_api_provider_ver.Base.{
  ◌∙◌, ◌++◌, inr, eq_iff, Bool, nat_eq, [], none, map, ◌≡◌, true, List, inl, false, ◌&&◌, ◌||◌,
  refl, String, Option-cases, arith, ◌==◌, if◌then◌else◌, not, ◌∷◌, sym, ap,
}
use cluster_api_provider_ver.Base.Dict.{lookup-insert, insert, lookup, Dict}
use cluster_api_provider_ver.Base.Distinct.{contains-append, contains, AllDistinct}
use cluster_api_provider_ver.Ccm.Slots.{slots-append, slots, is_some-take_slots}
use cluster_api_provider_ver.Ccm.Exposure.{claim_ports-none}
use cluster_api_provider_ver.Ccm.Types.{ServicePort, Service}
use text.Mathlib.TextPositions.{eq_refl}
use mathlib.Core.Path.{subst}

abbrev is_free : List Frontend → ServicePort → Bool
is_free fs p =
    (proto_of p == "TCP" || proto_of p == "UDP")
    && (not (nat_eq p.node_port 0) && not (contains (port_slot p) (slots fs)))

abbrev all_free : List Frontend → List ServicePort → Bool
all_free fs [] = true
all_free fs (p ∷ ps) = is_free fs p && all_free fs ps

abbrev add_service : List String → List Frontend → Service → List Frontend
add_service nodes fs svc =
    if all_free fs svc.ports then fs ++ map (frontend svc nodes) svc.ports else fs

abbrev add_services : List String → List Service → List Frontend → List Frontend
add_services nodes [] fs = fs
add_services nodes (svc ∷ rest) fs = add_services nodes rest (add_service nodes fs svc)

-- The services in order, each with all its ports or none.
unfoldable pub exposed_frontends : List Service → List String → List Frontend
exposed_frontends services nodes = add_services nodes (sort_services services) []

abbrev keys_of : List Service → List String
keys_of services = map service_key services

contains-insert_service :
    (k : String) (x : Service) (ys : List Service)
    → contains k (keys_of (insert_service x ys)) ≡ contains k (keys_of (x ∷ ys))
unfolding insert_service contains
contains-insert_service k x [] = refl
contains-insert_service k x (y ∷ ys) = ground (arith, contains-insert_service k x ys)

AllDistinct-insert_service :
    (x : Service) (ys : List Service)
    → contains (service_key x) (keys_of ys) ≡ false
    → AllDistinct (keys_of ys)
    → AllDistinct (keys_of (insert_service x ys))
unfolding insert_service contains
AllDistinct-insert_service x [] new d = (new, tt)
AllDistinct-insert_service x (y ∷ ys) new d = ground (
  arith,
  AllDistinct-insert_service x ys,
  contains-insert_service (service_key y) x ys,
  eq_iff (service_key x) (service_key y),
  eq_iff (service_key y) (service_key x),
)

contains-sort_services :
    (k : String) (xs : List Service)
    → contains k (keys_of (sort_services xs)) ≡ contains k (keys_of xs)
unfolding sort_services contains
contains-sort_services k [] = refl
contains-sort_services k (x ∷ xs) =
    ground (arith, contains-insert_service k x (sort_services xs), contains-sort_services k xs)

AllDistinct-sort_services :
    (xs : List Service) → AllDistinct (keys_of xs) → AllDistinct (keys_of (sort_services xs))
unfolding sort_services
AllDistinct-sort_services [] d = tt
AllDistinct-sort_services (x ∷ xs) d =
    AllDistinct-insert_service x (sort_services xs)
      (contains-sort_services (service_key x) xs ∙ d.0) (AllDistinct-sort_services xs d.1)

-- No service of the list has a conflict yet.
abbrev AllFresh : Dict String → List Service → Type 0
AllFresh conflicts [] = Unit
AllFresh conflicts (x ∷ xs) = (lookup (service_key x) conflicts ≡ none) × AllFresh conflicts xs

AllFresh-insert :
    (k reason : String) (conflicts : Dict String) (xs : List Service)
    → contains k (keys_of xs) ≡ false
    → AllFresh conflicts xs
    → AllFresh (insert k reason conflicts) xs
unfolding contains
AllFresh-insert k reason conflicts [] new h = tt
AllFresh-insert k reason conflicts (x ∷ xs) new h = (
  ground (
    arith,
    h.0,
    lookup-insert k (service_key x) reason conflicts,
    eq_iff k (service_key x),
    eq_iff (service_key x) k,
  ),
  AllFresh-insert k reason conflicts xs (ground arith) h.1,
)

-- The taken slots are those of the frontends.
abbrev IsExact : Sharing → Type 0
IsExact s = (x : String) → contains x (slots s.frontends) ≡ is_some (lookup x s.taken)

all_free-claim_ports :
    (svc : Service) (nodes : List String) (s : Sharing) (ports : List ServicePort)
    → IsExact s
    → all_free s.frontends ports ≡ not (is_some (claim_ports svc nodes s.taken ports).1)
unfolding claim_ports port_conflict
all_free-claim_ports svc nodes s [] exact = refl
all_free-claim_ports svc nodes s (p ∷ ports) exact =
    ground (arith, all_free-claim_ports svc nodes s ports exact, exact (port_slot p))

module _ (nodes : List String) (svc : Service) (s : Sharing)
    (fresh : lookup (service_key svc) s.conflicts ≡ none) (exact : IsExact s) where
  frontends-expose_service :
      (expose_service nodes svc s).frontends ≡ add_service nodes s.frontends svc
  unfolding expose_service
  frontends-expose_service = elim (Option-cases (claim_ports svc nodes s.taken svc.ports).1) [
    | inl e ↦ ground (
      arith,
      fresh,
      all_free-claim_ports svc nodes s svc.ports exact,
      claim_ports-none svc nodes s.taken svc.ports e,
    )
    | inr (reason, e) ↦ ground (
      arith,
      all_free-claim_ports svc nodes s svc.ports exact,
      lookup-insert (service_key svc) (service_key svc) reason s.conflicts,
      eq_refl (service_key svc),
    )
  ]

  expose_service-IsExact : IsExact (expose_service nodes svc s)
  unfolding expose_service
  expose_service-IsExact x =
      let new = (claim_ports svc nodes s.taken svc.ports).0 in
      ground (
        arith,
        exact x,
        slots-append s.frontends new,
        contains-append x (slots s.frontends) (slots new),
        is_some-take_slots x (service_key svc) new s.taken,
      )

  expose_service-AllFresh :
      (xs : List Service)
      → contains (service_key svc) (keys_of xs) ≡ false
      → AllFresh s.conflicts xs
      → AllFresh (expose_service nodes svc s).conflicts xs
  unfolding expose_service
  expose_service-AllFresh xs new h =
      elim (Option-cases (claim_ports svc nodes s.taken svc.ports).1) [
        | inl e ↦
            let kept : (expose_service nodes svc s).conflicts ≡ s.conflicts =
              ground (arith, fresh) in
            subst (λ c. AllFresh c xs) (sym kept) h
        | inr (reason, e) ↦
            let noted : (expose_service nodes svc s).conflicts
                ≡ insert (service_key svc) reason s.conflicts =
              ground (
                arith,
                lookup-insert (service_key svc) (service_key svc) reason s.conflicts,
                eq_refl (service_key svc),
              ) in
            subst (λ c. AllFresh c xs) (sym noted)
              (AllFresh-insert (service_key svc) reason s.conflicts xs new h)
      ]

frontends-expose_all :
    (nodes : List String) (xs : List Service) (s : Sharing)
    → AllDistinct (keys_of xs)
    → AllFresh s.conflicts xs
    → IsExact s
    → (expose_all nodes xs s).frontends ≡ add_services nodes xs s.frontends
unfolding expose_all
frontends-expose_all nodes [] s d fresh exact = refl
frontends-expose_all nodes (svc ∷ rest) s d fresh exact =
    let t = expose_service nodes svc s in
    frontends-expose_all nodes rest t d.1
      (expose_service-AllFresh nodes svc s fresh.0 exact rest d.0 fresh.1)
      (expose_service-IsExact nodes svc s fresh.0 exact)
    ∙ ap (add_services nodes rest) (frontends-expose_service nodes svc s fresh.0 exact)

AllFresh-nothing : (xs : List Service) → AllFresh [] xs
unfolding lookup
AllFresh-nothing [] = tt
AllFresh-nothing (x ∷ xs) = (refl, AllFresh-nothing xs)

-- For services with distinct keys, the frontends that Frontends returns are those of the
-- specification: from the oldest service on, each adds the frontends of all its ports where every
-- port has a known protocol, a node port, and a port and protocol that no frontend so far has, and
-- otherwise adds none.
pub frontends_of-exposed_frontends :
    (services : List Service) (nodes : List String)
    → AllDistinct (keys_of services)
    → (frontends_of services nodes).frontends ≡ exposed_frontends services nodes
unfolding frontends_of exposed_frontends lookup contains
frontends_of-exposed_frontends services nodes d =
    frontends-expose_all nodes (sort_services services) nothing_shared
      (AllDistinct-sort_services services d) (AllFresh-nothing (sort_services services)) (λ x. refl)
