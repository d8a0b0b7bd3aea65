-- ===== src/Ccm/Slots.antt =====
-- loadbalancer.go: the ports and protocols of the frontends.
use cluster_api_provider_ver.Ccm.Frontends.{
  port_slot, frontend_slot, take_slots, port_conflict, frontend, Sharing, sort_services, is_some,
  claim_ports, insert_service, frontends_of, service_key, expose_service, nothing_shared,
  expose_all,
}
use cluster_api_provider_ver.Base.{
  ◌≡◌, ◌||◌, true, eq_iff, arith, String, [], List, none, refl, map, ◌∷◌, ◌++◌, false,
}
use cluster_api_provider_ver.Base.Dict.{lookup, Dict, insert, lookup-insert}
use cluster_api_provider_ver.Base.Distinct.{
  contains, AllDistinct, contains-append, AllDistinct-join,
}
use cluster_api_provider_ver.Ccm.Types.{ServicePort, Service}
use cluster_api_provider_ver.LoadBalancer.{Frontend}

abbrev pub slots : List Frontend → List String
slots fs = map frontend_slot fs

abbrev pub own_slots : Service → List String
own_slots svc = map port_slot svc.ports

abbrev pub AllOwnDistinct : List Service → Type 0
AllOwnDistinct [] = Unit
AllOwnDistinct (svc ∷ rest) = AllDistinct (own_slots svc) × AllOwnDistinct rest

AllOwnDistinct-insert_service :
    (x : Service) (ys : List Service)
    → AllDistinct (own_slots x)
    → AllOwnDistinct ys
    → AllOwnDistinct (insert_service x ys)
unfolding insert_service
AllOwnDistinct-insert_service x [] d h = (d, tt)
AllOwnDistinct-insert_service x (y ∷ ys) d h =
    ground (arith, AllOwnDistinct-insert_service x ys d h.1)

AllOwnDistinct-sort_services :
    (xs : List Service) → AllOwnDistinct xs → AllOwnDistinct (sort_services xs)
unfolding sort_services
AllOwnDistinct-sort_services [] h = tt
AllOwnDistinct-sort_services (x ∷ xs) h =
    AllOwnDistinct-insert_service x (sort_services xs) h.0 (AllOwnDistinct-sort_services xs h.1)

pub is_some-take_slots :
    (x key : String) (fs : List Frontend) (taken : Dict String)
    → is_some (lookup x (take_slots key fs taken))
      ≡ (contains x (slots fs) || is_some (lookup x taken))
unfolding take_slots contains
is_some-take_slots x key [] taken = refl
is_some-take_slots x key (f ∷ fs) taken = ground (
  arith,
  is_some-take_slots x key fs (insert (frontend_slot f) key taken),
  lookup-insert (frontend_slot f) x key taken,
)

frontend_slot-frontend :
    (svc : Service) (nodes : List String) (p : ServicePort)
    → frontend_slot (frontend svc nodes p) ≡ port_slot p
unfolding frontend_slot frontend port_slot
frontend_slot-frontend svc nodes p = refl

free-port_conflict :
    (taken : Dict String) (p : ServicePort)
    → port_conflict taken p ≡ none
    → lookup (port_slot p) taken ≡ none
unfolding port_conflict
free-port_conflict taken p h = ground arith

module _ (svc : Service) (nodes : List String) (taken : Dict String) where
  abbrev mine : List ServicePort → List String
  mine ports = slots (claim_ports svc nodes taken ports).0

  contains-mine :
      (x : String) (ports : List ServicePort)
      → contains x (mine ports) ≡ true
      → (lookup x taken ≡ none) × (contains x (map port_slot ports) ≡ true)
  unfolding claim_ports contains
  contains-mine x [] h = cc
  contains-mine x (p ∷ ports) h = ground (
    arith,
    contains-mine x ports,
    frontend_slot-frontend svc nodes p,
    free-port_conflict taken p,
    eq_iff (port_slot p) x,
  )

  AllDistinct-mine :
      (ports : List ServicePort) → AllDistinct (map port_slot ports) → AllDistinct (mine ports)
  unfolding claim_ports
  AllDistinct-mine [] d = tt
  AllDistinct-mine (p ∷ ports) d = ground (
    arith,
    AllDistinct-mine ports d.1,
    frontend_slot-frontend svc nodes p,
    contains-mine (port_slot p) ports,
  )

-- The slots of the frontends so far are distinct, and they are those that are taken.
record IsShared (s : Sharing) : Type 0 where
  distinct : AllDistinct (slots s.frontends)
  exact : (x : String) → contains x (slots s.frontends) ≡ is_some (lookup x s.taken)

pub slots-append : (xs ys : List Frontend) → slots (xs ++ ys) ≡ slots xs ++ slots ys
slots-append [] ys = refl
slots-append (x ∷ xs) ys = ground (arith, slots-append xs ys)

mine_apart :
    (nodes : List String) (svc : Service) (s : Sharing)
    → IsShared s
    → (x : String) → contains x (mine svc nodes s.taken svc.ports) ≡ true
    → contains x (slots s.frontends) ≡ false
mine_apart nodes svc s shared x h =
    ground (arith, contains-mine svc nodes s.taken x svc.ports h, shared.exact x)

expose_service-IsShared :
    (nodes : List String) (svc : Service) (s : Sharing)
    → AllDistinct (own_slots svc)
    → IsShared s
    → IsShared (expose_service nodes svc s)
unfolding expose_service
expose_service-IsShared nodes svc s own shared =
    let new = (claim_ports svc nodes s.taken svc.ports).0 in
    let joined =
      AllDistinct-join (slots s.frontends) (slots new) shared.distinct
        (AllDistinct-mine svc nodes s.taken svc.ports own) (mine_apart nodes svc s shared) in
    record {
      distinct = ground (arith, joined, slots-append s.frontends new, shared.distinct);
      exact = λ x. ground (
        arith,
        shared.exact x,
        slots-append s.frontends new,
        contains-append x (slots s.frontends) (slots new),
        is_some-take_slots x (service_key svc) new s.taken,
      );
    }

expose_all-IsShared :
    (nodes : List String) (xs : List Service) (s : Sharing)
    → AllOwnDistinct xs
    → IsShared s
    → IsShared (expose_all nodes xs s)
unfolding expose_all
expose_all-IsShared nodes [] s own shared = shared
expose_all-IsShared nodes (svc ∷ rest) s own shared =
    expose_all-IsShared nodes rest (expose_service nodes svc s) own.1
      (expose_service-IsShared nodes svc s own.0 shared)

-- Where no service names a port and protocol twice, no two of the frontends that Frontends returns
-- have the same port and protocol, and a port and protocol is taken exactly when a frontend has it.
pub slots_distinct :
    (services : List Service) (nodes : List String)
    → AllOwnDistinct services
    → let s = frontends_of services nodes in
      AllDistinct (slots s.frontends)
      × ((x : String) → contains x (slots s.frontends) ≡ is_some (lookup x s.taken))
unfolding frontends_of lookup contains
slots_distinct services nodes own =
    let shared =
      expose_all-IsShared nodes (sort_services services) nothing_shared
        (AllOwnDistinct-sort_services services own) (record { distinct = tt; exact = λ x. refl }) in
    (shared.distinct, shared.exact)
