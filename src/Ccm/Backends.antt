-- ===== src/Ccm/Backends.antt =====
-- loadbalancer.go: which nodes are backends, and at which address.
use mathlib.Core.List.Memᴰ
use mathlib.Core.List.{Memᴰ}
use cluster_api_provider_ver.Base.{
  arith, ◌≢◌, ◌∷◌, inl, refl, ◌↔◌, none, ◌||◌, List, String, ◌≡◌, [], ◌⊎◌, ◌==◌, eq_iff, false, inr,
  Bool, true, Bool-cases, if◌then◌else◌, ◌&&◌,
}
use cluster_api_provider_ver.Ccm.Types.{Node, NodeAddress}
use cluster_api_provider_ver.Base.Distinct.{contains}
use cluster_api_provider_ver.Api.{external_ip, AddressType, internal_ip}
use cluster_api_provider_ver.Ccm.ServiceLb.{
  first_address, node_address, backend_addresses, is_backend,
}
use cluster_api_provider_ver.Base.Dict.{lookup}
use cluster_api_provider_ver.Base.Sort.{insert_text}
use mathlib.Core.Path.{subst}

-- The first address of a kind that is not empty.
abbrev pub IsFirst : AddressType → List NodeAddress → String → Type 0
IsFirst kind [] a = ⊥
IsFirst kind (x ∷ xs) a =
    ((x.kind ≡ kind) × (x.address ≢ "") × (x.address ≡ a))
    ⊎ (((x.kind ≢ kind) ⊎ (x.address ≡ "")) × IsFirst kind xs a)

abbrev pub HasNone : AddressType → List NodeAddress → Type 0
HasNone kind [] = Unit
HasNone kind (x ∷ xs) = ((x.kind ≢ kind) ⊎ (x.address ≡ "")) × HasNone kind xs

abbrev IsResult : AddressType → List NodeAddress → Type 0
IsResult kind xs =
    ((first_address kind xs ≡ "") × HasNone kind xs)
    ⊎ ((first_address kind xs ≢ "") × IsFirst kind xs (first_address kind xs))

abbrev IsOnly : AddressType → List NodeAddress → String → Type 0
IsOnly kind xs a =
    (IsFirst kind xs a → (first_address kind xs ≡ a) × (a ≢ ""))
    × (HasNone kind xs → first_address kind xs ≡ "")

internal-IsResult : (xs : List NodeAddress) → IsResult internal_ip xs
unfolding first_address
internal-IsResult [] = inl (refl, tt)
internal-IsResult (x ∷ xs) = ground (arith, internal-IsResult xs, eq_iff x.address "")

internal-IsOnly : (xs : List NodeAddress) (a : String) → IsOnly internal_ip xs a
unfolding first_address
internal-IsOnly [] a = (λ h. absurd h, λ h. refl)
internal-IsOnly (x ∷ xs) a = (
  λ h. ground (arith, h, internal-IsOnly xs a, eq_iff x.address ""),
  λ h. ground (arith, h, internal-IsOnly xs a, eq_iff x.address ""),
)

external-IsResult : (xs : List NodeAddress) → IsResult external_ip xs
unfolding first_address
external-IsResult [] = inl (refl, tt)
external-IsResult (x ∷ xs) = ground (arith, external-IsResult xs, eq_iff x.address "")

external-IsOnly : (xs : List NodeAddress) (a : String) → IsOnly external_ip xs a
unfolding first_address
external-IsOnly [] a = (λ h. absurd h, λ h. refl)
external-IsOnly (x ∷ xs) a = (
  λ h. ground (arith, h, external-IsOnly xs a, eq_iff x.address ""),
  λ h. ground (arith, h, external-IsOnly xs a, eq_iff x.address ""),
)

-- The address of a node: its first internal one, or, where it has none, its first external one.
abbrev pub IsAddressOf : Node → String → Type 0
IsAddressOf n a =
    IsFirst internal_ip n.addresses a
    ⊎ (HasNone internal_ip n.addresses × IsFirst external_ip n.addresses a)

node_address-IsAddressOf : (n : Node) (a : String) → a ≢ "" → (node_address n ≡ a) ↔ IsAddressOf n a
unfolding node_address
node_address-IsAddressOf n a named = (
  λ e. elim (internal-IsResult n.addresses) [
    | inr (some_is, first) ↦ inl (
        subst (IsFirst internal_ip n.addresses) (ground (arith, e, some_is, eq_iff internal ""))
          first)
    | inl (none_is, has_none) ↦ elim (external-IsResult n.addresses) [
      | inl (no_external, _) ↦ ground (arith, e, none_is, no_external)
      | inr (_, first) ↦ inr (
        has_none,
        subst (IsFirst external_ip n.addresses) (ground (arith, e, none_is, eq_iff internal ""))
            first,
      )
    ]
  ],
  λ h. elim h [
    | inl first ↦ ground (arith, (internal-IsOnly n.addresses a).0 first, eq_iff internal "")
    | inr (has_none, first) ↦ ground (
      arith,
      (internal-IsOnly n.addresses a).1 has_none,
      (external-IsOnly n.addresses a).0 first,
      eq_iff internal "",
    )
  ],
)
  where
    internal : String
    internal = first_address internal_ip n.addresses

-- A node takes traffic: nothing excludes it, it is not being deleted, and it has that address.
abbrev pub Serves : Node → String → Type 0
Serves n a =
    (lookup "node.kubernetes.io/exclude-from-external-load-balancers" n.labels ≡ none)
    × (n.deletion_timestamp ≡ none)
    × IsAddressOf n a

contains-insert_text :
    (a x : String) (xs : List String) → contains a (insert_text x xs) ≡ (x == a || contains a xs)
unfolding contains insert_text
contains-insert_text a x [] = ground arith
contains-insert_text a x (y ∷ ys) = ground (arith, contains-insert_text a x ys)

is_backend-Serves :
    (n : Node) (a : String) → a ≢ "" → ((is_backend n ≡ true) × (node_address n ≡ a)) ↔ Serves n a
is_backend-Serves n a named =
    let address = node_address-IsAddressOf n a named in
    (
      λ h. (ground (arith, h), ground (arith, h), address.0 h.1),
      λ h. (
        ground (arith, h.0, h.1, address.1 h.2, eq_iff (node_address n) "", named),
        address.1 h.2,
      ),
    )

-- A node of the list serves at the address.
abbrev pub IsBackend : List Node → String → Type 0
IsBackend nodes a = (n : Node) × Memᴰ n nodes × Serves n a

module _ (a : String) (named : a ≢ "") where
  backends_step :
      (n : Node) (ns : List Node) (b : Bool)
      → is_backend n ≡ b
      → contains a (backend_addresses (n ∷ ns)) ≡ (
          if b
          then node_address n == a || contains a (backend_addresses ns)
          else contains a (backend_addresses ns))
  unfolding backend_addresses
  backends_step n ns true e =
      ground (arith, e, contains-insert_text a (node_address n) (backend_addresses ns))
  backends_step n ns false e = ground (arith, e)

  backends_sound :
      (nodes : List Node) → contains a (backend_addresses nodes) ≡ true → IsBackend nodes a
  unfolding backend_addresses contains
  backends_sound [] h = ground arith
  backends_sound (n ∷ ns) h = elim (Bool-cases (is_backend n && (node_address n == a))) [
    | inl e ↦ (
      n,
      Memᴰ.head refl,
      (is_backend-Serves n a named).0
          (ground (arith, e), ground (arith, e, eq_iff (node_address n) a)),
    )
    | inr e ↦
        let (m, listed, serves) =
          backends_sound ns
            (ground (arith, h, e, backends_step n ns true, backends_step n ns false)) in
        (m, Memᴰ.tail listed, serves)
  ]

  backends_complete :
      (nodes : List Node) (n : Node)
      → Memᴰ n nodes
      → Serves n a
      → contains a (backend_addresses nodes) ≡ true
  backends_complete [] n m serves = absurd (Memᴰ.not-nil m)
  backends_complete (k ∷ ks) n (Memᴰ.head same) serves =
      let own = (is_backend-Serves k a named).1 (subst (λ x. Serves x a) same serves) in
      ground (arith, own, eq_iff (node_address k) a, backends_step k ks true)
  backends_complete (k ∷ ks) n (Memᴰ.tail m) serves =
      ground
        (arith, backends_complete ks n m serves, backends_step k ks true, backends_step k ks false)

-- The backends are the addresses at which nodes of the list serve.
pub backend_addresses_exact :
    (nodes : List Node) (a : String)
    → a ≢ ""
    → (contains a (backend_addresses nodes) ≡ true) ↔ IsBackend nodes a
backend_addresses_exact nodes a named = (
  backends_sound a named nodes,
  λ (n, listed, serves). backends_complete a named nodes n listed serves,
)
