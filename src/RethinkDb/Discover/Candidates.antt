-- ===== src/RethinkDb/Discover/Candidates.antt =====
-- Discovery outside the cluster against the list of all candidates.
use guild_net.Prelude.{
  ℕ, Bool, true, Bool-cases, ◌&&◌, ◌||◌, not, Option, none, some, List, [], ◌∷◌, ◌++◌, ◌≡◌, refl,
  ap, ◌∙◌, inl, inr, Text, codes, is_empty, map, ◌==◌, text_eq_inst, ltb, if◌then◌else◌,
}
use guild_net.RethinkDb.Discover.{
  Ingress, Service, NodeAddress, Kube, ingress_host, client_port, node_port_of, has_type,
  node_address, node_host, or_default, host_port, of_cluster_ip, of_node, of_nodes, without_ingress,
  of_ingress, of_service, variable, service_name, auto_discover_addr,
}

-- the addresses of all nodes at which a node can be reached, in their order
abbrev pub reachable : List NodeAddress → List Text
reachable [] = []
reachable (a ∷ addresses) =
    if has_type (codes "ExternalIP") a || has_type (codes "InternalIP") a
    then a.address ∷ reachable addresses
    else reachable addresses

abbrev pub flat : List (List NodeAddress) → List NodeAddress
flat [] = []
flat (addresses ∷ nodes) = addresses ++ flat nodes

abbrev pub addresses_of : Option (List (List NodeAddress)) → List Text
addresses_of none = []
addresses_of (some nodes) = reachable (flat nodes)

abbrev pub ingress_hosts : List Ingress → List Text
ingress_hosts [] = []
ingress_hosts (ing ∷ rest) = if is_empty (ingress_host ing) then [] else ingress_host ing ∷ []

abbrev pub guarded : {A : Type 0} → Bool → List A → List A
guarded b xs = if b then xs else []

abbrev pub first_or_empty : List Text → Text
first_or_empty [] = []
first_or_empty (a ∷ rest) = a

abbrev pub first_of : List Text → Option Text
first_of [] = none
first_of (a ∷ rest) = some a

module _ (print : ℕ → Text) where
  -- the load balancer's first entry, then the nodes, then the service's own address
  abbrev pub candidates : Kube → Service → List Text
  candidates kc svc =
      guarded (ltb 0 (client_port svc))
        (map (λ h. host_port print h (client_port svc)) (ingress_hosts svc.ingress))
      ++ (guarded (svc.service_type == codes "NodePort" && ltb 0 (node_port_of svc))
            (map (λ h. host_port print h (node_port_of svc)) (addresses_of kc.list_nodes))
          ++ guarded (not (is_empty svc.cluster_ip) && not (svc.cluster_ip == codes "None"))
              (host_port print svc.cluster_ip (client_port svc) ∷ []))

first_of-append_reachable :
    (xs ys : List NodeAddress)
    → node_address (first_of (reachable ys)) xs ≡ first_of (reachable (xs ++ ys))
unfolding node_address
first_of-append_reachable [] ys = refl
first_of-append_reachable (x ∷ xs) ys = elim (Bool-cases (has_type (codes "ExternalIP") x)) [
  | inl external ↦ rw (external) refl
  | inr other ↦ rw (other) (elim (Bool-cases (has_type (codes "InternalIP") x)) [
    | inl internal ↦ rw (internal) refl
    | inr neither ↦ rw (neither) (first_of-append_reachable xs ys)
  ])
]

node_host-reachable :
    (nodes : List (List NodeAddress)) → node_host nodes ≡ first_of (reachable (flat nodes))
unfolding node_host
node_host-reachable [] = refl
node_host-reachable (addresses ∷ nodes) =
    ap (λ o. node_address o addresses) (node_host-reachable nodes)
    ∙ first_of-append_reachable addresses (flat nodes)

module _ (print : ℕ → Text) (kc : Kube) (svc : Service) where
  abbrev own : List Text
  own =
      guarded (not (is_empty svc.cluster_ip) && not (svc.cluster_ip == codes "None"))
        (host_port print svc.cluster_ip (client_port svc) ∷ [])

  of_cluster_ip-own : of_cluster_ip print svc ≡ first_or_empty own
  of_cluster_ip-own =
      elim (Bool-cases (not (is_empty svc.cluster_ip) && not (svc.cluster_ip == codes "None"))) [
        | inl given ↦ rw given refl
        | inr missing ↦ rw missing refl
      ]

  of_node-first :
      (port : ℕ) (hosts : List Text)
      → of_node print svc port (first_of hosts)
        ≡ first_or_empty (map (λ h. host_port print h port) hosts ++ own)
  of_node-first port [] = of_cluster_ip-own
  of_node-first port (host ∷ hosts) = refl

  of_nodes-first :
      (port : ℕ) (nodes : Option (List (List NodeAddress)))
      → of_nodes print svc port nodes
        ≡ first_or_empty (map (λ h. host_port print h port) (addresses_of nodes) ++ own)
  of_nodes-first port none = of_cluster_ip-own
  of_nodes-first port (some nodes) =
      ap (of_node print svc port) (node_host-reachable nodes)
      ∙ of_node-first port (reachable (flat nodes))

  abbrev later : List Text
  later =
      guarded (svc.service_type == codes "NodePort" && ltb 0 (node_port_of svc))
        (map (λ h. host_port print h (node_port_of svc)) (addresses_of kc.list_nodes))
      ++ own

  without_ingress-first : without_ingress print kc svc ≡ first_or_empty later
  without_ingress-first =
      elim (Bool-cases (svc.service_type == codes "NodePort" && ltb 0 (node_port_of svc))) [
        | inl node ↦ rw node (of_nodes-first (node_port_of svc) kc.list_nodes)
        | inr other ↦ rw other of_cluster_ip-own
      ]

  of_ingress-first :
      (ingress : List Ingress)
      → of_ingress print kc svc ingress
        ≡ first_or_empty (
            guarded
              (ltb 0 (client_port svc))
              (map (λ h. host_port print h (client_port svc)) (ingress_hosts ingress))
            ++ later)
  of_ingress-first [] = elim (Bool-cases (ltb 0 (client_port svc))) [
    | inl port ↦ rw port without_ingress-first
    | inr zero_port ↦ rw zero_port without_ingress-first
  ]
  of_ingress-first (ing ∷ rest) = elim (Bool-cases (is_empty (ingress_host ing))) [
    | inl unnamed ↦ rw unnamed (elim (Bool-cases (ltb 0 (client_port svc))) [
      | inl port ↦ rw port without_ingress-first
      | inr zero_port ↦ rw zero_port without_ingress-first
    ])
    | inr named ↦ rw named (elim (Bool-cases (ltb 0 (client_port svc))) [
      | inl port ↦ rw port refl
      | inr zero_port ↦ rw zero_port without_ingress-first
    ])
  ]

  -- Outside the cluster, without RETHINKDB_ADDR, and where Kubernetes has the service, the address is
  -- the first of the candidates, or empty where there is none: that of the first entry of the load
  -- balancer, those of all nodes in the order of their lists, whether external or internal, if the
  -- type of the service is NodePort, and that of the service itself.
  pub auto_discover_addr-candidates :
      (env : Text → Text) (file : Option Text)
      → is_empty (variable env (codes "RETHINKDB_ADDR")) ≡ true
      → is_empty (variable env (codes "KUBERNETES_SERVICE_HOST")) ≡ true
      → kc.get_service
          (or_default (codes "default") (variable env (codes "RETHINKDB_NAMESPACE")))
          (service_name env)
        ≡ some svc
      → auto_discover_addr print env (some kc) file ≡ first_or_empty (candidates print kc svc)
  unfolding auto_discover_addr
  auto_discover_addr-candidates env file no_addr apart held =
      rw (no_addr) (rw (apart) (ap (of_service print kc) held ∙ of_ingress-first svc.ingress))
