-- ===== src/Api/Authorize.antt =====
-- internal/api/authz.go: which role may call which method.
use beanstore.Base.{
  ◌≡◌, ◌≢◌, refl, sym, ◌∙◌, ◌⊎◌, inl, inr, arith, eq_iff, Option-cases, cut_prefix, cut_prefix-some,
  String, true, false, ◌&&◌, ◌||◌, List, [], ◌∷◌, cat, contains, has_prefix, str_eq, if◌then◌else◌,
}
use beanstore.Base.Exec.{Result, ok, err, Exec}
use beanstore.Config.{Tls, is_enabled}
use beanstore.Api.Status.{Status, permission_denied, answer_code}

abbrev pub role_orchestrator : String
role_orchestrator = "beanstore-orchestrator"

abbrev pub role_node : String
role_node = "beanstore-node"

abbrev pub transfer_service_prefix : String
transfer_service_prefix = "/beanstore.v1.TransferService/"

-- What a call carries of its peer: none without TLS information; otherwise the verified chains,
-- each certificate as the organizational units of its subject.
abbrev pub Peer : Type 0
Peer = List (List (List String))

first_role : List String → String
first_role [] = ""
first_role (ou ∷ rest) =
    let later = first_role rest in
    if str_eq ou role_orchestrator || str_eq ou role_node then ou else later

unfoldable pub peer_role : Peer → String
unfolding first_role
peer_role ((leaf ∷ issuers) ∷ chains) = first_role leaf
peer_role ([] ∷ chains) = ""
peer_role [] = ""

-- authorize, on the role that it reads.
unfoldable pub authorize_role : String → String → Result Status Unit
authorize_role role full_method =
    if str_eq role role_orchestrator
    then ok tt
    else if str_eq role role_node && has_prefix full_method transfer_service_prefix
    then ok tt
    else err (answer_code permission_denied)

unfoldable pub authorize : Peer → String → Result Status Unit
authorize p full_method = authorize_role (peer_role p) full_method

-- A handler runs where `authorize` passes; there are no interceptors without TLS.
unfoldable pub intercepted :
    {S A : Type 0} → Tls → Peer → String → Exec S Status A → Exec S Status A
intercepted tls p full_method handler s =
    if is_enabled tls
    then elim (authorize p full_method) [ ok _ ↦ handler s | err e ↦ (err e, s) ]
    else handler s

first_role_lem :
    (ous : List String)
    → ((first_role ous ≡ "")
        × (contains role_orchestrator ous ≡ false)
        × (contains role_node ous ≡ false))
      ⊎ (((first_role ous ≡ role_orchestrator) × (contains role_orchestrator ous ≡ true))
          ⊎ ((first_role ous ≡ role_node) × (contains role_node ous ≡ true)))
unfolding first_role contains
first_role_lem [] = inl (refl, refl, refl)
first_role_lem (ou ∷ rest) = ground (
  arith,
  first_role_lem rest,
  eq_iff ou role_orchestrator,
  eq_iff ou role_node,
  eq_iff role_orchestrator ou,
  eq_iff role_node ou,
)

authorize_role_lem :
    (role full_method : String)
    → authorize_role role full_method ≡ ok tt
    → (role ≡ role_orchestrator)
      ⊎ ((role ≡ role_node) × (has_prefix full_method transfer_service_prefix ≡ true))
unfolding authorize_role
authorize_role_lem role full_method h =
    ground (arith, eq_iff role role_orchestrator, eq_iff role role_node)

has_prefix-true : (s p : String) → has_prefix s p ≡ true → (rest : String) × (s ≡ cat p rest)
unfolding has_prefix
has_prefix-true s p h = elim (Option-cases (cut_prefix s p)) [
  | inl none_there ↦ absurd (ground arith)
  | inr (rest, e) ↦ (rest, cut_prefix-some s p rest e)
]

false_not_true : false ≢ true
false_not_true h = absurd (cc h)

-- The first role of a certificate without a unit of the orchestrator.
first_role-not_orchestrator :
    (ous : List String)
    → contains role_orchestrator ous ≡ false
    → first_role ous ≢ role_orchestrator
first_role-not_orchestrator ous h e = elim (first_role_lem ous) [
  | inl (none_there, _, _) ↦ false_not_true ((eq_iff "" role_orchestrator).1 (sym none_there ∙ e))
  | inr (inl (_, there)) ↦ false_not_true (sym h ∙ there)
  | inr (inr (node, _)) ↦ false_not_true ((eq_iff role_node role_orchestrator).1 (sym node ∙ e))
]

first_role-node : (ous : List String) → first_role ous ≡ role_node → contains role_node ous ≡ true
first_role-node ous e = elim (first_role_lem ous) [
  | inl (none_there, _, _) ↦ absurd (false_not_true ((eq_iff "" role_node).1 (sym none_there ∙ e)))
  | inr (inl (orchestrator, _)) ↦
      absurd (false_not_true ((eq_iff role_orchestrator role_node).1 (sym orchestrator ∙ e)))
  | inr (inr (_, there)) ↦ there
]

-- A caller whose leaf certificate has no unit of the orchestrator passes only with a unit of the
-- node, and only to a method of the transfer plane.
pub nodes_call_transfers :
    (leaf : List String) (issuers : List (List String)) (chains : Peer) (full_method : String)
    → contains role_orchestrator leaf ≡ false
    → authorize ((leaf ∷ issuers) ∷ chains) full_method ≡ ok tt
    → (contains role_node leaf ≡ true)
      × (method : String) × (full_method ≡ cat transfer_service_prefix method)
unfolding authorize peer_role
nodes_call_transfers leaf issuers chains full_method no_orchestrator h =
    elim (authorize_role_lem (first_role leaf) full_method h) [
      | inl e ↦ absurd (first_role-not_orchestrator leaf no_orchestrator e)
      | inr (e, plane) ↦
          let (method, named) = has_prefix-true _ _ plane in (first_role-node leaf e, method, named)
    ]
