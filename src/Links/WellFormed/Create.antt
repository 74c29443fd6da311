-- ===== src/Links/WellFormed/Create.antt =====
-- The invariant of a lab under the mutation of `_create_link_locked`
-- (backend/app/services/link_service.py).
use nova_ve.Prelude.{
  ℕ, ◌+◌, ◌<◌, ◌≡◌, ◌≢◌, refl, sym, ap, subst, ◌∙◌, Bool, true, false, Option, none, inl, inr,
  arith, Option-cases, Text,
}
use nova_ve.Lab.{network, Lab, network_at}
use nova_ve.Links.Keys.{EndpointKey, network_key, node_key, endpoint_of}
use nova_ve.Links.Ids.{counts_for}
use nova_ve.Links.Create.{
  ok, Created, find_conflict, create_attached, create_branch, create_if_there, create_in_networks,
  create_unless, plan_create,
}
use nova_ve.Links.WellFormed.{is_half, IsWellFormed}
use nova_ve.Links.WellFormed.Implicit.{made-IsWellFormed}
use nova_ve.Links.WellFormed.Attached.{attached-IsWellFormed}

-- A link between two nodes or between a node and a network.
abbrev pub joins_node : EndpointKey → EndpointKey → Bool
joins_node (network_key n) (network_key m) = false
joins_node _ _ = true

pub created : {c d : Created} → ok c ≡ ok d → c ≡ d
created e = cc

create_in_networks-IsWellFormed :
    (lab : Lab) (a b : EndpointKey) (t : ℕ) (style : Option Text) (c : Created)
    → IsWellFormed lab
    → is_half (endpoint_of a) (endpoint_of b) ≡ true
    → ((k : ℕ)
        → 0 < k
        → counts_for k (endpoint_of a) + counts_for k (endpoint_of b) ≡ counts_for k (network t))
    → find_conflict a b lab.links ≡ none
    → create_in_networks lab a b t style ≡ ok c
    → IsWellFormed c.lab
unfolding create_in_networks
create_in_networks-IsWellFormed lab a b t style c wf half reach free h =
    elim (Option-cases (network_at t lab)) [
      | inl e ↦ let no = sym h ∙ ap (create_if_there lab a b t style) e in cc
      | inr (w, e) ↦
          let made : ok (create_attached lab a b t style) ≡ ok c =
            sym (ap (create_if_there lab a b t style) e) ∙ h in
          subst (λ (x : Created). IsWellFormed x.lab) (created made)
            (attached-IsWellFormed lab wf a b t style w e half reach free)
    ]

create_branch-IsWellFormed :
    (lab : Lab) (a b : EndpointKey) (style : Option Text) (c : Created)
    → IsWellFormed lab
    → joins_node a b ≡ true
    → a ≢ b
    → find_conflict a b lab.links ≡ none
    → create_branch lab a b style ≡ ok c
    → IsWellFormed c.lab
unfolding create_branch
create_branch-IsWellFormed lab (node_key n i) (node_key m j) style c wf joins apart free h =
    subst (λ (x : Created). IsWellFormed x.lab) (created h)
      (made-IsWellFormed lab wf n i m j style free apart)
create_branch-IsWellFormed lab (network_key t) (node_key m j) style c wf joins apart free h =
    create_in_networks-IsWellFormed lab (network_key t) (node_key m j) t style c wf
      (unfold endpoint_of in refl) (λ k pos. unfold endpoint_of counts_for in ground arith) free h
create_branch-IsWellFormed lab (node_key n i) (network_key t) style c wf joins apart free h =
    create_in_networks-IsWellFormed lab (node_key n i) (network_key t) t style c wf
      (unfold endpoint_of in refl) (λ k pos. unfold endpoint_of counts_for in ground arith) free h
create_branch-IsWellFormed lab (network_key t) (network_key u) style c wf joins apart free h =
    absurd (ground arith)

-- Creating a link between two different interfaces, or between an interface and a network, keeps a
-- lab well formed: links still join an interface and a network, no interface is wired twice, link
-- ids stay distinct, implicit networks have exactly two endpoints, and links reach only networks
-- that are there.
pub plan_create-IsWellFormed :
    (lab : Lab) (a b : EndpointKey) (style : Option Text) (c : Created)
    → IsWellFormed lab
    → joins_node a b ≡ true
    → a ≢ b
    → plan_create lab a b style ≡ ok c
    → IsWellFormed c.lab
unfolding plan_create
plan_create-IsWellFormed lab a b style c wf joins apart h =
    elim (Option-cases (find_conflict a b lab.links)) [
      | inl e ↦
          create_branch-IsWellFormed lab a b style c wf joins apart e
            (sym (ap (create_unless lab a b style) e) ∙ h)
      | inr (x, e) ↦ let no = sym h ∙ ap (create_unless lab a b style) e in cc
    ]
