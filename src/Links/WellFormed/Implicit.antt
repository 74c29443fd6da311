-- ===== src/Links/WellFormed/Implicit.antt =====
-- The links of a new implicit bridge in a well-formed lab (the branch of `_create_link_locked` in
-- backend/app/services/link_service.py for two nodes).
use nova_ve.Prelude.Dict.{get-put}
use nova_ve.Prelude.{
  ℕ, ◌+◌, ◌≤◌, ◌<◌, ◌≡◌, ◌≢◌, refl, ◌∙◌, true, Option, none, some, List, [], ◌∷◌, ◌++◌, inl, inr,
  arith, Text, ◌==◌, ==_iff, if◌then◌else◌, All, All-append, Bool-cases,
}
use nova_ve.Lab.{node, network, Link, Network, Lab, network_at}
use nova_ve.Links.Keys.{node_key, endpoint_of}
use nova_ve.Links.Ids.{
  counts_for, refcount, next_link_id, next_link_id_fresh, next_network_id, next_network_id_fresh,
}
use nova_ve.Links.Records.{build_link, build_implicit_network}
use nova_ve.Links.Create.{is_node_key, find_conflict, create_implicit}
use nova_ve.Links.WellFormed.{wires, interface_count, IsHalf, DistinctIds, IsWellFormed}
use nova_ve.Links.WellFormed.Counts.{
  refcount_links-snoc, interface_count-snoc, key_pos, DistinctIds-append,
  find_conflict-interface_count,
}

-- One new link, to a network that no link reaches less than it says.
module _ (lab : Lab) (wf : IsWellFormed lab) (n i m j : ℕ) (style : Option Text)
    (free : find_conflict (node_key n i) (node_key m j) lab.links ≡ none)
    (apart : node_key n i ≢ node_key m j) where
  abbrev net : ℕ
  net = next_network_id lab

  abbrev first_half : Link
  first_half = build_link (next_link_id lab.links) (endpoint_of (node_key n i)) (network net) style

  abbrev with_first : List Link
  with_first = lab.links ++ (first_half ∷ [])

  abbrev second_half : Link
  second_half =
      build_link (next_link_id with_first) (endpoint_of (node_key m j)) (network net) style

  abbrev made : Lab
  made = (create_implicit lab (node_key n i) (node_key m j) style).lab

  made-refcount :
      (k : ℕ)
      → refcount made k
        ≡ refcount lab k
          + counts_for k (node n (some i))
          + counts_for k (network net)
          + counts_for k (node m (some j))
          + counts_for k (network net)
  unfolding create_implicit refcount build_link endpoint_of
  made-refcount k =
      refcount_links-snoc with_first second_half k
      ∙ omega (arith, refcount_links-snoc lab.links first_half k)

  made_interface_count :
      (o p : ℕ)
      → interface_count o p made.links
        ≡ interface_count o p lab.links + wires o p (node n (some i)) + wires o p (node m (some j))
  unfolding create_implicit build_link endpoint_of
  made_interface_count o p =
      interface_count-snoc with_first second_half o p
      ∙ (unfold wires in ground (arith, interface_count-snoc lab.links first_half o p))

  made-network_at :
      (k : ℕ)
      → network_at k made
        ≡ (if net == k then some (build_implicit_network net) else network_at k lab)
  unfolding create_implicit
  made-network_at k = get-put ◌==◌ ==_iff net k (build_implicit_network net) lab.networks

  pub net_pos : 0 < net
  unfolding next_network_id
  net_pos = omega arith

  pub net_unused : refcount lab net ≡ 0
  net_unused = wf.targets net net_pos (next_network_id_fresh lab)

  made_once : (o p : ℕ) → interface_count o p made.links ≤ 1
  unfolding wires is_node_key
  made_once o p = ground (
    arith,
    apart,
    made_interface_count o p,
    wf.once o p,
    find_conflict-interface_count (node_key n i) (node_key m j) lab.links o p wf.halves free,
  )

  made_bridges :
      (k : ℕ) (w : Network) → network_at k made ≡ some w → w.implicit ≡ true → refcount made k ≡ 2
  unfolding counts_for
  made_bridges k w h imp = elim (Bool-cases (net == k)) [
    | inl e ↦
        let same : net ≡ k = ground arith in
        rw (← same) (ground (arith, made-refcount net, net_pos, net_unused))
    | inr e ↦
        let there : network_at k lab ≡ some w = ground (arith, made-network_at k) in
        ground (arith, made-refcount k, wf.bridges k w there imp, key_pos lab wf k w there)
  ]

  made_targets : (k : ℕ) → 0 < k → network_at k made ≡ none → refcount made k ≡ 0
  unfolding counts_for
  made_targets k pos h = elim (Bool-cases (net == k)) [
    | inl e ↦ absurd (ground (arith, made-network_at k))
    | inr e ↦
        let gone : network_at k lab ≡ none = ground (arith, made-network_at k) in
        ground (arith, made-refcount k, wf.targets k pos gone)
  ]

  made_halves : All IsHalf made.links
  unfolding create_implicit build_link endpoint_of
  made_halves =
      All-append IsHalf with_first (second_half ∷ [])
        (All-append IsHalf lab.links (first_half ∷ []) wf.halves (refl, tt)) (refl, tt)

  made_ids : DistinctIds made.links
  unfolding create_implicit build_link
  made_ids =
      DistinctIds-append with_first second_half (next_link_id_fresh with_first)
        (DistinctIds-append lab.links first_half (next_link_id_fresh lab.links) wf.ids)

  pub made-IsWellFormed : IsWellFormed made
  made-IsWellFormed = record {
    halves = made_halves;
    once = made_once;
    ids = made_ids;
    bridges = made_bridges;
    targets = made_targets;
    no_zero = made-network_at 0 ∙ ground (arith, net_pos, wf.no_zero);
  }
