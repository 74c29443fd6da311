-- ===== src/Links/WellFormed/Attached.antt =====
-- A new link between an interface and a network of a well-formed lab (the branch of
-- `_create_link_locked` in backend/app/services/link_service.py with a network).
use nova_ve.Prelude.Dict.{get-put}
use nova_ve.Prelude.{
  ℕ, ◌+◌, ◌≤◌, ◌<◌, ◌≡◌, refl, sym, ap, subst, ◌∙◌, Bool, true, ◌&&◌, ◌||◌, Option, none, some, [],
  ◌∷◌, ◌++◌, inl, inr, arith, Option-cases, Text, ◌==◌, ==_iff, if◌then◌else◌, All, All-append,
  Bool-cases,
}
use nova_ve.Lab.{network, Link, Network, Lab, network_at}
use nova_ve.Links.Keys.{EndpointKey, network_key, node_key, endpoint_of}
use nova_ve.Links.Ids.{counts_for, refcount_links, refcount, next_link_id, next_link_id_fresh}
use nova_ve.Links.Records.{build_link}
use nova_ve.Links.Create.{
  is_node_key, find_conflict, promoted, promotion, promotion_of, store_promotion, create_attached,
}
use nova_ve.Links.WellFormed.{wires, interface_count, is_half, IsHalf, DistinctIds, IsWellFormed}
use nova_ve.Links.WellFormed.Counts.{
  refcount_links-snoc, interface_count-snoc, key_pos, DistinctIds-append,
  find_conflict-interface_count,
}

-- A link between an interface and a network wires the interface once.
wires_once :
    (a b : EndpointKey) (o p : ℕ)
    → is_half (endpoint_of a) (endpoint_of b) ≡ true
    → wires o p (endpoint_of a) + wires o p (endpoint_of b)
      ≡ (if is_node_key o p a || is_node_key o p b then 1 else 0)
unfolding endpoint_of wires is_node_key
wires_once (network_key k) (node_key m j) o p h = ground arith
wires_once (node_key n i) (network_key k) o p h = ground arith
wires_once (node_key n i) (node_key m j) o p h = absurd (ground arith)
wires_once (network_key n) (network_key m) o p h = absurd (ground arith)

-- One new link between an interface and a network that is there.
module _ (lab : Lab) (wf : IsWellFormed lab) (a b : EndpointKey) (t : ℕ) (style : Option Text)
    (w : Network) (there : network_at t lab ≡ some w)
    (half : is_half (endpoint_of a) (endpoint_of b) ≡ true)
    (reach : (k : ℕ)
      → 0 < k
      → counts_for k (endpoint_of a) + counts_for k (endpoint_of b) ≡ counts_for k (network t))
    (free : find_conflict a b lab.links ≡ none) where
  abbrev joined : Link
  joined = build_link (next_link_id lab.links) (endpoint_of a) (endpoint_of b) style

  abbrev with_link : Lab
  with_link = record lab { links = lab.links ++ (joined ∷ []) }

  abbrev attached : Lab
  attached = (create_attached lab a b t style).lab

  attached_links : attached.links ≡ with_link.links
  unfolding create_attached store_promotion
  attached_links = elim (Option-cases (promotion with_link t)) [
    | inl e ↦ rw e refl
    | inr (v, e) ↦ rw e refl
  ]

  joined_refcount :
      (k : ℕ) → 0 < k → refcount with_link k ≡ refcount lab k + counts_for k (network t)
  unfolding refcount build_link
  joined_refcount k pos = omega (arith, refcount_links-snoc lab.links joined k, reach k pos)

  joined_once : (o p : ℕ) → interface_count o p with_link.links ≤ 1
  unfolding build_link
  joined_once o p =
      let count = interface_count-snoc lab.links joined o p in
      ground (
        arith,
        count,
        wires_once a b o p half,
        wf.once o p,
        find_conflict-interface_count a b lab.links o p wf.halves free,
      )

  attached-refcount :
      (k : ℕ) → 0 < k → refcount attached k ≡ refcount lab k + counts_for k (network t)
  unfolding refcount
  attached-refcount k pos = ap (λ ls. refcount_links ls k) attached_links ∙ joined_refcount k pos

  abbrev promotes : Bool
  promotes = w.implicit && (refcount with_link t == 3)

  promotion_there : promotion with_link t ≡ (if promotes then some (promoted t w) else none)
  unfolding promotion
  promotion_there = ap (promotion_of with_link t) there

  attached-network_at :
      (k : ℕ)
      → network_at k attached
        ≡ (if t == k && promotes then some (promoted t w) else network_at k lab)
  unfolding create_attached store_promotion
  attached-network_at k = elim (Bool-cases promotes) [
    | inl e ↦
        let p : promotion with_link t ≡ some (promoted t w) = ground (arith, promotion_there, e) in
        rw p (ground (arith, e, get-put ◌==◌ ==_iff t k (promoted t w) lab.networks))
    | inr e ↦
        let p : promotion with_link t ≡ none = ground (arith, promotion_there, e) in
        rw p (ground (arith, e))
  ]

  attached_bridges :
      (k : ℕ) (v : Network)
      → network_at k attached ≡ some v
      → v.implicit ≡ true
      → refcount attached k ≡ 2
  attached_bridges k v h imp = elim (Bool-cases (t == k && promotes)) [
    | inl e ↦
        let same : promoted t w ≡ v = ground (arith, attached-network_at k, h, e) in
        absurd (unfold promoted in ground (arith, ap (λ (x : Network). x.implicit) same, imp))
    | inr e ↦
        let at : network_at k lab ≡ some v = ground (arith, attached-network_at k, h, e) in
        let pos = key_pos lab wf k v at in
        let two = wf.bridges k v at imp in
        elim (Bool-cases (t == k)) [
          | inl f ↦
              let here : t ≡ k = ground arith in
              let v_is : w ≡ v =
                ground (arith, subst (λ x. network_at x lab ≡ some v) (sym here) at, there) in
              let imp' : w.implicit ≡ true = rw v_is imp in
              let at_t : refcount lab t ≡ 2 = rw here two in
              absurd (
                unfold counts_for in
                ground (arith, e, here, joined_refcount t (rw here pos), at_t, imp'))
          | inr f ↦ unfold counts_for in ground (arith, f, attached-refcount k pos, two)
        ]
  ]

  attached_targets : (k : ℕ) → 0 < k → network_at k attached ≡ none → refcount attached k ≡ 0
  attached_targets k pos h = elim (Bool-cases (t == k)) [
    | inl f ↦
        let here : t ≡ k = ground arith in
        let at : network_at k lab ≡ some w = subst (λ x. network_at x lab ≡ some w) here there in
        absurd (ground (arith, attached-network_at k, at, h))
    | inr f ↦
        let gone : network_at k lab ≡ none = ground (arith, attached-network_at k, h, f) in
        unfold counts_for in ground (arith, f, attached-refcount k pos, wf.targets k pos gone)
  ]

  with_link_halves : All IsHalf with_link.links
  unfolding build_link
  with_link_halves = All-append IsHalf lab.links (joined ∷ []) wf.halves (half, tt)

  with_link_ids : DistinctIds with_link.links
  unfolding build_link
  with_link_ids = DistinctIds-append lab.links joined (next_link_id_fresh lab.links) wf.ids

  pub attached-IsWellFormed : IsWellFormed attached
  attached-IsWellFormed = record {
    halves = subst (All IsHalf) (sym attached_links) with_link_halves;
    once = λ o p. rw attached_links (joined_once o p);
    ids = subst DistinctIds (sym attached_links) with_link_ids;
    bridges = attached_bridges;
    targets = attached_targets;
    no_zero = attached-network_at 0 ∙ ground (arith, key_pos lab wf t w there, wf.no_zero);
  }
