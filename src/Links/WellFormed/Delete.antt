-- ===== src/Links/WellFormed/Delete.antt =====
-- Deleting a link of a well-formed lab, with the bridge that the link was a half of
-- (`_delete_link_locked` of backend/app/services/link_service.py).
use nova_ve.Prelude.Dict.{remove, get-remove}
use nova_ve.Prelude.{
  ℕ, ◌+◌, ◌<◌, ◌≡◌, refl, sym, ap, subst, ◌∙◌, true, false, none, some, List, [], ◌∷◌, inl, inr,
  arith, Option-cases, Text, ◌==◌, ==_iff, if◌then◌else◌, All, Bool-cases,
}
use nova_ve.Lab.{Link, Network, Lab, network_at}
use nova_ve.Links.Ids.{refcount_links, refcount}
use nova_ve.Links.Delete.{
  find_first, pop_first, has_id, find_link, referenced_network_ids, touches, is_implicit,
  cascade_step, cascade, collect_step, collect, Deleted, delete_found, delete_target, plan_delete,
}
use nova_ve.Links.WellFormed.{is_half, IsHalf, IsWellFormed}
use nova_ve.Links.WellFormed.Counts.{find_first-test, All-pop_first, DistinctIds-pop_first, key_pos}
use nova_ve.Links.WellFormed.Halves.{
  network_end, half_ids, half_touches, All-find_first, find_first-touches, removed_count,
  once-pop_first,
}

module _ (lab : Lab) (wf : IsWellFormed lab) (id : Text) (l : Link)
    (found : find_link id lab.links ≡ some l) where
  abbrev t : ℕ
  t = network_end l.from l.to

  abbrev left : List Link
  left = pop_first (has_id id) lab.links

  half : is_half l.from l.to ≡ true
  half = All-find_first IsHalf (has_id id) lab.links l wf.halves found

  nets : referenced_network_ids l ≡ t ∷ []
  unfolding referenced_network_ids
  nets = half_ids l.from l.to half

  left_count :
      (k : ℕ)
      → 0 < k
      → refcount_links left k + (if t == k then 1 else 0) ≡ refcount_links lab.links k
  left_count k pos = removed_count (has_id id) lab.links l k found half pos

  -- The network is an ordinary one, or none.
  module _ (ordinary : is_implicit (network_at t lab) ≡ false) where
    abbrev lab_left : Lab
    lab_left = record lab { links = left }

    ordinary_lab : (delete_found lab id l).lab ≡ lab_left
    unfolding delete_found cascade cascade_step collect collect_step
    ordinary_lab = elim (Option-cases (network_at t lab)) [
      | inl e ↦ rw (nets, e) refl
      | inr (w, e) ↦
          let plain : w.implicit ≡ false = ap is_implicit (sym e) ∙ ordinary in
          rw (nets, e, plain) refl
    ]

    left_bridges :
        (k : ℕ) (w : Network)
        → network_at k lab ≡ some w
        → w.implicit ≡ true
        → refcount lab_left k ≡ 2
    unfolding refcount
    left_bridges k w at imp =
        let pos = key_pos lab wf k w at in
        let two : refcount lab k ≡ 2 = wf.bridges k w at imp in
        elim (Bool-cases (t == k)) [
          | inl e ↦
              let here : k ≡ t = ground arith in
              let yes = ap is_implicit (sym at) in
              absurd (
                ground (
                  arith,
                  subst (λ x. is_implicit (network_at x lab) ≡ w.implicit) here (sym yes),
                  ordinary,
                  imp,
                ))
          | inr e ↦ ground (arith, e, left_count k pos, two)
        ]

    lab_left-IsWellFormed : IsWellFormed lab_left
    lab_left-IsWellFormed = record {
      halves = All-pop_first (has_id id) IsHalf lab.links wf.halves;
      once = once-pop_first (has_id id) lab.links l found wf.once;
      ids = DistinctIds-pop_first (has_id id) lab.links wf.ids;
      bridges = λ k w at imp. left_bridges k w at imp;
      targets =
          λ k pos gone. unfold refcount in ground (arith, left_count k pos, wf.targets k pos gone);
      no_zero = wf.no_zero;
    }

  -- The network is the implicit one of a link between two nodes.
  module _ (w : Network) (at : network_at t lab ≡ some w) (imp : w.implicit ≡ true) where
    t_pos : 0 < t
    t_pos = key_pos lab wf t w at

    left_one : refcount_links left t ≡ 1
    left_one =
        let two : refcount lab t ≡ 2 = wf.bridges t w at imp in
        unfold refcount in ground (arith, left_count t t_pos, two)

    left_halves : All IsHalf left
    left_halves = All-pop_first (has_id id) IsHalf lab.links wf.halves

    orphan_found : (o : Link) × (find_first (touches t) left ≡ some o)
    orphan_found = find_first-touches left t left_halves t_pos left_one

    abbrev orphan : Link
    orphan = orphan_found.0

    orphan_half : is_half orphan.from orphan.to ≡ true
    orphan_half = All-find_first IsHalf (touches t) left orphan left_halves orphan_found.1

    abbrev both_left : List Link
    both_left = pop_first (touches t) left

    both_count :
        (k : ℕ)
        → 0 < k
        → refcount_links both_left k + (if t == k then 2 else 0) ≡ refcount_links lab.links k
    both_count k pos =
        let here = find_first-test (touches t) left orphan orphan_found.1 in
        let same = half_touches orphan.from orphan.to t orphan_half in
        ground (
          arith,
          left_count k pos,
          removed_count (touches t) left orphan k orphan_found.1 orphan_half pos,
          here,
          same,
        )

    abbrev lab_both_left : Lab
    lab_both_left = record lab { networks = remove ◌==◌ t lab.networks; links = both_left }

    both_gone : refcount_links both_left t ≡ 0
    both_gone =
        let two : refcount lab t ≡ 2 = wf.bridges t w at imp in
        unfold refcount in ground (arith, both_count t t_pos, two)

    pub implicit_lab : (delete_found lab id l).lab ≡ lab_both_left
    unfolding delete_found cascade cascade_step collect collect_step
    implicit_lab = rw (nets, at, imp, left_one, orphan_found.1, both_gone) refl

    both_network_at :
        (k : ℕ) → network_at k lab_both_left ≡ (if t == k then none else network_at k lab)
    both_network_at k = get-remove ◌==◌ ==_iff t k lab.networks

    both_bridges :
        (k : ℕ) (v : Network)
        → network_at k lab_both_left ≡ some v
        → v.implicit ≡ true
        → refcount lab_both_left k ≡ 2
    unfolding refcount
    both_bridges k v there imp' = elim (Bool-cases (t == k)) [
      | inl e ↦ absurd (ground (arith, both_network_at k, e, there))
      | inr e ↦
          let there' : network_at k lab ≡ some v = ground (arith, both_network_at k, e, there) in
          let two : refcount lab k ≡ 2 = wf.bridges k v there' imp' in
          ground (arith, e, both_count k (key_pos lab wf k v there'), two)
    ]

    both_targets :
        (k : ℕ) → 0 < k → network_at k lab_both_left ≡ none → refcount lab_both_left k ≡ 0
    unfolding refcount
    both_targets k pos gone = elim (Bool-cases (t == k)) [
      | inl e ↦
          let here : t ≡ k = ground arith in
          subst (λ x. refcount_links both_left x ≡ 0) here both_gone
      | inr e ↦
          let gone' : network_at k lab ≡ none = ground (arith, both_network_at k, e, gone) in
          let none_left : refcount lab k ≡ 0 = wf.targets k pos gone' in
          ground (arith, e, both_count k pos, none_left)
    ]

    lab_both_left-IsWellFormed : IsWellFormed lab_both_left
    lab_both_left-IsWellFormed = record {
      halves = All-pop_first (touches t) IsHalf left left_halves;
      once =
          once-pop_first (touches t) left orphan orphan_found.1
            (once-pop_first (has_id id) lab.links l found wf.once);
      ids =
          DistinctIds-pop_first (touches t) left
            (DistinctIds-pop_first (has_id id) lab.links wf.ids);
      bridges = λ k v there imp'. both_bridges k v there imp';
      targets = λ k pos gone. both_targets k pos gone;
      no_zero = both_network_at 0 ∙ ground (arith, wf.no_zero);
    }

  delete_found-IsWellFormed : IsWellFormed (delete_found lab id l).lab
  delete_found-IsWellFormed = elim (Option-cases (network_at t lab)) [
    | inl e ↦
        let plain = ap is_implicit e in
        subst IsWellFormed (sym (ordinary_lab plain)) (lab_left-IsWellFormed plain)
    | inr (w, e) ↦ elim (Bool-cases w.implicit) [
      | inl imp ↦
          subst IsWellFormed (sym (implicit_lab w e imp)) (lab_both_left-IsWellFormed w e imp)
      | inr plain' ↦
          let plain = ap is_implicit e ∙ plain' in
          subst IsWellFormed (sym (ordinary_lab plain)) (lab_left-IsWellFormed plain)
    ]
  ]

deleted : {d e : Deleted} → some d ≡ some e → d ≡ e
deleted e = cc

-- Deleting a link keeps a lab well formed: where the link is half of the implicit bridge of two
-- nodes, the other half and the bridge go too, so that no implicit network is left with one
-- endpoint or with none.
pub plan_delete-IsWellFormed :
    (lab : Lab) (id : Text) (d : Deleted)
    → IsWellFormed lab
    → plan_delete lab id ≡ some d
    → IsWellFormed d.lab
unfolding plan_delete
plan_delete-IsWellFormed lab id d wf h = elim (Option-cases (find_link id lab.links)) [
  | inl e ↦ let no = sym h ∙ ap (delete_target lab id) e in cc
  | inr (l, e) ↦
      subst (λ (x : Deleted). IsWellFormed x.lab) (deleted (sym (ap (delete_target lab id) e) ∙ h))
        (delete_found-IsWellFormed lab wf id l e)
]
