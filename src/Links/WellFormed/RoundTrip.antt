-- ===== src/Links/WellFormed/RoundTrip.antt =====
-- Creating the implicit bridge of two nodes and deleting its first link
-- (backend/app/services/link_service.py).
use nova_ve.Prelude.Dict.{get, put, remove, get-put}
use nova_ve.Prelude.{
  ℕ, ◌<◌, ◌≡◌, ◌≢◌, refl, sym, ap, subst, ◌∙◌, Bool, false, Option, none, some, List, [], ◌∷◌, ◌++◌,
  inl, inr, arith, Option-cases, Text, text_eq_iff, text_eq_refl, ==_refl, ◌==◌, ==_iff, All,
  All-map, Bool-cases,
}
use mathlib.Core.List.{append_assoc, append-nil}
use nova_ve.Lab.{node, network, Link, Lab, network_at}
use nova_ve.Links.Ids.{refcount_links, refcount, is_network}
use nova_ve.Links.Delete.{
  find_first, pop_first, has_id, find_link, touches, Deleted, delete_found, delete_target,
  plan_delete,
}
use nova_ve.Links.WellFormed.{IsHalf, IsWellFormed}
use nova_ve.Links.Keys.{node_key, endpoint_of}
use nova_ve.Links.Ids.{next_link_id, next_link_id_fresh, next_network_id, next_network_id_fresh}
use nova_ve.Links.Records.{build_link, build_implicit_network}
use nova_ve.Links.Create.{
  ok, Created, create_implicit, create_unless, create_branch, plan_create, find_conflict,
}
use nova_ve.Links.WellFormed.Create.{created}
use nova_ve.Links.WellFormed.Halves.{half_touches, half_counts}
use nova_ve.Links.WellFormed.Implicit.{made-IsWellFormed, net_pos, net_unused}
use nova_ve.Links.WellFormed.Delete.{implicit_lab}

remove-put :
    {V : Type 0} (k : ℕ) (v : V) (m : List (ℕ × V))
    → get ◌==◌ k m ≡ none
    → remove ◌==◌ k (put ◌==◌ k v m) ≡ m
unfolding get put remove
remove-put k v [] h = ground arith
remove-put k v ((j, w) ∷ m) h = ground (arith, remove-put k v m)

-- Links that a search passes over stay.
pop_first-append :
    (test : Link → Bool) (xs ys : List Link)
    → All (λ (x : Link). test x ≡ false) xs
    → pop_first test (xs ++ ys) ≡ xs ++ pop_first test ys
unfolding pop_first
pop_first-append test [] ys a = refl
pop_first-append test (x ∷ xs) ys a = rw a.0 (ap (λ zs. x ∷ zs) (pop_first-append test xs ys a.1))

find_first-append :
    (test : Link → Bool) (xs ys : List Link)
    → All (λ (x : Link). test x ≡ false) xs
    → find_first test (xs ++ ys) ≡ find_first test ys
unfolding find_first
find_first-append test [] ys a = refl
find_first-append test (x ∷ xs) ys a = rw a.0 (find_first-append test xs ys a.1)

-- A network without endpoints is the network of no link.
untouched :
    (t : ℕ) (ls : List Link)
    → 0 < t
    → All IsHalf ls
    → refcount_links ls t ≡ 0
    → All (λ (x : Link). touches t x ≡ false) ls
unfolding refcount_links
untouched t [] pos a h = tt
untouched t (x ∷ xs) pos a h = (
  ground (arith, half_counts x.from x.to t a.0 pos, half_touches x.from x.to t a.0),
  untouched t xs pos a.1 (omega arith),
)

fresh_id :
    (id : Text) (ls : List Link)
    → All (λ (x : Link). x.id ≢ id) ls
    → All (λ (x : Link). has_id id x ≡ false) ls
fresh_id id ls = All-map {Q = λ (x : Link). has_id id x ≡ false} ls (λ x ne.
    elim (Bool-cases (has_id id x)) [ inl e ↦ absurd (ne ((text_eq_iff x.id id).0 e)) | inr e ↦ e ])

abbrev pub lab_of : Option Deleted → Option Lab
lab_of none = none
lab_of (some d) = some d.lab

module _ (lab : Lab) (wf : IsWellFormed lab) (n i m j : ℕ) (style : Option Text)
    (free : find_conflict (node_key n i) (node_key m j) lab.links ≡ none)
    (apart : node_key n i ≢ node_key m j) where
  abbrev net : ℕ
  net = next_network_id lab

  abbrev made : Created
  made = create_implicit lab (node_key n i) (node_key m j) style

  abbrev first : Link
  first = build_link (next_link_id lab.links) (node n (some i)) (network net) style

  abbrev second : Link
  second =
      build_link (next_link_id (lab.links ++ (first ∷ []))) (node m (some j)) (network net) style

  fresh : All (λ (x : Link). x.id ≢ first.id) lab.links
  unfolding build_link
  fresh = next_link_id_fresh lab.links

  unused : refcount_links lab.links net ≡ 0
  unfolding refcount
  unused = net_unused lab wf n i m j style free apart

  at_net : network_at net made.lab ≡ some (build_implicit_network net)
  unfolding create_implicit
  at_net =
      get-put ◌==◌ ==_iff net net (build_implicit_network net) lab.networks ∙ rw (==_refl net) refl

  networks_back : remove ◌==◌ net made.lab.networks ≡ lab.networks
  unfolding create_implicit
  networks_back =
      remove-put net (build_implicit_network net) lab.networks (next_network_id_fresh lab)

  made_links : made.lab.links ≡ lab.links ++ (first ∷ (second ∷ []))
  unfolding create_implicit endpoint_of
  made_links = append_assoc lab.links (first ∷ []) (second ∷ [])

  first_found : find_link made.link.id made.lab.links ≡ some first
  unfolding create_implicit endpoint_of find_first
  first_found = rw made_links (
      find_first-append (has_id first.id) lab.links (first ∷ (second ∷ []))
        (fresh_id first.id lab.links fresh)
      ∙ rw (text_eq_refl first.id) refl)

  popped_id : pop_first (has_id made.link.id) made.lab.links ≡ lab.links ++ (second ∷ [])
  unfolding create_implicit endpoint_of pop_first
  popped_id = rw made_links (
      pop_first-append (has_id first.id) lab.links (first ∷ (second ∷ []))
        (fresh_id first.id lab.links fresh)
      ∙ rw (text_eq_refl first.id) refl)

  popped : pop_first (touches net) (pop_first (has_id made.link.id) made.lab.links) ≡ lab.links
  unfolding build_link pop_first is_network
  popped = rw popped_id (
      pop_first-append (touches net) lab.links (second ∷ [])
        (untouched net lab.links (net_pos lab wf n i m j style free apart) wf.halves unused)
      ∙ rw (==_refl net) (append-nil lab.links))

  restored : (delete_found made.lab made.link.id first).lab ≡ lab
  unfolding build_link
  restored =
      implicit_lab made.lab (made-IsWellFormed lab wf n i m j style free apart) made.link.id first
        first_found (build_implicit_network net) at_net (unfold build_implicit_network in refl)
      ∙ rw (popped, networks_back) (unfold create_implicit in refl)

-- In a well-formed lab, creating a link between two different interfaces of nodes and then deleting
-- the link of the answer gives back the lab.
pub plan_delete-plan_create :
    (lab : Lab) (n i m j : ℕ) (style : Option Text) (c : Created)
    → IsWellFormed lab
    → node_key n i ≢ node_key m j
    → plan_create lab (node_key n i) (node_key m j) style ≡ ok c
    → lab_of (plan_delete c.lab c.link.id) ≡ some lab
unfolding plan_create create_branch plan_delete
plan_delete-plan_create lab n i m j style c wf apart h =
    elim (Option-cases (find_conflict (node_key n i) (node_key m j) lab.links)) [
      | inr (x, e) ↦
          let no = sym h ∙ ap (create_unless lab (node_key n i) (node_key m j) style) e in cc
      | inl free ↦
          let same : create_implicit lab (node_key n i) (node_key m j) style ≡ c =
            created (sym (ap (create_unless lab (node_key n i) (node_key m j) style) free) ∙ h) in
          subst (λ (x : Created). lab_of (plan_delete x.lab x.link.id) ≡ some lab) same
            (ap
                (λ o. lab_of (
                  delete_target (made lab wf n i m j style free apart).lab
                    (made lab wf n i m j style free apart).link.id o))
                (first_found lab wf n i m j style free apart)
              ∙ ap some (restored lab wf n i m j style free apart))
    ]
