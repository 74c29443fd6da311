-- ===== src/Links/WellFormed/Halves.antt =====
-- What a link between an interface and a network counts for, and what its removal takes away
-- (`_refcount` and the link list of backend/app/services/link_service.py).
use nova_ve.Prelude.{
  ℕ, ◌+◌, ◌≤◌, ◌<◌, ◌≡◌, refl, subst, Bool, true, ◌||◌, some, List, [], ◌∷◌, ◌++◌, inl, inr, arith,
  ◌==◌, if◌then◌else◌, All, Bool-cases,
}
use nova_ve.Lab.{Endpoint, node, network, Link}
use nova_ve.Links.Ids.{counts_for, refcount_links, is_network}
use nova_ve.Links.Delete.{find_first, pop_first, network_ids, touches}
use nova_ve.Links.WellFormed.{interface_count, is_half, IsHalf}
use nova_ve.Links.WellFormed.Counts.{refcount_links-pop_first, interface_count-pop_first}

-- The network of a link between an interface and a network.
abbrev pub network_end : Endpoint → Endpoint → ℕ
network_end (node n i) (network t) = t
network_end (network t) (node n i) = t
network_end _ _ = 0

pub half_counts :
    (x y : Endpoint) (k : ℕ)
    → is_half x y ≡ true
    → 0 < k
    → counts_for k x + counts_for k y ≡ (if network_end x y == k then 1 else 0)
unfolding counts_for
half_counts (node n i) (network t) k h pos = ground arith
half_counts (network t) (node n i) k h pos = ground arith
half_counts _ _ k h pos = absurd (ground arith)

pub half_ids :
    (x y : Endpoint) → is_half x y ≡ true → network_ids x ++ network_ids y ≡ network_end x y ∷ []
unfolding network_ids
half_ids (node n i) (network t) h = refl
half_ids (network t) (node n i) h = refl
half_ids _ _ h = absurd (ground arith)

pub half_touches :
    (x y : Endpoint) (k : ℕ)
    → is_half x y ≡ true
    → (is_network k x || is_network k y) ≡ (network_end x y == k)
unfolding is_network
half_touches (node n i) (network t) k h = refl
half_touches (network t) (node n i) k h = ground arith
half_touches _ _ k h = absurd (ground arith)

pub All-find_first {κ} :
    (P : Link → Type κ) (test : Link → Bool) (ls : List Link) (l : Link)
    → All P ls
    → find_first test ls ≡ some l
    → P l
unfolding find_first
All-find_first P test [] l a h = cc
All-find_first P test (x ∷ ls) l a h = elim (Bool-cases (test x)) [
  | inl e ↦ let same : x ≡ l = ground (arith, e) in subst P same a.0
  | inr e ↦ All-find_first P test ls l a.1 (ground (arith, e))
]

-- A network that a link reaches is the network of a link that the search finds.
pub find_first-touches :
    (ls : List Link) (t : ℕ)
    → All IsHalf ls
    → 0 < t
    → refcount_links ls t ≡ 1
    → (l : Link) × (find_first (touches t) ls ≡ some l)
unfolding find_first refcount_links
find_first-touches [] t a pos h = absurd (omega arith)
find_first-touches (x ∷ ls) t a pos h = elim (Bool-cases (touches t x)) [
  | inl e ↦ (x, rw e refl)
  | inr e ↦
      let found =
        find_first-touches ls t a.1 pos
          (ground (arith, half_counts x.from x.to t a.0 pos, half_touches x.from x.to t a.0)) in
      (found.0, rw e found.1)
]

-- What a link's removal leaves of the counts of endpoints.
pub removed_count :
    (test : Link → Bool) (ls : List Link) (l : Link) (k : ℕ)
    → find_first test ls ≡ some l
    → is_half l.from l.to ≡ true
    → 0 < k
    → refcount_links (pop_first test ls) k + (if network_end l.from l.to == k then 1 else 0)
      ≡ refcount_links ls k
removed_count test ls l k found half pos =
    omega (arith, refcount_links-pop_first test ls l k found, half_counts l.from l.to k half pos)

pub once-pop_first :
    (test : Link → Bool) (ls : List Link) (l : Link)
    → find_first test ls ≡ some l
    → ((n i : ℕ) → interface_count n i ls ≤ 1)
    → (n i : ℕ) → interface_count n i (pop_first test ls) ≤ 1
once-pop_first test ls l found once n i =
    omega (arith, once n i, interface_count-pop_first test ls l n i found)
