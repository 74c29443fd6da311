-- ===== src/Links/WellFormed/Counts.antt =====
-- How the counts of endpoints change with a link added or taken away.
use nova_ve.Prelude.{
  ℕ, zero, suc, ◌+◌, ◌<◌, ◌≡◌, ◌≢◌, refl, sym, ◌∙◌, Bool, true, false, ◌&&◌, ◌||◌, Option, none,
  some, List, [], ◌∷◌, ◌++◌, inl, inr, arith, ◌==◌, All, All-append, Bool-cases,
}
use nova_ve.Lab.{Endpoint, node, network, Link, Network, Lab, network_at}
use nova_ve.Links.Keys.{EndpointKey, node_key, index_or_zero, normalize_endpoint}
use nova_ve.Links.Ids.{counts_for, refcount_links}
use nova_ve.Links.Create.{
  LinkError, is_node_key, interface_conflict, first_error, link_conflict, find_conflict,
}
use nova_ve.Links.Delete.{find_first, pop_first}
use nova_ve.Links.WellFormed.{wires, interface_count, is_half, IsHalf, DistinctIds, IsWellFormed}

pub refcount_links-append :
    (xs ys : List Link) (n : ℕ)
    → refcount_links (xs ++ ys) n ≡ refcount_links xs n + refcount_links ys n
unfolding refcount_links
refcount_links-append [] ys n = omega arith
refcount_links-append (x ∷ xs) ys n = omega (arith, refcount_links-append xs ys n)

pub interface_count-append :
    (n i : ℕ) (xs ys : List Link)
    → interface_count n i (xs ++ ys) ≡ interface_count n i xs + interface_count n i ys
unfolding interface_count
interface_count-append n i [] ys = omega arith
interface_count-append n i (x ∷ xs) ys = omega (arith, interface_count-append n i xs ys)

pub refcount_links-snoc :
    (ls : List Link) (l : Link) (k : ℕ)
    → refcount_links (ls ++ (l ∷ [])) k
      ≡ refcount_links ls k + counts_for k l.from + counts_for k l.to
refcount_links-snoc ls l k =
    refcount_links-append ls (l ∷ []) k ∙ (unfold refcount_links in omega arith)

pub interface_count-snoc :
    (ls : List Link) (l : Link) (n i : ℕ)
    → interface_count n i (ls ++ (l ∷ []))
      ≡ interface_count n i ls + wires n i l.from + wires n i l.to
interface_count-snoc ls l n i =
    interface_count-append n i ls (l ∷ []) ∙ (unfold interface_count in omega arith)

-- A network that is there has a positive number.
pub key_pos :
    (lab : Lab) → IsWellFormed lab → (k : ℕ) (w : Network) → network_at k lab ≡ some w → 0 < k
key_pos lab wf zero w h = cc
key_pos lab wf (suc k) w h = omega arith

pub DistinctIds-append :
    (xs : List Link) (l : Link)
    → All (λ (m : Link). m.id ≢ l.id) xs
    → DistinctIds xs
    → DistinctIds (xs ++ (l ∷ []))
DistinctIds-append [] l a d = (tt, tt)
DistinctIds-append (x ∷ xs) l a d = (
  All-append (λ (m : Link). m.id ≢ x.id) xs (l ∷ []) d.0 ((λ e. a.0 (sym e)), tt),
  DistinctIds-append xs l a.1 d.1,
)

-- A link found by a test passes it, and what it counts for is what its removal takes away.
pub find_first-test :
    (test : Link → Bool) (ls : List Link) (l : Link) → find_first test ls ≡ some l → test l ≡ true
unfolding find_first
find_first-test test [] l h = cc
find_first-test test (x ∷ ls) l h = elim (Bool-cases (test x)) [
  | inl e ↦ let same : x ≡ l = ground (arith, e) in rw (← same) e
  | inr e ↦ find_first-test test ls l (ground (arith, e))
]

module _ (test : Link → Bool) where
  pub refcount_links-pop_first :
      (ls : List Link) (l : Link) (n : ℕ)
      → find_first test ls ≡ some l
      → refcount_links (pop_first test ls) n + counts_for n l.from + counts_for n l.to
        ≡ refcount_links ls n
  unfolding find_first pop_first refcount_links
  refcount_links-pop_first [] l n h = cc
  refcount_links-pop_first (x ∷ ls) l n h = elim (Bool-cases (test x)) [
    | inl e ↦ let same : x ≡ l = ground (arith, e) in rw (e, same) (omega arith)
    | inr e ↦
        let ih = refcount_links-pop_first ls l n (ground (arith, e)) in rw e (omega (arith, ih))
  ]

  pub interface_count-pop_first :
      (ls : List Link) (l : Link) (n i : ℕ)
      → find_first test ls ≡ some l
      → interface_count n i (pop_first test ls) + wires n i l.from + wires n i l.to
        ≡ interface_count n i ls
  unfolding find_first pop_first interface_count
  interface_count-pop_first [] l n i h = cc
  interface_count-pop_first (x ∷ ls) l n i h = elim (Bool-cases (test x)) [
    | inl e ↦ let same : x ≡ l = ground (arith, e) in rw (e, same) (omega arith)
    | inr e ↦
        let ih = interface_count-pop_first ls l n i (ground (arith, e)) in rw e (omega (arith, ih))
  ]

  pub All-pop_first {κ} :
      (P : Link → Type κ) (ls : List Link) → All P ls → All P (pop_first test ls)
  unfolding pop_first
  All-pop_first P [] h = tt
  All-pop_first P (x ∷ ls) h = elim (Bool-cases (test x)) [
    | inl e ↦ rw e h.1
    | inr e ↦ rw e (h.0, All-pop_first P ls h.1)
  ]

  pub DistinctIds-pop_first : (ls : List Link) → DistinctIds ls → DistinctIds (pop_first test ls)
  unfolding pop_first
  DistinctIds-pop_first [] h = tt
  DistinctIds-pop_first (x ∷ ls) h = elim (Bool-cases (test x)) [
    | inl e ↦ rw e h.1
    | inr e ↦ rw e (All-pop_first (λ (m : Link). m.id ≢ x.id) ls h.0, DistinctIds-pop_first ls h.1)
  ]

-- An endpoint without a conflict is none of the new interfaces.
interface_conflict-none :
    (a b : EndpointKey) (l : Link) (n i m j : ℕ)
    → interface_conflict a b l (node_key m j) ≡ none
    → (is_node_key n i a || is_node_key n i b) ≡ true
    → (m == n && j == i) ≡ false
unfolding interface_conflict
interface_conflict-none a b l n i m j h k = elim (Bool-cases (m == n && j == i)) [
  | inl e ↦
      let p : m ≡ n = ground arith in
      let q : j ≡ i = ground arith in let h' = rw (p, q) at h in absurd (ground (arith, h', k))
  | inr e ↦ e
]

link_conflict-wires :
    (a b : EndpointKey) (l : Link) (n i : ℕ) (x y : Endpoint)
    → is_half x y ≡ true
    → link_conflict a b l (normalize_endpoint x) (normalize_endpoint y) ≡ none
    → (is_node_key n i a || is_node_key n i b) ≡ true
    → wires n i x + wires n i y ≡ 0
unfolding normalize_endpoint wires
link_conflict-wires a b l n i (node m j) (network t) half h k =
    ground (arith, interface_conflict-none a b l n i m (index_or_zero j))
link_conflict-wires a b l n i (network t) (node m j) half h k =
    ground (arith, interface_conflict-none a b l n i m (index_or_zero j))
link_conflict-wires a b l n i _ _ half h k = absurd (ground arith)

first_error-none : (d e : Option LinkError) → first_error d e ≡ none → (d ≡ none) × (e ≡ none)
first_error-none d e h = ground arith

-- Where no conflict is found, the new interfaces are wired by no link.
pub find_conflict-interface_count :
    (a b : EndpointKey) (ls : List Link) (n i : ℕ)
    → All IsHalf ls
    → find_conflict a b ls ≡ none
    → (is_node_key n i a || is_node_key n i b) ≡ true
    → interface_count n i ls ≡ 0
unfolding find_conflict interface_count
find_conflict-interface_count a b [] n i halves h k = refl
find_conflict-interface_count a b (l ∷ ls) n i halves h k =
    let both = first_error-none _ _ h in
    omega (
      arith,
      link_conflict-wires a b l n i l.from l.to halves.0 both.0 k,
      find_conflict-interface_count a b ls n i halves.1 both.1 k,
    )
