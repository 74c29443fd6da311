-- ===== src/Links/WellFormed.antt =====
-- What holds of the links and networks of a lab (backend/app/services/link_service.py) between
-- two operations.
pub mod Counts
pub mod Implicit
pub mod Attached
pub mod Create
pub mod Halves
pub mod Delete
pub mod RoundTrip
use nova_ve.Prelude.{
  ℕ, zero, suc, ◌+◌, ◌≤◌, ◌<◌, ◌≡◌, ◌≢◌, Bool, true, false, Option, none, some, List, [], ◌∷◌, Text,
  ◌&&◌, ◌==◌, if◌then◌else◌, All,
}
use nova_ve.Lab.{Endpoint, node, network, malformed, Link, Network, Lab, network_at}
use nova_ve.Links.Keys.{index_or_zero}
use nova_ve.Links.Ids.{refcount}

-- How often an endpoint is the interface.
unfoldable pub wires : ℕ → ℕ → Endpoint → ℕ
wires n i (node m x) = if m == n && index_or_zero x == i then 1 else 0
wires n i (network m) = 0
wires n i malformed = 0

-- How many link endpoints wire the interface.
unfoldable pub interface_count : ℕ → ℕ → List Link → ℕ
interface_count n i [] = 0
interface_count n i (l ∷ ls) = wires n i l.from + wires n i l.to + interface_count n i ls

-- One node endpoint and one network endpoint.
abbrev pub is_half : Endpoint → Endpoint → Bool
is_half (node n i) (network m) = true
is_half (network m) (node n i) = true
is_half _ _ = false

abbrev pub IsHalf : Link → Type 0
IsHalf l = is_half l.from l.to ≡ true

abbrev pub DistinctIds : List Link → Type 0
DistinctIds [] = Unit
DistinctIds (l ∷ ls) = All (λ (m : Link). m.id ≢ l.id) ls × DistinctIds ls

-- Every link joins an interface to a network; no interface is wired twice; no id stands twice; an
-- implicit network has exactly two endpoints; and links reach only networks that are there.
pub record IsWellFormed (lab : Lab) : Type 0 where
  pub halves : All IsHalf lab.links
  pub once : (n i : ℕ) → interface_count n i lab.links ≤ 1
  pub ids : DistinctIds lab.links
  pub bridges :
      (n : ℕ) (w : Network) → network_at n lab ≡ some w → w.implicit ≡ true → refcount lab n ≡ 2
  pub targets : (n : ℕ) → 0 < n → network_at n lab ≡ none → refcount lab n ≡ 0
  pub no_zero : network_at 0 lab ≡ none
