-- ===== src/Topology/Relinked.antt =====
-- The links that are made of a derived topology.
use nova_ve.Prelude.{
  ℕ, zero, suc, ◌+◌, ◌≤◌, ◌≡◌, refl, ap, ◌∙◌, inl, inr, true, Option, none, some, List, [], ◌∷◌,
  ◌++◌, Text, codes, text_eq, length, strip_prefix, strip_prefix-append, arith, All, Bool-cases,
}
use nova_ve.Prelude.Decimal.{str, pad3, all_digits, value_from}
use nova_ve.Prelude.Numerals.{length-str_pos, all_digits-str, value_from-str}
use nova_ve.Lab.{Endpoint, node, network, malformed, Link, Node}
use nova_ve.Topology.{
  TopologyEntry, no_metrics, node_text, network_text, or_zero, or_one, entry_of, add_some,
  node_entry, network_entry, derive_legacy_topology, digits_of, tail_id, node_id_of, link_of_entry,
  topology_to_links, legacy_topology_to_links,
}

-- The ends of a link as the topology keeps them: an interface index is written out, and a network
-- comes second.
abbrev pub turned : Endpoint → Endpoint → Endpoint × Endpoint
turned (node a i) (network w) = (node a (some (or_zero i)), network w)
turned (network w) (node a i) = (node a (some (or_zero i)), network w)
turned (node a i) (node b j) = (node a (some (or_zero i)), node b (some (or_zero j)))
turned a b = (a, b)

-- What is left of a link: its ends, label, color and width, with a number for its id.
abbrev pub relinked : ℕ → Link → Link
relinked index l = record {
  id = codes "lnk_" ++ pad3 (str (index + 1));
  from = (turned l.from l.to).0;
  to = (turned l.from l.to).1;
  style_override = none;
  endpoint_positions = [];
  label = l.label;
  color = l.color;
  width = or_one l.width;
  metrics = no_metrics;
  runtime = none;
}

abbrev pub relinked_all : ℕ → List Link → List Link
relinked_all index [] = []
relinked_all index (l ∷ ls) = relinked index l ∷ relinked_all (index + 1) ls

-- A link that joins two nodes, or a node and a network with a positive id
abbrev pub IsJoining : Endpoint → Endpoint → Type 0
IsJoining (node a i) (node b j) = Unit
IsJoining (node a i) (network w) = 1 ≤ w
IsJoining (network w) (node a i) = 1 ≤ w
IsJoining a b = ⊥

or_one_idem : (w : Text) → or_one (or_one w) ≡ or_one w
unfolding text_eq
or_one_idem w = elim (Bool-cases (text_eq w [])) [ inl e ↦ rw e refl | inr e ↦ rw e (rw e refl) ]

digits_of-numeral :
    (s : Text) → 1 ≤ length s → all_digits s ≡ true → digits_of s ≡ some (value_from 0 s)
digits_of-numeral [] h d = absurd (omega arith)
digits_of-numeral (c ∷ s) h d = rw d refl

node_id_of-node_text : (n : ℕ) → node_id_of (node_text n) ≡ some n
unfolding node_id_of
node_id_of-node_text n =
    ap tail_id (strip_prefix-append (codes "node") (str n))
    ∙ digits_of-numeral (str n) (length-str_pos n) (all_digits-str n)
    ∙ ap (λ m. some m) (value_from-str n)

node_id_of-network_text : (n : ℕ) → node_id_of (network_text n) ≡ none
unfolding node_id_of strip_prefix
node_id_of-network_text n = refl

link_of-node_entry :
    (index : ℕ) (nodes : List (ℕ × Node)) (l : Link) (a b : ℕ) (i j : Option ℕ)
    → l.from ≡ node a i
    → l.to ≡ node b j
    → link_of_entry index (node_entry nodes l a i b j) ≡ some (relinked index l)
unfolding text_eq
link_of-node_entry index nodes l a b i j from to =
    rw (from, to, node_id_of-node_text a, node_id_of-node_text b, or_one_idem l.width) refl

link_of-network_entry :
    (index : ℕ) (nodes : List (ℕ × Node)) (l : Link) (a w : ℕ) (i : Option ℕ)
    → 1 ≤ w
    → turned l.from l.to ≡ (node a (some (or_zero i)), network w)
    → link_of_entry index (network_entry nodes l a i w) ≡ some (relinked index l)
unfolding text_eq
link_of-network_entry index nodes l a zero i pos ends = absurd (omega arith)
link_of-network_entry index nodes l a (suc w) i pos ends =
    rw (ends, node_id_of-node_text a, node_id_of-network_text (suc w), or_one_idem l.width) refl

entry_of-relinked :
    (index : ℕ) (nodes : List (ℕ × Node)) (l : Link) (from to : Endpoint)
    → l.from ≡ from
    → l.to ≡ to
    → IsJoining from to
    → (e : TopologyEntry) × (entry_of nodes l from to ≡ some e)
      × (link_of_entry index e ≡ some (relinked index l))
entry_of-relinked index nodes l (node a i) (node b j) f t h =
    (node_entry nodes l a i b j, refl, link_of-node_entry index nodes l a b i j f t)
entry_of-relinked index nodes l (node a i) (network w) f t h = (
  network_entry nodes l a i w,
  refl,
  link_of-network_entry index nodes l a w i h (rw (f, t) refl),
)
entry_of-relinked index nodes l (node a i) malformed f t h = absurd h
entry_of-relinked index nodes l (network w) (node a i) f t h = (
  network_entry nodes l a i w,
  refl,
  link_of-network_entry index nodes l a w i h (rw (f, t) refl),
)
entry_of-relinked index nodes l (network w) (network x) f t h = absurd h
entry_of-relinked index nodes l (network w) malformed f t h = absurd h
entry_of-relinked index nodes l malformed to f t h = absurd h

topology_to_links-derive :
    (index : ℕ) (nodes : List (ℕ × Node)) (ls : List Link)
    → All (λ l. IsJoining l.from l.to) ls
    → topology_to_links index (derive_legacy_topology nodes ls) ≡ relinked_all index ls
unfolding topology_to_links derive_legacy_topology
topology_to_links-derive index nodes [] h = refl
topology_to_links-derive index nodes (l ∷ ls) h =
    let (e, made, back) = entry_of-relinked index nodes l l.from l.to refl refl h.0 in
    ap (λ o. topology_to_links index (add_some o (derive_legacy_topology nodes ls))) made
    ∙ ap (λ o. add_some o (topology_to_links (index + 1) (derive_legacy_topology nodes ls))) back
    ∙ ap (λ xs. relinked index l ∷ xs) (topology_to_links-derive (index + 1) nodes ls h.1)

-- Where every link joins two nodes, or a node and a network with a positive id, the links made of
-- the derived topology are those links in their order, with ends, label, color and width: ids are
-- numbers from 1, an interface index is written out, and a network is the second end.
pub legacy_topology_to_links-relinked :
    (nodes : List (ℕ × Node)) (ls : List Link)
    → All (λ l. IsJoining l.from l.to) ls
    → legacy_topology_to_links (derive_legacy_topology nodes ls) ≡ relinked_all 0 ls
unfolding legacy_topology_to_links
legacy_topology_to_links-relinked nodes ls h = topology_to_links-derive 0 nodes ls h
