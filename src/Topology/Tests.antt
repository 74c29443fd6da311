-- ===== src/Topology/Tests.antt =====
-- The topology of a lab with a link to a network, which comes first, and a link of two nodes.
use nova_ve.Prelude.{◌≡◌, none, some, List, [], ◌∷◌, codes, arith}
use nova_ve.Lab.{node, network, Link}
use nova_ve.Topology.{no_metrics, derive_legacy_topology, legacy_topology_to_links}
use nova_ve.Topology.Relinked.{relinked_all, legacy_topology_to_links-relinked}

abbrev uplink : Link
uplink = record {
  id = codes "lnk_007";
  from = network 3;
  to = node 1 none;
  style_override = none;
  endpoint_positions = [];
  label = codes "up";
  color = [];
  width = [];
  metrics = no_metrics;
  runtime = none;
}

abbrev wire : Link
wire = record uplink { id = codes "lnk_009"; from = node 1 (some 1); to = node 2 (some 0) }

abbrev links : List Link
links = uplink ∷ wire ∷ []

legacy_topology_to_links-relinked_example :
    legacy_topology_to_links (derive_legacy_topology [] links) ≡ relinked_all 0 links
legacy_topology_to_links-relinked_example =
    legacy_topology_to_links-relinked [] links (omega arith, (tt, tt))
