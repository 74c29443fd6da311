-- ===== src/MacRegistry/Tests.antt =====
-- Runs of the registry of backend/app/services/mac_registry.py.
use nova_ve.Prelude.Dict.{get, Distinct}
use nova_ve.Prelude.{
  ◌≡◌, ◌≢◌, refl, true, false, none, some, [], ◌∷◌, Text, codes, text_eq, text_eq_iff, to_lower,
  strip, rstrip, lstrip,
}
use nova_ve.Lab.{node, network, Link, Interface, Lab}
use nova_ve.MacRegistry.{
  MacRegistry, OwnerKey, key_eq, entry_at, recompute_for_lab, check_collision, normalize_mac,
  link_entry, is_taken, candidate_mac, hex2, suggest_mac, pick_endpoint, node_interface,
  interface_mac,
}
use nova_ve.MacRegistry.Recompute.{
  declared, or_else, unless_owned, entry_at-recompute_for_lab, check_collision-recompute_for_lab,
}
use nova_ve.MacRegistry.Suggest.{suggest_mac-free}

abbrev mac : Text
mac = codes "50:00:00:00:00:01"

abbrev eth0 : Interface
eth0 = record { index = 0; planned_mac = some mac; current_attach_generation = 0 }

abbrev link : Link
link = record {
  id = codes "lnk_001";
  from = node 1 (some 0);
  to = network 1;
  style_override = none;
  endpoint_positions = codes "{}";
  label = [];
  color = [];
  width = codes "1";
  metrics = record { delay_ms = 0; loss_pct = 0; bandwidth_kbps = 0; jitter_ms = 0 };
  runtime = none;
}

abbrev lab : Lab
lab = record {
  id = none;
  nodes = (1, record { name = codes "r1"; kind = codes "qemu"; interfaces = eth0 ∷ [] }) ∷ [];
  networks = [];
  links = link ∷ [];
}

abbrev owner : Text → OwnerKey
owner lab_id = record { lab_id = lab_id; node_id = 1; interface_index = 0 }

abbrev lab_a : Text
lab_a = codes "a.json"

abbrev lab_b : Text
lab_b = codes "b.json"

-- An entry that lab a had on network 2, and one of lab b.
abbrev before : MacRegistry
before = record { entries = ((2, mac), owner lab_a) ∷ (((3, mac), owner lab_b) ∷ []) }

before-Distinct : Distinct key_eq before.entries
unfolding get
before-Distinct = (refl, (refl, tt))

entry_at-recompute_for_lab_example :
    entry_at (2, mac) (recompute_for_lab lab_a lab before)
    ≡ or_else
        (get key_eq (2, mac) (declared lab_a lab))
        (unless_owned lab_a (entry_at (2, mac) before))
entry_at-recompute_for_lab_example =
    entry_at-recompute_for_lab lab_a lab before (2, mac) before-Distinct

mac_normal : normalize_mac mac ≡ mac
unfolding normalize_mac to_lower strip rstrip lstrip
mac_normal = refl

link_declares : link_entry lab_a lab.nodes link ≡ some ((1, mac), owner lab_a)
unfolding link_entry pick_endpoint node_interface interface_mac get normalize_mac text_eq to_lower
    strip rstrip lstrip
link_declares = refl

apart : lab_b ≢ lab_a
unfolding text_eq
apart e = let t : text_eq lab_b lab_a ≡ true = (text_eq_iff lab_b lab_a).1 e in cc

check_collision-recompute_for_lab_example :
    (w : OwnerKey) × (check_collision
        (recompute_for_lab lab_a lab before)
        1
        (some mac)
        (some (owner lab_b))
      ≡ some w)
    × (w.lab_id ≡ lab_a)
check_collision-recompute_for_lab_example =
    check_collision-recompute_for_lab lab_a lab before 0 link (1, mac) (owner lab_a) (owner lab_b)
      mac before-Distinct refl link_declares mac_normal apart

seven_free : is_taken before 2 (candidate_mac 7) ≡ false
unfolding candidate_mac hex2 get text_eq
seven_free = refl

suggest_mac-free_example : is_taken before 2 (suggest_mac (λ t. none) before 2 none) ≡ false
suggest_mac-free_example = suggest_mac-free before 2 (λ t. none) none 7 seven_free
