-- ===== src/DedupLinks/Tests.antt =====
-- A lab with a link that is stored twice, once in each direction, and one that cannot be read.
use nova_ve.Prelude.{
  ◌≡◌, refl, true, false, none, some, [], ◌∷◌, List, Text, codes, ◌+◌, ◌-◌, length,
}
use nova_ve.Lab.{Endpoint, node, malformed, Link}
use nova_ve.Links.Keys.{normalize_endpoint, link_pair_key, pair_key_eq, key_lt, endpoint_key_eq}
use nova_ve.DedupLinks.{
  dedup_links, dedup_loop, link_key, process_lab, write_back, counted, LabFile, schema_two, main,
  run_files, count_lab,
}
use nova_ve.DedupLinks.Kept.{first_of_each, dedup_links-first_of_each}
use nova_ve.DedupLinks.Runs.{process_lab_again}

abbrev link_between : Text → Endpoint → Endpoint → Link
link_between id a b = record {
  id = id;
  from = a;
  to = b;
  style_override = none;
  endpoint_positions = codes "{}";
  label = [];
  color = [];
  width = [];
  metrics = record { delay_ms = 0; loss_pct = 0; bandwidth_kbps = 0; jitter_ms = 0 };
  runtime = none;
}

abbrev first : Link
first = link_between (codes "lnk_001") (node 1 (some 0)) (node 2 none)

abbrev second : Link
second = link_between (codes "lnk_002") (node 2 (some 0)) (node 1 (some 0))

abbrev broken_link : Link
broken_link = link_between (codes "lnk_003") malformed (node 1 (some 0))

abbrev links : List Link
links = first ∷ second ∷ broken_link ∷ []

dedup_links-first_of_each_example :
    ((dedup_links links).0 ≡ first_of_each [] links)
    × (length (dedup_links links).0 + (dedup_links links).1 ≡ 3)
dedup_links-first_of_each_example = dedup_links-first_of_each links

abbrev file : LabFile
file = schema_two (record { id = none; nodes = []; networks = []; links = links })

abbrev cleaned : LabFile
cleaned =
    schema_two (record { id = none; nodes = []; networks = []; links = first ∷ broken_link ∷ [] })

first_run : process_lab false true true file ≡ counted 3 1 cleaned
unfolding process_lab write_back dedup_links dedup_loop link_key normalize_endpoint link_pair_key
    pair_key_eq key_lt endpoint_key_eq
first_run = refl

process_lab_again_example : process_lab false true true cleaned ≡ counted (3 - 1) 0 cleaned
process_lab_again_example = process_lab_again false true true true file cleaned 3 1 first_run

all_well : main false true ((codes "a.json", true, true, file) ∷ []) ≡ 0
unfolding main run_files count_lab process_lab write_back dedup_links dedup_loop link_key
    normalize_endpoint link_pair_key pair_key_eq key_lt endpoint_key_eq
all_well = refl
