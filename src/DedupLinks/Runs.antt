-- ===== src/DedupLinks/Runs.antt =====
-- A second run of scripts/dedup_links.py.
use nova_ve.Prelude.{
  ℕ, zero, suc, ◌+◌, ◌-◌, ◌≡◌, refl, sym, ap, ◌∙◌, inl, inr, Bool, true, false, List, [], ◌∷◌,
  length, arith, Bool-cases, Option-cases,
}
use nova_ve.Lab.{Link, Lab}
use nova_ve.DedupLinks.Kept.{dedup_links-first_of_each}
use nova_ve.DedupLinks.{
  PairKey, link_key, is_seen, dedup_loop, dedup_links, LabFile, broken, other_json, schema_two,
  counted, write_back, process_lab,
}

dedup_loop_idem :
    (seen : List PairKey) (ls : List Link)
    → dedup_loop seen (dedup_loop seen ls).0 ≡ ((dedup_loop seen ls).0, 0)
unfolding dedup_loop
dedup_loop_idem seen [] = refl
dedup_loop_idem seen (l ∷ ls) = elim (Option-cases (link_key l)) [
  | inl e ↦ rw (e, e, dedup_loop_idem seen ls) refl
  | inr (k, e) ↦ elim (Bool-cases (is_seen k seen)) [
    | inl f ↦ rw (e, f) (dedup_loop_idem seen ls)
    | inr f ↦ rw (e, f, e, f, dedup_loop_idem (k ∷ seen) ls) refl
  ]
]

pub dedup_links_idem :
    (links : List Link) → dedup_links (dedup_links links).0 ≡ ((dedup_links links).0, 0)
unfolding dedup_links
dedup_links_idem links = dedup_loop_idem [] links

second_write_back :
    (dry_run writes writes' : Bool) (lab : Lab) (deduped : List Link) (removed before n : ℕ)
    (file : LabFile)
    → dedup_links lab.links ≡ (deduped, removed)
    → write_back false writes' lab (deduped, removed) ≡ counted before n file
    → process_lab dry_run true writes file ≡ counted (before - n) 0 file
unfolding process_lab write_back
second_write_back dry_run writes writes' lab deduped zero before n file e h =
    let same : schema_two lab ≡ file = cc in
    let count : length lab.links ≡ before = cc in
    let none_gone : 0 ≡ n = cc in
    let left : length lab.links ≡ before - n = omega arith in rw (← same, e, left) refl
second_write_back dry_run writes false lab deduped (suc m) before n file e h = cc
second_write_back dry_run writes true lab deduped (suc m) before n file e h =
    let again : dedup_links deduped ≡ (deduped, 0) =
      ap (λ r. dedup_links r.0) (sym e) ∙ dedup_links_idem lab.links ∙ ap (λ r. (r.0, 0)) e in
    let same : schema_two (record lab { links = deduped }) ≡ file = cc in
    let count : length lab.links ≡ before = cc in
    let gone : suc m ≡ n = cc in
    let total : length deduped + suc m ≡ length lab.links =
      ap (λ r. length r.0 + r.1) (sym e) ∙ (dedup_links-first_of_each lab.links).1 in
    let left : length deduped ≡ before - n = omega arith in rw (← same, again, left) refl

-- After a live run on a file that did not fail, a further run on the file that it left, dry or not,
-- removes nothing and leaves it; it counts the links that the first one kept.
pub process_lab_again :
    (dry_run writes writes' locked : Bool) (file file' : LabFile) (before n : ℕ)
    → process_lab false locked writes' file ≡ counted before n file'
    → process_lab dry_run true writes file' ≡ counted (before - n) 0 file'
unfolding process_lab
process_lab_again dry_run writes writes' locked broken file' before n h = cc
process_lab_again dry_run writes writes' false other_json file' before n h = cc
process_lab_again dry_run writes writes' true other_json file' before n h =
    let same : other_json ≡ file' = cc in
    let count : 0 ≡ before = cc in
    let left : 0 ≡ before - n = omega arith in rw (← same, ← left) refl
process_lab_again dry_run writes writes' false (schema_two lab) file' before n h = cc
process_lab_again dry_run writes writes' true (schema_two lab) file' before n h =
    second_write_back dry_run writes writes' lab _ _ before n file' refl h
