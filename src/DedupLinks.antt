-- ===== src/DedupLinks.antt =====
-- scripts/dedup_links.py: the links of a lab without those that repeat a pair of endpoints, and the
-- run over the files of the labs directory.
pub mod Kept
pub mod Runs
mod Tests
use nova_ve.Prelude.{
  ℕ, zero, suc, ◌+◌, ◌&&◌, Bool, true, false, not, Option, none, some, List, [], ◌∷◌, Text, codes,
  ◌==◌, if◌then◌else◌, length, any_of,
}
use nova_ve.Lab.{Endpoint, Link, Lab}
use nova_ve.Links.Keys.{EndpointKey, normalize_endpoint, link_pair_key, pair_key_eq}

abbrev pub PairKey : Type 0
PairKey = EndpointKey × EndpointKey

abbrev pair_of : Option EndpointKey → Option EndpointKey → Option PairKey
pair_of none b = none
pair_of (some a) none = none
pair_of (some a) (some b) = some (link_pair_key a b)

-- `_link_pair_key(ep_from, ep_to)`; `none` where an endpoint is no dict or cannot be read
unfoldable pub link_key : Link → Option PairKey
link_key l = pair_of (normalize_endpoint l.from) (normalize_endpoint l.to)

abbrev pub is_seen : PairKey → List PairKey → Bool
is_seen k seen = any_of (pair_key_eq k) seen

abbrev pub keep : Link → List Link × ℕ → List Link × ℕ
keep l r = (l ∷ r.0, r.1)

abbrev pub remove : List Link × ℕ → List Link × ℕ
remove r = (r.0, suc r.1)

-- One round of the loop of `_dedup_links`, with the rest of it as a function of the keys seen.
abbrev pub dedup_step :
    Option PairKey → List PairKey → Link → (List PairKey → List Link × ℕ) → List Link × ℕ
dedup_step none seen l rest = keep l (rest seen)
dedup_step (some k) seen l rest =
    if is_seen k seen then remove (rest seen) else keep l (rest (k ∷ seen))

unfoldable pub dedup_loop : List PairKey → List Link → List Link × ℕ
dedup_loop seen [] = ([], 0)
dedup_loop seen (l ∷ ls) = dedup_step (link_key l) seen l (λ s. dedup_loop s ls)

unfoldable pub dedup_links : List Link → List Link × ℕ
dedup_links links = dedup_loop [] links

-- What a file holds: nothing that can be read as JSON, JSON that is no lab of schema 2, or a lab.
pub data LabFile : Type 0 where
  broken other_json : LabFile
  schema_two : Lab → LabFile

-- What `process_lab` does: it raises, or it returns the two counts, and the file is as given.
pub data Processed : Type 0 where
  failed : Processed
  counted : ℕ → ℕ → LabFile → Processed

-- The end of `process_lab`, told whether the write succeeds
unfoldable pub write_back : Bool → Bool → Lab → List Link × ℕ → Processed
write_back dry_run writes lab (deduped, zero) = counted (length lab.links) 0 (schema_two lab)
write_back dry_run writes lab (deduped, suc n) =
    if dry_run
    then counted (length lab.links) (suc n) (schema_two lab)
    else if writes
    then counted (length lab.links) (suc n) (schema_two (record lab { links = deduped }))
    else failed

-- `process_lab`, told whether the lock is got and whether a write succeeds
unfoldable pub process_lab : Bool → Bool → Bool → LabFile → Processed
process_lab dry_run locked writes broken = failed
process_lab dry_run locked writes other_json = if locked then counted 0 0 other_json else failed
process_lab dry_run locked writes (schema_two lab) =
    if locked then write_back dry_run writes lab (dedup_links lab.links) else failed

-- The totals of `main`, and the files it leaves
pub record Totals : Type 0 where
  pub labs : ℕ
  pub removed : ℕ
  pub errors : ℕ

abbrev pub add_lab : ℕ → ℕ → Totals → Totals
add_lab before n t =
    if before == 0 && n == 0 then t else record t { labs = t.labs + 1; removed = t.removed + n }

-- One round of the loop of `main`: the file afterwards, and the totals.
unfoldable pub count_lab : Processed → LabFile → Totals → LabFile × Totals
count_lab failed file t = (file, record t { errors = t.errors + 1 })
count_lab (counted before n file') file t = (file', add_lab before n t)

-- The loop over the files whose stem does not end in `.tmp`, in their order, each with whether its
-- lock is got and whether its write succeeds
unfoldable pub run_files :
    Bool → List (Text × Bool × Bool × LabFile) → Totals → List (Text × LabFile) × Totals
run_files dry_run [] t = ([], t)
run_files dry_run ((path, locked, writes, file) ∷ files) t =
    let (file', t') = count_lab (process_lab dry_run locked writes file) file t in
    let (rest, t2) = run_files dry_run files t' in ((path, file') ∷ rest, t2)

abbrev pub no_totals : Totals
no_totals = record { labs = 0; removed = 0; errors = 0 }

-- The exit code of `main`, where the labs directory is there or not
unfoldable pub main : Bool → Bool → List (Text × Bool × Bool × LabFile) → ℕ
main dry_run is_dir files =
    let t = (run_files dry_run files no_totals).1 in
    if not is_dir then 1 else if t.errors == 0 then 0 else 1
