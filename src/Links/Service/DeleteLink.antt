-- ===== src/Links/Service/DeleteLink.antt =====
-- `delete_link` of `LinkService` in backend/app/services/link_service.py. A call returns its result
-- and the state that it leaves.
use nova_ve.Prelude.{
  ℕ, Bool, true, false, ◌||◌, Option, none, some, List, [], ◌∷◌, ◌++◌, Text, text_eq, if◌then◌else◌,
}
use nova_ve.Lab.{Endpoint, node, network, malformed, Link, LinkRuntime, Network, Lab}
use nova_ve.LabPath.{normalize_relative_lab_path}
use nova_ve.Ipam.{Outcome, done, raised}
use nova_ve.Ipam.Store.{LabStore, read_lab, release_ip}
use nova_ve.Links.Keys.{index_or_zero}
use nova_ve.Links.Create.{invalid_path, lab_missing, detach_failed, release_failed, Result, ok, err}
use nova_ve.Links.Delete.{Deleted, find_link, network_ids, plan_delete}
use nova_ve.Links.Service.{World, Environment, runtime_mutex_lab_id, acquire_all, save, publish_all}
use nova_ve.Links.Service.CreateLink.{is_empty, mutex_keys, under_mutexes}

-- The node endpoints of a stored link, a missing index read as 0.
unfoldable pub node_pairs : Endpoint → List (ℕ × ℕ)
node_pairs (node n i) = (n, index_or_zero i) ∷ []
node_pairs (network n) = []
node_pairs malformed = []

abbrev pub link_pairs : Link → List (ℕ × ℕ)
link_pairs l = node_pairs l.from ++ node_pairs l.to

abbrev pub generation_of : Option LinkRuntime → ℕ
generation_of none = 0
generation_of (some r) = r.attach_generation

-- `removed_ip` with the network that it is released on, where both are there.
abbrev pub address_to_release : Link → List ℕ → Option LinkRuntime → Option (ℕ × Text)
address_to_release l [] r = none
address_to_release l (n ∷ ns) none = none
address_to_release l (n ∷ ns) (some r) = elim r.ip [
  | none ↦ none
  | some t ↦ if is_empty (link_pairs l) || text_eq t [] then none else some (n, t)
]

-- Phase 4: under the lab lock, on the file as it is then.
abbrev pub delete_planned :
    Environment → World → Text → Option Deleted → (Bool × Option Network) × World
delete_planned env w path none = ((true, none), w)
delete_planned env w path (some d) =
    let w' = save path d.lab w in
    ((false, d.deleted_implicit), record w' { hub = publish_all env path d.events w'.hub })

abbrev pub delete_read :
    Environment → World → Text → Text → Option Lab → Result (Bool × Option Network) × World
delete_read env w path id none = (err lab_missing, w)
delete_read env w path id (some lab) =
    let (answer, w') = delete_planned env w path (plan_delete lab id) in (ok answer, w')

-- Phase 3: the address of the link is released first.
abbrev pub delete_released :
    Environment
    → World
    → Text
    → Text
    → Outcome Bool × LabStore
    → Result (Bool × Option Network) × World
delete_released env w path id (raised e, labs) = (err release_failed, w)
delete_released env w path id (done b, labs) =
    let w' : World = record w { labs = labs } in delete_read env w' path id (read_lab path labs)

abbrev pub delete_detached :
    Environment
    → Bool
    → World
    → Text
    → Text
    → Option (ℕ × Text)
    → Result (Bool × Option Network) × World
delete_detached env held w path id none = delete_read env w path id (read_lab path w.labs)
delete_detached env held w path id (some (n, t)) =
    delete_released env w path id (release_ip env.find_owner env.ip held w.labs path n t)

-- Phase 2: whether the node endpoints are hot-detached, where there is one.
abbrev pub is_detached : Environment → Text → Text → Link → Bool
is_detached env path mutex_lab_id l =
    is_empty (link_pairs l)
    || env.hot_detach mutex_lab_id path (link_pairs l) (generation_of l.runtime)

-- `_delete_link_locked` on the link that phase 1 finds; where the hot-detach raises, nothing has
-- been written.
abbrev pub delete_target :
    Environment
    → Bool
    → World
    → Text
    → Text
    → Text
    → Option Link
    → Result (Bool × Option Network) × World
delete_target env held w path id mutex_lab_id none = (ok (true, none), w)
delete_target env held w path id mutex_lab_id (some l) =
    if is_detached env path mutex_lab_id l
    then delete_detached env held w path id
        (address_to_release l (network_ids l.from ++ network_ids l.to) l.runtime)
    else (err detach_failed, w)

abbrev pub links_of : Option Lab → List Link
links_of none = []
links_of (some lab) = lab.links

unfoldable pub delete_link_locked :
    Environment → Bool → World → Text → Text → Text → Result (Bool × Option Network) × World
delete_link_locked env held w path id mutex_lab_id =
    delete_target env held w path id mutex_lab_id (find_link id (links_of (read_lab path w.labs)))

abbrev pub delete_probed :
    Environment → Bool → World → Text → Text → Option Link → Result (Bool × Option Network) × World
delete_probed env held w path id none = (ok (true, none), w)
delete_probed env held w path id (some l) =
    let keys = mutex_keys w path (link_pairs l) in
    let mutex_lab_id = runtime_mutex_lab_id (read_lab path w.labs) path in
    under_mutexes w keys (acquire_all env [] w.mutex keys)
      (λ w'. delete_link_locked env held w' path id mutex_lab_id)

abbrev pub delete_at :
    Environment → Bool → World → Text → Text → Option Lab → Result (Bool × Option Network) × World
delete_at env held w path id none = (err lab_missing, w)
delete_at env held w path id (some lab) = delete_probed env held w path id (find_link id lab.links)

abbrev pub delete_path :
    Environment → Bool → World → Text → Option Text → Result (Bool × Option Network) × World
delete_path env held w id none = (err invalid_path, w)
delete_path env held w id (some path) = delete_at env held w path id (read_lab path w.labs)

-- `delete_link`; `held` is `_lab_lock_held`.
unfoldable pub delete_link :
    Environment → Bool → World → Text → Text → Result (Bool × Option Network) × World
delete_link env held w lab_path id =
    delete_path env held w id (normalize_relative_lab_path lab_path)
