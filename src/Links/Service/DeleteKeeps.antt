-- ===== src/Links/Service/DeleteKeeps.antt =====
-- The lab files before and after `delete_link` (backend/app/services/link_service.py), for the
-- invariant of a lab's links and networks.
use nova_ve.Prelude.Dict.{get-put}
use nova_ve.Prelude.{
  ℕ, ◌≡◌, refl, sym, ap, subst, ◌∙◌, Bool, true, false, Option, none, some, List, inl, inr, arith,
  Text, ◌==◌, ==_iff, Bool-cases,
}
use nova_ve.Lab.{Link, Network, Lab, network_at}
use nova_ve.LabPath.{normalize_relative_lab_path}
use nova_ve.RuntimeMutex.{MutexKey}
use nova_ve.Ipam.{IpAddress, Outcome, done, raised, has_entry, release_network}
use nova_ve.Ipam.Store.{
  LabStore, read_lab, store_network, ipam_target, release_stored, release_found, release_read,
  release_at, release_target, release_ip,
}
use nova_ve.Links.Ids.{refcount}
use nova_ve.Links.Delete.{Deleted, find_link, plan_delete}
use nova_ve.Links.WellFormed.{IsWellFormed}
use nova_ve.Links.WellFormed.Delete.{plan_delete-IsWellFormed}
use nova_ve.Links.Service.{World, Environment, Stacked, all_entered, contended, save}
use nova_ve.Links.Service.CreateLink.{under_mutexes}
use nova_ve.Links.Service.DeleteLink.{
  is_detached, delete_planned, delete_read, delete_released, delete_detached, delete_target,
  delete_link_locked, delete_probed, delete_at, delete_path, delete_link,
}
use nova_ve.Links.Service.Keeps.{AllWellFormed, write_lab-AllWellFormed}

-- A release changes the addresses in use of a network, and nothing that counts.
store_network-IsWellFormed :
    (n : ℕ) (v w : Network) (lab : Lab)
    → IsWellFormed lab
    → network_at n lab ≡ some v
    → w.implicit ≡ v.implicit
    → IsWellFormed (store_network n w lab)
unfolding refcount
store_network-IsWellFormed n v w lab wf there same = record {
  halves = wf.halves;
  once = wf.once;
  ids = wf.ids;
  bridges = λ k u at imp. elim (Bool-cases (n == k)) [
    | inl e ↦
        let here : n ≡ k = ground arith in
        let mine : w ≡ u = ground (arith, get-put ◌==◌ ==_iff n k w lab.networks, at, e) in
        let there' = subst (λ x. network_at x lab ≡ some v) here there in
        wf.bridges k v there' (sym same ∙ (ap (λ (x : Network). x.implicit) mine ∙ imp))
    | inr e ↦ wf.bridges k u (ground (arith, get-put ◌==◌ ==_iff n k w lab.networks, at, e)) imp
  ];
  targets = λ k pos gone.
      wf.targets k pos (ground (arith, get-put ◌==◌ ==_iff n k w lab.networks, gone, there));
  no_zero = elim (Bool-cases (n == 0)) [
    | inl e ↦
        let here : n ≡ 0 = ground arith in
        let there' = subst (λ x. network_at x lab ≡ some v) here there in
        absurd (ground (arith, there', wf.no_zero))
    | inr e ↦ ground (arith, get-put ◌==◌ ==_iff n 0 w lab.networks, wf.no_zero, e)
  ];
}

release_network-implicit :
    (ip : IpAddress) (w : Network) (t : Text) → (release_network ip w t).0.implicit ≡ w.implicit
unfolding release_network
release_network-implicit ip w t = elim (Bool-cases (has_entry ip t w.used_ips)) [
  | inl e ↦ rw e refl
  | inr e ↦ rw e refl
]

module _ (ip : IpAddress) (store : LabStore) (path : Text) (n : ℕ) (t : Text)
    (all : AllWellFormed store) where
  stored-AllWellFormed :
      (lab : Lab) (v : Network) (r : Network × Bool)
      → IsWellFormed lab
      → network_at n lab ≡ some v
      → r.0.implicit ≡ v.implicit
      → AllWellFormed (release_stored store path n lab r).1
  stored-AllWellFormed lab v (w, true) wf there same =
      write_lab-AllWellFormed path (store_network n w lab) store
        (store_network-IsWellFormed n v w lab wf there same) all
  stored-AllWellFormed lab v (w, false) wf there same = all

  found-AllWellFormed :
      (lab : Lab) (o : Option Network)
      → IsWellFormed lab
      → network_at n lab ≡ o
      → AllWellFormed (release_found ip store path n t lab o).1
  found-AllWellFormed lab none wf h = all
  found-AllWellFormed lab (some w) wf h =
      stored-AllWellFormed lab w (release_network ip w t) wf h (release_network-implicit ip w t)

  released-AllWellFormed :
      (o : Option Lab)
      → read_lab path store ≡ o
      → AllWellFormed (release_read ip store path n t o).1
  released-AllWellFormed none h = all
  released-AllWellFormed (some lab) h =
      found-AllWellFormed lab (network_at n lab) (all path lab h) refl

target-AllWellFormed :
    (ip : IpAddress) (held : Bool) (store : LabStore) (t : Text) (o : Outcome (Text × ℕ))
    → AllWellFormed store
    → AllWellFormed (release_target ip held store t o).1
unfolding release_at
target-AllWellFormed ip held store t (raised e) all = all
target-AllWellFormed ip held store t (done (path, n)) all =
    released-AllWellFormed ip store path n t all (read_lab path store) refl

module _ (env : Environment) (path : Text) (id : Text) where
  planned-AllWellFormed :
      (w : World) (lab : Lab) (o : Option Deleted)
      → AllWellFormed w.labs
      → IsWellFormed lab
      → plan_delete lab id ≡ o
      → AllWellFormed (delete_planned env w path o).1.labs
  unfolding save
  planned-AllWellFormed w lab none all wf h = all
  planned-AllWellFormed w lab (some d) all wf h =
      write_lab-AllWellFormed path d.lab w.labs (plan_delete-IsWellFormed lab id d wf h) all

  read-AllWellFormed :
      (w : World) (o : Option Lab)
      → AllWellFormed w.labs
      → read_lab path w.labs ≡ o
      → AllWellFormed (delete_read env w path id o).1.labs
  read-AllWellFormed w none all h = all
  read-AllWellFormed w (some lab) all h =
      planned-AllWellFormed w lab (plan_delete lab id) all (all path lab h) refl

  after_release-AllWellFormed :
      (w : World) (r : Outcome Bool × LabStore)
      → AllWellFormed w.labs
      → AllWellFormed r.1
      → AllWellFormed (delete_released env w path id r).1.labs
  after_release-AllWellFormed w (raised e, labs) all rel = all
  after_release-AllWellFormed w (done b, labs) all rel =
      read-AllWellFormed (record w { labs = labs }) (read_lab path labs) rel refl

  detached-AllWellFormed :
      (held : Bool) (w : World) (o : Option (ℕ × Text))
      → AllWellFormed w.labs
      → AllWellFormed (delete_detached env held w path id o).1.labs
  unfolding release_ip
  detached-AllWellFormed held w none all = read-AllWellFormed w (read_lab path w.labs) all refl
  detached-AllWellFormed held w (some (n, t)) all =
      after_release-AllWellFormed w _ all
        (target-AllWellFormed env.ip held w.labs t (ipam_target env.find_owner w.labs path n) all)

  link-AllWellFormed :
      (held : Bool) (w : World) (mutex_lab_id : Text) (o : Option Link)
      → AllWellFormed w.labs
      → AllWellFormed (delete_target env held w path id mutex_lab_id o).1.labs
  link-AllWellFormed held w m none all = all
  link-AllWellFormed held w m (some l) all = elim (Bool-cases (is_detached env path m l)) [
    | inl e ↦ rw e (detached-AllWellFormed held w _ all)
    | inr e ↦ rw e all
  ]

  mutexes-AllWellFormed :
      (held : Bool) (w : World) (m : Text) (keys : List MutexKey) (s : Stacked)
      → AllWellFormed w.labs
      → AllWellFormed (under_mutexes w keys s (λ v. delete_link_locked env held v path id m)).1.labs
  unfolding delete_link_locked
  mutexes-AllWellFormed held w m keys (contended r) all = all
  mutexes-AllWellFormed held w m keys (all_entered r) all =
      link-AllWellFormed held (record w { mutex = r }) m _ all

  probed-AllWellFormed :
      (held : Bool) (w : World) (o : Option Link)
      → AllWellFormed w.labs
      → AllWellFormed (delete_probed env held w path id o).1.labs
  probed-AllWellFormed held w none all = all
  probed-AllWellFormed held w (some l) all = mutexes-AllWellFormed held w _ _ _ all

  at-AllWellFormed :
      (held : Bool) (w : World) (o : Option Lab)
      → AllWellFormed w.labs
      → AllWellFormed (delete_at env held w path id o).1.labs
  at-AllWellFormed held w none all = all
  at-AllWellFormed held w (some lab) all = probed-AllWellFormed held w (find_link id lab.links) all

path-AllWellFormed :
    (env : Environment) (held : Bool) (w : World) (id : Text) (o : Option Text)
    → AllWellFormed w.labs
    → AllWellFormed (delete_path env held w id o).1.labs
path-AllWellFormed env held w id none all = all
path-AllWellFormed env held w id (some path) all =
    at-AllWellFormed env path id held w (read_lab path w.labs) all

-- Where every lab file is well formed, it is so after a `delete_link` too, wherever the call ends:
-- at a missing link, a mutex that is not free, a failed detach or release, or with the link, the
-- other half of its bridge and the bridge deleted.
pub delete_link-AllWellFormed :
    (env : Environment) (held : Bool) (w : World) (lab_path id : Text)
    → AllWellFormed w.labs
    → AllWellFormed (delete_link env held w lab_path id).1.labs
unfolding delete_link
delete_link-AllWellFormed env held w lab_path id all =
    path-AllWellFormed env held w id (normalize_relative_lab_path lab_path) all
