-- ===== src/Links/Service/Keeps.antt =====
-- The lab files before and after `create_link` (backend/app/services/link_service.py), for the
-- invariant of a lab's links and networks.
use nova_ve.Prelude.Dict.{get-put}
use nova_ve.Prelude.{
  ℕ, ◌≡◌, ◌≢◌, refl, ◌∙◌, true, Option, none, some, List, [], ◌∷◌, inl, inr, arith, Text, text_eq,
  text_eq_iff, Bool-cases, All,
}
use nova_ve.Lab.{Endpoint, Link, LinkRuntime, Lab}
use nova_ve.LabPath.{normalize_relative_lab_path}
use nova_ve.RuntimeMutex.{MutexKey}
use nova_ve.Ipam.Store.{LabStore, read_lab, write_lab}
use nova_ve.Links.Keys.{EndpointKey, normalize_endpoint}
use nova_ve.Links.Ids.{refcount_links, refcount}
use nova_ve.Links.Create.{Result, ok, err, Created, plan_create}
use nova_ve.Links.Cache.{CacheEntry, Cache, cache_get}
use nova_ve.Links.WellFormed.{interface_count, IsHalf, DistinctIds, IsWellFormed}
use nova_ve.Links.WellFormed.Create.{joins_node, plan_create-IsWellFormed}
use nova_ve.Links.Service.{
  Stamp, is_stamped, stamp_links, stamp, stamp_all, World, Environment, Stacked, all_entered,
  contended, save,
}
use nova_ve.Links.Service.CreateLink.{
  finish_create, create_attached, create_planned, create_read, create_link_locked, under_mutexes,
  create_looked_up, create_at, create_link,
}

-- A stamp changes the runtime of a link, and nothing that counts.
module _ (s : Stamp) where
  refcount_links-stamp_links :
      (ls : List Link) (k : ℕ) → refcount_links (stamp_links s ls) k ≡ refcount_links ls k
  unfolding refcount_links stamp_links
  refcount_links-stamp_links [] k = refl
  refcount_links-stamp_links (l ∷ ls) k = ground (arith, refcount_links-stamp_links ls k)

  interface_count-stamp_links :
      (n i : ℕ) (ls : List Link) → interface_count n i (stamp_links s ls) ≡ interface_count n i ls
  unfolding interface_count stamp_links
  interface_count-stamp_links n i [] = refl
  interface_count-stamp_links n i (l ∷ ls) = ground (arith, interface_count-stamp_links n i ls)

  All-stamp_links :
      (P : Link → Type 0) (ls : List Link)
      → ((l : Link) (r : Option LinkRuntime) → P l → P (record l { runtime = r }))
      → All P ls
      → All P (stamp_links s ls)
  unfolding stamp_links
  All-stamp_links P [] f a = tt
  All-stamp_links P (l ∷ ls) f a = elim (Bool-cases (is_stamped s l)) [
    | inl e ↦ rw e (f l _ a.0, a.1)
    | inr e ↦ rw e (a.0, All-stamp_links P ls f a.1)
  ]

  DistinctIds-stamp_links : (ls : List Link) → DistinctIds ls → DistinctIds (stamp_links s ls)
  unfolding stamp_links
  DistinctIds-stamp_links [] d = tt
  DistinctIds-stamp_links (l ∷ ls) d = elim (Bool-cases (is_stamped s l)) [
    | inl e ↦ rw e d
    | inr e ↦ rw e (
      All-stamp_links (λ (m : Link). m.id ≢ l.id) ls (λ m r h. h) d.0,
      DistinctIds-stamp_links ls d.1,
    )
  ]

  stamp-IsWellFormed : (lab : Lab) → IsWellFormed lab → IsWellFormed (stamp s lab)
  unfolding stamp refcount
  stamp-IsWellFormed lab wf = record {
    halves = All-stamp_links IsHalf lab.links (λ l r h. h) wf.halves;
    once = λ n i. rw (interface_count-stamp_links n i lab.links) (wf.once n i);
    ids = DistinctIds-stamp_links lab.links wf.ids;
    bridges = λ n w at imp. refcount_links-stamp_links lab.links n ∙ wf.bridges n w at imp;
    targets = λ n pos gone. refcount_links-stamp_links lab.links n ∙ wf.targets n pos gone;
    no_zero = wf.no_zero;
  }

stamp_all-IsWellFormed :
    (ss : List Stamp) (lab : Lab) → IsWellFormed lab → IsWellFormed (stamp_all ss lab)
unfolding stamp_all
stamp_all-IsWellFormed [] lab wf = wf
stamp_all-IsWellFormed (s ∷ ss) lab wf =
    stamp_all-IsWellFormed ss (stamp s lab) (stamp-IsWellFormed s lab wf)

-- Every lab file is well formed.
abbrev pub AllWellFormed : LabStore → Type 0
AllWellFormed labs = (q : Text) (lab : Lab) → read_lab q labs ≡ some lab → IsWellFormed lab

pub write_lab-AllWellFormed :
    (path : Text) (lab : Lab) (labs : LabStore)
    → IsWellFormed lab
    → AllWellFormed labs
    → AllWellFormed (write_lab path lab labs)
write_lab-AllWellFormed path lab labs wf all q found h =
    let at = get-put text_eq text_eq_iff path q lab labs in
    elim (Bool-cases (text_eq path q)) [
      | inl e ↦ let same : lab ≡ found = ground (arith, at, h, e) in rw (← same) wf
      | inr e ↦ all q found (ground (arith, at, h, e))
    ]

module _ (env : Environment) (path : Text) (a b : EndpointKey) (style key : Option Text)
    (joins : joins_node a b ≡ true) (apart : a ≢ b) where
  attached-AllWellFormed :
      (w : World) (original : Lab) (c : Created) (stamps : Option (List Stamp))
      → AllWellFormed w.labs
      → IsWellFormed original
      → IsWellFormed c.lab
      → AllWellFormed (create_attached env (save path c.lab w) path key original c stamps).1.labs
  unfolding save finish_create
  attached-AllWellFormed w original c none all wf wf' =
      write_lab-AllWellFormed path original _ wf (write_lab-AllWellFormed path c.lab w.labs wf' all)
  attached-AllWellFormed w original c (some []) all wf wf' =
      write_lab-AllWellFormed path c.lab w.labs wf' all
  attached-AllWellFormed w original c (some (s ∷ ss)) all wf wf' =
      write_lab-AllWellFormed path _ _ (stamp_all-IsWellFormed (s ∷ ss) c.lab wf')
        (write_lab-AllWellFormed path c.lab w.labs wf' all)

  planned-AllWellFormed :
      (w : World) (original : Lab) (plan : Result Created)
      → AllWellFormed w.labs
      → IsWellFormed original
      → plan_create original a b style ≡ plan
      → AllWellFormed (create_planned env w path key original plan).1.labs
  planned-AllWellFormed w original (err x) all wf h = all
  planned-AllWellFormed w original (ok c) all wf h =
      attached-AllWellFormed w original c _ all wf
        (plan_create-IsWellFormed original a b style c wf joins apart h)

  read-AllWellFormed :
      (w : World) (o : Option Lab)
      → AllWellFormed w.labs
      → read_lab path w.labs ≡ o
      → AllWellFormed (create_read env w path a b style key o).1.labs
  read-AllWellFormed w none all h = all
  read-AllWellFormed w (some lab) all h =
      planned-AllWellFormed w lab (plan_create lab a b style) all (all path lab h) refl

  mutexes-AllWellFormed :
      (w : World) (keys : List MutexKey) (s : Stacked)
      → AllWellFormed w.labs
      → AllWellFormed
          (under_mutexes w keys s (λ v. create_link_locked env v path a b style key)).1.labs
  unfolding create_link_locked
  mutexes-AllWellFormed w keys (contended r) all = all
  mutexes-AllWellFormed w keys (all_entered r) all =
      read-AllWellFormed (record w { mutex = r }) (read_lab path w.labs) all refl

  looked_up-AllWellFormed :
      (w : World) (from to : Endpoint) (found : Option CacheEntry × Cache)
      → AllWellFormed w.labs
      → normalize_endpoint from ≡ some a
      → normalize_endpoint to ≡ some b
      → AllWellFormed (create_looked_up env w path from to style key found).1.labs
  looked_up-AllWellFormed w from to (some e, cache) all p q = all
  looked_up-AllWellFormed w from to (none, cache) all p q =
      rw (p, q) (mutexes-AllWellFormed w _ _ all)

-- Where every lab file is well formed, it is so after a `create_link` too, whether the call
-- succeeds or raises, with the stamps of the hot-attach written; the endpoints of the call are two
-- different interfaces, or an interface and a network.
pub create_link-AllWellFormed :
    (env : Environment) (w : World) (lab_path : Text) (from to : Endpoint) (style key : Option Text)
    (a b : EndpointKey)
    → AllWellFormed w.labs
    → normalize_endpoint from ≡ some a
    → normalize_endpoint to ≡ some b
    → joins_node a b ≡ true
    → a ≢ b
    → AllWellFormed (create_link env w lab_path from to style key).1.labs
unfolding create_link
create_link-AllWellFormed env w lab_path from to style key a b all p q joins apart =
    go (normalize_relative_lab_path lab_path)
  where
    go : (path : Option Text) → AllWellFormed (create_at env w from to style key path).1.labs
    go none = all
    go (some path) =
        looked_up-AllWellFormed env path a b style key joins apart w from to
          (cache_get path key w.cache) all p q
