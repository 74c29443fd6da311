-- ===== src/Links/Service/PatchKeeps.antt =====
-- The lab files before and after `patch_link` (backend/app/services/link_service.py), for the
-- invariant of a lab's links and networks.
use nova_ve.Prelude.{
  ℕ, ◌≡◌, ◌≢◌, refl, sym, ◌∙◌, Option, none, some, List, [], ◌∷◌, inl, inr, Text, text_eq,
  Bool-cases, All,
}
use nova_ve.Lab.{Link, Lab}
use nova_ve.LabPath.{normalize_relative_lab_path}
use nova_ve.Ipam.Store.{read_lab}
use nova_ve.Links.Ids.{refcount_links, refcount}
use nova_ve.Links.Delete.{find_link}
use nova_ve.Links.WellFormed.{interface_count, IsHalf, DistinctIds, IsWellFormed}
use nova_ve.Links.Service.{World, Environment, save}
use nova_ve.Links.Service.PatchLink.{
  PatchField, style_override, endpoint_positions, label, color, width, metrics, not_allowed,
  set_field, set_fields, patch_links, patch_found, patch_read, patch_path, patch_link,
}
use nova_ve.Links.Service.Keeps.{AllWellFormed, write_lab-AllWellFormed}

-- The same id and endpoints.
record Same (l m : Link) : Type 0 where
  id : m.id ≡ l.id
  from : m.from ≡ l.from
  to : m.to ≡ l.to

set_field-Same : (f : PatchField) (l : Link) → Same l (set_field f l)
unfolding set_field
set_field-Same (style_override v) l = record { id = refl; from = refl; to = refl }
set_field-Same (endpoint_positions v) l = record { id = refl; from = refl; to = refl }
set_field-Same (label v) l = record { id = refl; from = refl; to = refl }
set_field-Same (color v) l = record { id = refl; from = refl; to = refl }
set_field-Same (width v) l = record { id = refl; from = refl; to = refl }
set_field-Same (metrics v) l = record { id = refl; from = refl; to = refl }
set_field-Same (not_allowed v) l = record { id = refl; from = refl; to = refl }

set_fields-Same : (fs : List PatchField) (l : Link) → Same l (set_fields fs l)
unfolding set_fields
set_fields-Same [] l = record { id = refl; from = refl; to = refl }
set_fields-Same (f ∷ fs) l =
    let one = set_field-Same f l in
    let rest = set_fields-Same fs (set_field f l) in
    record { id = rest.id ∙ one.id; from = rest.from ∙ one.from; to = rest.to ∙ one.to }

module _ (id : Text) (fs : List PatchField) where
  refcount_links-patch_links :
      (ls : List Link) (k : ℕ) → refcount_links (patch_links id fs ls) k ≡ refcount_links ls k
  unfolding refcount_links patch_links
  refcount_links-patch_links [] k = refl
  refcount_links-patch_links (l ∷ ls) k = elim (Bool-cases (text_eq l.id id)) [
    | inl e ↦ let s = set_fields-Same fs l in rw (e, s.from, s.to) refl
    | inr e ↦ rw (e, refcount_links-patch_links ls k) refl
  ]

  interface_count-patch_links :
      (n i : ℕ) (ls : List Link)
      → interface_count n i (patch_links id fs ls) ≡ interface_count n i ls
  unfolding interface_count patch_links
  interface_count-patch_links n i [] = refl
  interface_count-patch_links n i (l ∷ ls) = elim (Bool-cases (text_eq l.id id)) [
    | inl e ↦ let s = set_fields-Same fs l in rw (e, s.from, s.to) refl
    | inr e ↦ rw (e, interface_count-patch_links n i ls) refl
  ]

  All-patch_links :
      (P : Link → Type 0) (ls : List Link)
      → ((l m : Link) → Same l m → P l → P m)
      → All P ls
      → All P (patch_links id fs ls)
  unfolding patch_links
  All-patch_links P [] f a = tt
  All-patch_links P (l ∷ ls) f a = elim (Bool-cases (text_eq l.id id)) [
    | inl e ↦ rw e (f l (set_fields fs l) (set_fields-Same fs l) a.0, a.1)
    | inr e ↦ rw e (a.0, All-patch_links P ls f a.1)
  ]

  DistinctIds-patch_links : (ls : List Link) → DistinctIds ls → DistinctIds (patch_links id fs ls)
  unfolding patch_links
  DistinctIds-patch_links [] d = tt
  DistinctIds-patch_links (l ∷ ls) d = elim (Bool-cases (text_eq l.id id)) [
    | inl e ↦ let s = set_fields-Same fs l in rw (e, s.id) d
    | inr e ↦ rw e (
      All-patch_links (λ (m : Link). m.id ≢ l.id) ls (λ m m' s ne e'. ne (sym s.id ∙ e')) d.0,
      DistinctIds-patch_links ls d.1,
    )
  ]

  patched-IsWellFormed :
      (lab : Lab)
      → IsWellFormed lab
      → IsWellFormed (record lab { links = patch_links id fs lab.links })
  unfolding refcount
  patched-IsWellFormed lab wf = record {
    halves = All-patch_links IsHalf lab.links (λ l m s h. rw (s.from, s.to) h) wf.halves;
    once = λ n i. rw (interface_count-patch_links n i lab.links) (wf.once n i);
    ids = DistinctIds-patch_links lab.links wf.ids;
    bridges = λ n w at imp. refcount_links-patch_links lab.links n ∙ wf.bridges n w at imp;
    targets = λ n pos gone. refcount_links-patch_links lab.links n ∙ wf.targets n pos gone;
    no_zero = wf.no_zero;
  }

module _ (env : Environment) (path id : Text) (fs : List PatchField) (w : World)
    (all : AllWellFormed w.labs) where
  found-AllWellFormed :
      (lab : Lab) (o : Option Link)
      → IsWellFormed lab
      → AllWellFormed (patch_found env w path id fs lab o).1.labs
  unfolding save
  found-AllWellFormed lab none wf = all
  found-AllWellFormed lab (some l) wf =
      write_lab-AllWellFormed path _ w.labs (patched-IsWellFormed id fs lab wf) all

  read-AllWellFormed :
      (o : Option Lab)
      → read_lab path w.labs ≡ o
      → AllWellFormed (patch_read env w path id fs o).1.labs
  read-AllWellFormed none h = all
  read-AllWellFormed (some lab) h =
      found-AllWellFormed lab (find_link id lab.links) (all path lab h)

path-AllWellFormed :
    (env : Environment) (w : World) (id : Text) (fs : List PatchField) (o : Option Text)
    → AllWellFormed w.labs
    → AllWellFormed (patch_path env w id fs o).1.labs
path-AllWellFormed env w id fs none all = all
path-AllWellFormed env w id fs (some path) all =
    read-AllWellFormed env path id fs w all (read_lab path w.labs) refl

-- Where every lab file is well formed, it is so after a `patch_link` too, whatever fields the
-- patch has and whether or not the link is there.
pub patch_link-AllWellFormed :
    (env : Environment) (w : World) (lab_path id : Text) (fs : List PatchField)
    → AllWellFormed w.labs
    → AllWellFormed (patch_link env w lab_path id fs).1.labs
unfolding patch_link
patch_link-AllWellFormed env w lab_path id fs all =
    path-AllWellFormed env w id fs (normalize_relative_lab_path lab_path) all
