-- ===== src/Links/Service/PatchLink.antt =====
-- `patch_link`, `list_links` and `refcount_for` of `LinkService` in
-- backend/app/services/link_service.py.
use nova_ve.Prelude.{ℕ, Option, none, some, List, [], ◌∷◌, map, Text, codes, text_eq, if◌then◌else◌}
use nova_ve.Lab.{Link, Metrics, Lab}
use nova_ve.LabPath.{normalize_relative_lab_path}
use nova_ve.Ipam.Store.{read_lab}
use nova_ve.Links.Ids.{refcount}
use nova_ve.Links.Records.{LinkPayload, link_with_state, link_event}
use nova_ve.Links.Create.{invalid_path, lab_missing, Result, ok, err}
use nova_ve.Links.Delete.{find_link}
use nova_ve.Links.Service.{World, Environment, save, publish_all}

-- An item of the patch; a field that is not in `allowed` is ignored.
pub data PatchField : Type 0 where
  style_override : Option Text → PatchField
  endpoint_positions : Text → PatchField
  label : Text → PatchField
  color : Text → PatchField
  width : Text → PatchField
  metrics : Metrics → PatchField
  not_allowed : Text → PatchField

unfoldable pub set_field : PatchField → Link → Link
set_field (style_override v) l = record l { style_override = v }
set_field (endpoint_positions v) l = record l { endpoint_positions = v }
set_field (label v) l = record l { label = v }
set_field (color v) l = record l { color = v }
set_field (width v) l = record l { width = v }
set_field (metrics v) l = record l { metrics = v }
set_field (not_allowed f) l = l

unfoldable pub set_fields : List PatchField → Link → Link
set_fields [] l = l
set_fields (f ∷ fs) l = set_fields fs (set_field f l)

-- The first link with the id is changed in place.
unfoldable pub patch_links : Text → List PatchField → List Link → List Link
patch_links id fields [] = []
patch_links id fields (l ∷ ls) =
    let rest = patch_links id fields ls in
    if text_eq l.id id then set_fields fields l ∷ ls else l ∷ rest

abbrev pub patch_found :
    Environment
    → World
    → Text
    → Text
    → List PatchField
    → Lab
    → Option Link
    → Result (Option LinkPayload) × World
patch_found env w path id fields lab none = (ok none, w)
patch_found env w path id fields lab (some l) =
    let payload = link_with_state (set_fields fields l) in
    let w' = save path (record lab { links = patch_links id fields lab.links }) w in
    (
      ok (some payload),
      record w' {
        hub = publish_all env path (link_event (codes "link_updated") payload ∷ []) w'.hub;
      },
    )

abbrev pub patch_read :
    Environment
    → World
    → Text
    → Text
    → List PatchField
    → Option Lab
    → Result (Option LinkPayload) × World
patch_read env w path id fields none = (err lab_missing, w)
patch_read env w path id fields (some lab) =
    patch_found env w path id fields lab (find_link id lab.links)

abbrev pub patch_path :
    Environment → World → Text → List PatchField → Option Text → Result (Option LinkPayload) × World
patch_path env w id fields none = (err invalid_path, w)
patch_path env w id fields (some path) = patch_read env w path id fields (read_lab path w.labs)

-- `patch_link`
unfoldable pub patch_link :
    Environment → World → Text → Text → List PatchField → Result (Option LinkPayload) × World
patch_link env w lab_path id fields =
    patch_path env w id fields (normalize_relative_lab_path lab_path)

-- `list_links` and `refcount_for`
unfoldable pub list_links : World → Text → Result (List LinkPayload)
list_links w lab_path = elim (normalize_relative_lab_path lab_path) [
  | none ↦ err invalid_path
  | some path ↦ elim (read_lab path w.labs) [
    | none ↦ err lab_missing
    | some lab ↦ ok (map link_with_state lab.links)
  ]
]

unfoldable pub refcount_for : World → Text → ℕ → Result ℕ
refcount_for w lab_path n = elim (normalize_relative_lab_path lab_path) [
  | none ↦ err invalid_path
  | some path ↦ elim (read_lab path w.labs) [
    | none ↦ err lab_missing
    | some lab ↦ ok (refcount lab n)
  ]
]
