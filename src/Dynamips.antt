-- ===== src/Dynamips.antt =====
-- backend/app/services/runtime/dynamips.py: the port adapters in the slots of a router, and the slot
-- and port of an interface.
pub mod Ports
mod Tests
use nova_ve.Prelude.Dict
use nova_ve.Prelude.{
  ℕ, zero, suc, ◌+◌, ◌-◌, Bool, true, false, Option, none, some, List, [], ◌∷◌, Text, codes,
  text_eq, strip, to_lower, ltb, ◌==◌, if◌then◌else◌,
}

-- `_PA_PORT_COUNT`
abbrev pub pa_port_count : List (Text × ℕ)
pa_port_count =
    (codes "GT96100-FE", 2)
    ∷ (codes "NM-1FE-TX", 1)
    ∷ (codes "NM-4T", 4)
    ∷ (codes "NM-16ESW", 16)
    ∷ (codes "NM-1E", 1)
    ∷ (codes "NM-4E", 4)
    ∷ (codes "C7200-IO-FE", 1)
    ∷ (codes "C7200-IO-2FE", 2)
    ∷ (codes "C7200-IO-GE-E", 1)
    ∷ (codes "PA-FE-TX", 1)
    ∷ (codes "PA-2FE-TX", 2)
    ∷ (codes "PA-GE", 1)
    ∷ (codes "PA-4E", 4)
    ∷ (codes "PA-8E", 8)
    ∷ (codes "PA-4T+", 4)
    ∷ (codes "PA-8T", 8)
    ∷ (codes "PA-A1", 1)
    ∷ (codes "PA-POS-OC3", 1)
    ∷ []

-- The platforms of `_PLATFORM_MODULE`
pub data Platform : Type 0 where
  c3725 c7200 : Platform

-- `_PLATFORM_MAX_SLOTS` and `_PLATFORM_SLOT0_DEFAULT_PA`
abbrev pub max_slots : Platform → ℕ
max_slots c3725 = 3
max_slots c7200 = 7

abbrev pub slot0_default : Platform → Text
slot0_default c3725 = codes "GT96100-FE"
slot0_default c7200 = codes "C7200-IO-FE"

abbrev or_c7200 : Text → Text
or_c7200 t = if text_eq t [] then codes "c7200" else t

-- `_resolve_platform`, from the text of `platform`, empty where it is missing
unfoldable pub resolve_platform : Text → Option Platform
resolve_platform raw =
    let name = to_lower (or_c7200 raw) in
    if text_eq name (codes "c3725")
    then some c3725
    else if text_eq name (codes "c7200")
    then some c7200
    else none

abbrev pub Inventory : Type 0
Inventory = List (ℕ × Text)

-- The adapter of a slot: the text of `slot{idx}`, empty where it is missing, or the default of slot 0.
abbrev pub adapter_at : Platform → (ℕ → Text) → ℕ → Text
adapter_at platform slots zero =
    if text_eq (slots 0) [] then slot0_default platform else strip (slots 0)
adapter_at platform slots (suc idx) = strip (slots (suc idx))

abbrev pub add_slot : ℕ → Text → Option Inventory → Option Inventory
add_slot idx pa none = none
add_slot idx pa (some inventory) = some ((idx, pa) ∷ inventory)

-- One round of the loop of `_build_slot_inventory`, with the rest of it; `none` is the `DynamipsError`.
abbrev pub inventory_step : Bool → Option ℕ → ℕ → Text → Option Inventory → Option Inventory
inventory_step true count idx pa rest = rest
inventory_step false none idx pa rest = none
inventory_step false (some count) idx pa rest = add_slot idx pa rest

-- The loop, with the number of slots left
unfoldable pub inventory_from : Platform → (ℕ → Text) → ℕ → ℕ → Option Inventory
inventory_from platform slots idx zero = some []
inventory_from platform slots idx (suc left) =
    let pa = adapter_at platform slots idx in
    inventory_step (text_eq pa []) (Dict.get text_eq pa pa_port_count) idx pa
      (inventory_from platform slots (idx + 1) left)

unfoldable pub build_slot_inventory : Platform → (ℕ → Text) → Option Inventory
build_slot_inventory platform slots = inventory_from platform slots 0 (max_slots platform)

abbrev pub count_of : Text → Option ℕ
count_of pa = Dict.get text_eq pa pa_port_count

-- One round of the loop of `_resolve_slot_port`, with the rest of it from the ports passed
abbrev pub resolve_step : Option ℕ → ℕ → ℕ → ℕ → (ℕ → Option (ℕ × ℕ)) → Option (ℕ × ℕ)
resolve_step none slot total index rest = none
resolve_step (some count) slot total index rest =
    if ltb index (total + count) then some (slot, index - total) else rest (total + count)

unfoldable pub resolve_from : ℕ → Inventory → ℕ → Option (ℕ × ℕ)
resolve_from total [] index = none
resolve_from total ((slot, pa) ∷ inventory) index =
    resolve_step (count_of pa) slot total index (λ t. resolve_from t inventory index)

-- `_resolve_slot_port`, with `none` for the `DynamipsError`
unfoldable pub resolve_slot_port : Inventory → ℕ → Option (ℕ × ℕ)
resolve_slot_port inventory index = resolve_from 0 inventory index
