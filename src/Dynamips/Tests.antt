-- ===== src/Dynamips/Tests.antt =====
-- A c7200 with its default card in slot 0 and a card of two ports in slot 2.
use nova_ve.Prelude.{
  ℕ, get_elem?, ◌≡◌, refl, some, none, [], ◌∷◌, Text, codes, text_eq, ◌==◌, if◌then◌else◌, strip,
  lstrip, rstrip,
}
use nova_ve.Prelude.Dict.{get}
use nova_ve.Dynamips.{
  c7200, Inventory, build_slot_inventory, inventory_from, resolve_slot_port, resolve_from,
}
use nova_ve.Dynamips.Ports.{resolve_slot_port-ports}

abbrev slots : ℕ → Text
slots i = if i == 2 then codes "PA-2FE-TX" else []

abbrev inventory : Inventory
inventory = (0, codes "C7200-IO-FE") ∷ (2, codes "PA-2FE-TX") ∷ []

built : build_slot_inventory c7200 slots ≡ some inventory
unfolding build_slot_inventory inventory_from get text_eq strip lstrip rstrip
built = refl

second_port : resolve_slot_port inventory 2 ≡ some (2, 1)
unfolding resolve_slot_port resolve_from get text_eq
second_port = refl

beyond : resolve_slot_port inventory 3 ≡ none
unfolding resolve_slot_port resolve_from get text_eq
beyond = refl

resolve_slot_port-ports_example :
    resolve_slot_port inventory 2 ≡ get_elem? ((0, 0) ∷ (2, 0) ∷ (2, 1) ∷ []) 2
unfolding get text_eq
resolve_slot_port-ports_example = resolve_slot_port-ports inventory 2
