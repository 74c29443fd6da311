-- ===== src/Iol/Tests.antt =====
-- A console stream that a client cuts in the middle of a command, and the ids of an idle host.
use nova_ve.Prelude.{ℕ, ◌≤◌, ◌≡◌, ◌⊎◌, refl, true, false, none, some, List, [], ◌∷◌, All}
use nova_ve.Iol.{data_state, application_id}
use nova_ve.Iol.Grammar.{
  Item, plain, escaped, option_command, command, negotiation, IsItem, feed_pieces,
  feed_pieces-encode,
}
use nova_ve.Iol.FreeId.{is_active, application_id-total}

abbrev items : List Item
items =
    plain 65
    ∷ option_command 253 1
    ∷ escaped
    ∷ negotiation (24 ∷ 255 ∷ [])
    ∷ command 241
    ∷ plain 66
    ∷ []

abbrev pieces : List (List ℕ)
pieces =
    (65 ∷ 255 ∷ [])
    ∷ (253 ∷ 1 ∷ 255 ∷ [])
    ∷ (255 ∷ 255 ∷ 250 ∷ 24 ∷ 255 ∷ [])
    ∷ (255 ∷ 255 ∷ 240 ∷ 255 ∷ [])
    ∷ (241 ∷ 66 ∷ [])
    ∷ []

items_are_items : All IsItem items
items_are_items = (refl, (refl, (tt, (tt, ((refl, refl, refl), (refl, tt))))))

feed_pieces-encode_example : feed_pieces data_state pieces ≡ (data_state, 65 ∷ 255 ∷ 66 ∷ [])
feed_pieces-encode_example = feed_pieces-encode items pieces items_are_items refl

application_id-total_example :
    ((i : ℕ) × (application_id 700 (189 ∷ []) ≡ some i)
      × (1 ≤ i)
      × (i ≤ 512)
      × (is_active (189 ∷ []) i ≡ false))
    ⊎ ((application_id 700 (189 ∷ []) ≡ none)
        × ((i : ℕ) → 1 ≤ i → i ≤ 512 → is_active (189 ∷ []) i ≡ true))
application_id-total_example = application_id-total 700 (189 ∷ [])
