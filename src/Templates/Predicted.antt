-- ===== src/Templates/Predicted.antt =====
-- That the names predicted for a paired child are those of its checked block.
use nova_ve.Prelude.{
  ℕ, Option-cases, ◌≡◌, refl, ap, ◌∙◌, inl, inr, Option, none, some, List, [], ◌∷◌, map, Text,
  Bool-cases, strip, join_with, any_of,
}
use nova_ve.Templates.{
  is_empty, is_blank, explicit_empty_entry, check_keys, normalize_paired_child_kind, last, overlay,
  normalized, check_last, format_no_text, format_no_placeholder, format_no_placeholder_at_end,
  has_placeholder, Item, item_text, FormatValue, format_text, format_list, format_other, Naming,
  Payload, no_dict, dict, valid, invalid, check_entries, stripped, check_format,
  validate_interface_naming, base_names, paired_child_iface_names, format_is, ExplicitValue,
  explicit_list, explicit_other, check_explicit,
}
use nova_ve.Templates.Blank.{stripped-kept, joined-not_blank, not_empty}

module _ (kind : Text) (ethernet : ℕ) where
  abbrev names_of : Naming → List Text
  names_of v = overlay v.explicit (base_names kind ethernet v.format)

  format_text-names :
      (s : Text) (v : Naming)
      → check_format (format_text s) ≡ valid v
      → base_names kind ethernet (some (format_text s)) ≡ names_of v
  format_text-names s v h = elim (Bool-cases (is_empty (strip s))) [
    | inl e ↦
        let k : check_format (format_text s) ≡ invalid format_no_text = rw e refl in absurd (cc)
    | inr e ↦ elim (Bool-cases (has_placeholder s)) [
      | inl q ↦
          let k : check_format (format_text s) ≡ valid (format_is s) = rw e (rw q refl) in
          let p : format_is s ≡ v = cc in ap names_of p
      | inr q ↦
          let k : check_format (format_text s) ≡ invalid format_no_placeholder = rw e (rw q refl) in
          absurd (cc)
    ]
  ]

  joined-names :
      (x : Item) (xs : List Item)
      → check_entries 0 (x ∷ xs) ≡ none
      → base_names kind ethernet (some (format_list (x ∷ xs)))
        ≡ names_of (format_is (join_with b',' (stripped (x ∷ xs))))
  unfolding base_names
  joined-names x xs h =
      let kept : normalized (x ∷ xs) ≡ join_with b',' (stripped (x ∷ xs)) =
        ap (join_with b',') (stripped-kept 0 (x ∷ xs) h) in
      let blank = joined-not_blank x xs h in
      rw (kept, blank, not_empty (join_with b',' (stripped (x ∷ xs))) blank) refl

  format_list-names :
      (x : Item) (xs : List Item) (v : Naming)
      → check_format (format_list (x ∷ xs)) ≡ valid v
      → base_names kind ethernet (some (format_list (x ∷ xs))) ≡ names_of v
  format_list-names x xs v h = elim (Option-cases (check_entries 0 (x ∷ xs))) [
    | inr e ↦
        let k : check_format (format_list (x ∷ xs)) ≡ invalid e.0 = ap (check_last (x ∷ xs)) e.1 in
        absurd (cc)
    | inl e ↦ elim (Bool-cases (has_placeholder (last (map item_text (x ∷ xs))))) [
      | inl q ↦
          let k : check_format (format_list (x ∷ xs))
              ≡ valid (format_is (join_with b',' (stripped (x ∷ xs)))) =
            ap (check_last (x ∷ xs)) e ∙ (rw q refl) in
          let p : format_is (join_with b',' (stripped (x ∷ xs))) ≡ v = cc in
          joined-names x xs e ∙ ap names_of p
      | inr q ↦
          let k : check_format (format_list (x ∷ xs)) ≡ invalid format_no_placeholder_at_end =
            ap (check_last (x ∷ xs)) e ∙ (rw q refl) in
          absurd (cc)
    ]
  ]

  format-names :
      (f : FormatValue) (v : Naming)
      → check_format f ≡ valid v
      → base_names kind ethernet (some f) ≡ names_of v
  format-names (format_text s) v h = format_text-names s v h
  format-names (format_list []) v h = absurd (cc)
  format-names (format_list (x ∷ xs)) v h = format_list-names x xs v h
  format-names format_other v h = absurd (cc)

  explicit-names :
      (e : ExplicitValue) (v : Naming)
      → check_explicit e ≡ valid v
      → overlay (some e) (base_names kind ethernet none) ≡ names_of v
  explicit-names explicit_other v h = absurd (cc)
  explicit-names (explicit_list []) v h = absurd (cc)
  explicit-names (explicit_list (x ∷ xs)) v h = elim (Bool-cases (any_of is_blank (x ∷ xs))) [
    | inl e ↦
        let k : check_explicit (explicit_list (x ∷ xs)) ≡ invalid explicit_empty_entry =
          rw e refl in
        absurd (cc)
    | inr e ↦
        let k : check_explicit (explicit_list (x ∷ xs))
            ≡ valid (record { format = none; explicit = some (explicit_list (x ∷ xs)) }) =
          rw e refl in
        let p : record { format = none; explicit = some (explicit_list (x ∷ xs)) } ≡ v = cc in
        ap names_of p
  ]

  checked-names :
      (f : Option FormatValue) (e : Option ExplicitValue) (v : Naming)
      → check_keys f e ≡ valid v
      → overlay e (base_names kind ethernet f) ≡ names_of v
  checked-names (some f) (some e) v h = absurd (cc)
  checked-names none none v h = absurd (cc)
  checked-names (some f) none v h = format-names f v h
  checked-names none (some e) v h = explicit-names e v h

-- Where the check accepts a block, the names predicted from the block as it is written are those
-- predicted from the block that the check returns.
pub paired_child_iface_names-validated :
    (kind : Text) (ethernet : ℕ) (p : Payload) (v : Naming)
    → validate_interface_naming p ≡ valid v
    → paired_child_iface_names kind ethernet p ≡ paired_child_iface_names kind ethernet (dict v)
unfolding validate_interface_naming paired_child_iface_names
paired_child_iface_names-validated kind ethernet no_dict v h = absurd (cc)
paired_child_iface_names-validated kind ethernet (dict p) v h =
    checked-names (normalize_paired_child_kind kind) ethernet p.format p.explicit v h
