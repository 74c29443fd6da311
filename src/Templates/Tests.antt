-- ===== src/Templates/Tests.antt =====
-- Blocks of paired children: a list of formats, a list of names, and a format with a fixed last entry.
use nova_ve.Prelude.{
  ◌≡◌, refl, get_elem?, none, some, [], ◌∷◌, codes, arith, text_eq, to_lower, strip, lstrip, rstrip,
  split_on, join_with, strip_prefix,
}
use nova_ve.Prelude.Decimal.{str, digits}
use nova_ve.Templates.{
  text, format_list, format_text, explicit_list, Payload, dict, valid, invalid, format_is,
  validate_interface_naming, paired_child_iface_names, render_interface_name, contains,
  replace_from, normalize_paired_child_kind, base_names, format_early_placeholder,
}
use nova_ve.Templates.Predicted.{paired_child_iface_names-validated}
use nova_ve.Templates.Explicit.{get_elem?-paired_child_iface_names}

abbrev listed : Payload
listed = dict (record {
  format = some (format_list (text (codes " fxp0") ∷ text (codes "ge-{n}") ∷ []));
  explicit = none;
})

paired_child_iface_names-validated_example :
    paired_child_iface_names (codes "qemu") 3 listed
    ≡ paired_child_iface_names (codes "qemu") 3 (dict (format_is (codes "fxp0,ge-{n}")))
unfolding validate_interface_naming contains strip_prefix strip lstrip rstrip join_with
paired_child_iface_names-validated_example =
    paired_child_iface_names-validated (codes "qemu") 3 listed (format_is (codes "fxp0,ge-{n}"))
      refl

listed_names :
    paired_child_iface_names (codes "qemu") 3 listed
    ≡ codes "fxp0" ∷ codes "ge-0" ∷ codes "ge-1" ∷ []
unfolding validate_interface_naming contains strip_prefix strip lstrip rstrip join_with split_on str
    digits paired_child_iface_names render_interface_name replace_from normalize_paired_child_kind
    base_names text_eq to_lower
listed_names = refl

get_elem?-paired_child_iface_names_example :
    get_elem?
      (paired_child_iface_names (codes " Weird") 2 (
        dict
          (record { format = none; explicit = some (explicit_list (text (codes "mgmt0") ∷ [])) })))
      1
    ≡ some (codes "Gi2")
unfolding text_eq to_lower strip lstrip rstrip str digits normalize_paired_child_kind
get_elem?-paired_child_iface_names_example =
    get_elem?-paired_child_iface_names (codes " Weird") 2 (text (codes "mgmt0") ∷ []) 1
      (omega arith)

-- Only the last entry of a list may have a placeholder.
early_placeholder :
    validate_interface_naming (
      dict (record {
        format = some (format_list (text (codes "eth{n}") ∷ text (codes "mgmt") ∷ []));
        explicit = none;
      }))
    ≡ invalid (format_early_placeholder 0)
unfolding validate_interface_naming contains strip_prefix strip lstrip rstrip join_with
early_placeholder = refl

-- The same entries in one text are accepted, and all interfaces but the first have one name.
fixed_last_entry :
    validate_interface_naming
      (dict (record { format = some (format_text (codes "eth{n},mgmt")); explicit = none }))
    ≡ valid (format_is (codes "eth{n},mgmt"))
unfolding validate_interface_naming contains strip_prefix strip lstrip rstrip join_with
fixed_last_entry = refl

fixed_last_entry-names :
    paired_child_iface_names (codes "qemu") 3 (dict (format_is (codes "eth{n},mgmt")))
    ≡ codes "eth{n}" ∷ codes "mgmt" ∷ codes "mgmt" ∷ []
unfolding contains strip_prefix strip lstrip rstrip join_with split_on str digits
    paired_child_iface_names render_interface_name replace_from normalize_paired_child_kind
    base_names text_eq to_lower
fixed_last_entry-names = refl
