-- ===== src/Templates.antt =====
-- The names of interfaces in backend/app/services/template_service.py: the check of the block
-- `interface_naming`, the rendering of a name, and the names that a paired child will have.
pub mod Blank
pub mod Explicit
pub mod Predicted
mod Tests
use nova_ve.Prelude.{
  ℕ, zero, suc, ◌+◌, ◌-◌, ◌&&◌, ◌||◌, Bool, true, false, not, Option, none, some, List, [], ◌∷◌,
  ◌++◌, map, Text, codes, ltb, ◌==◌, if◌then◌else◌, length, get_elem?, keep_if, any_of, text_eq,
  to_lower, strip, split_on, join_with, strip_prefix,
}
use nova_ve.Prelude.Decimal.{str}

abbrev pub is_empty : Text → Bool
is_empty [] = true
is_empty (c ∷ s) = false

abbrev is_some {ℓ} : {A : Type ℓ} → Option A → Bool
is_some none = false
is_some (some a) = true

-- `token in s`
unfoldable pub contains : Text → Text → Bool
contains token [] = is_empty token
contains token (c ∷ s) = is_some (strip_prefix token (c ∷ s)) || contains token s

-- `s.replace(token, by)` for a token that is not empty; the number counts the characters of an
-- occurrence that are still to be passed over.
unfoldable pub replace_from : Text → Text → ℕ → Text → Text
replace_from token by n [] = []
replace_from token by (suc n) (c ∷ s) = replace_from token by n s
replace_from token by zero (c ∷ s) =
    if is_some (strip_prefix token (c ∷ s))
    then by ++ replace_from token by (length token - 1) s
    else c ∷ replace_from token by zero s

abbrev replace : Text → Text → Text → Text
replace token by s = replace_from token by zero s

-- `_INTERFACE_NAMING_FORMAT_PLACEHOLDERS`
abbrev placeholders : List Text
placeholders = codes "{n}" ∷ codes "{slot}" ∷ codes "{port}" ∷ []

abbrev pub has_placeholder : Text → Bool
has_placeholder s = any_of (λ t. contains t s) placeholders

abbrev pub last : List Text → Text
last [] = []
last (p ∷ []) = p
last (p ∷ q ∷ ps) = last (q ∷ ps)

abbrev or_empty : Option Text → Text
or_empty none = []
or_empty (some s) = s

abbrev render_last : Text → ℕ → Text
render_last s rel =
    replace (codes "{port}") (str (rel + 1))
      (replace (codes "{slot}") (str rel) (replace (codes "{n}") (str rel) s))

abbrev render_item : List Text → ℕ → Text
render_item [] index = []
render_item (p ∷ ps) index =
    if ltb index (length ps)
    then or_empty (get_elem? (p ∷ ps) index)
    else render_last (last (p ∷ ps)) (index - length ps)

unfoldable pub render_interface_name : Text → ℕ → Text
render_interface_name fmt index =
    render_item (keep_if (λ s. not (is_empty s)) (map strip (split_on b',' fmt))) index

-- A value in a list of JSON: a text, or another with what `str` makes of it
pub data Item : Type 0 where
  text other : Text → Item

abbrev pub item_text : Item → Text
item_text (text s) = s
item_text (other s) = s

pub data FormatValue : Type 0 where
  format_text : Text → FormatValue
  format_list : List Item → FormatValue
  format_other : FormatValue

pub data ExplicitValue : Type 0 where
  explicit_list : List Item → ExplicitValue
  explicit_other : ExplicitValue

-- A block with its two keys, either of which may be missing
pub record Naming : Type 0 where
  format : Option FormatValue
  explicit : Option ExplicitValue

pub data Payload : Type 0 where
  no_dict : Payload
  dict : Naming → Payload

-- The messages of `TemplateError`
pub data NamingError : Type 0 where
  not_an_object both_keys no_key format_empty_list format_empty_entry format_no_placeholder_at_end
        format_no_text format_no_placeholder explicit_no_list explicit_empty_entry :
      NamingError
  format_early_placeholder : ℕ → NamingError

pub data Checked : Type 0 where
  invalid : NamingError → Checked
  valid : Naming → Checked

abbrev pub format_is : Text → Naming
format_is s = record { format = some (format_text s); explicit = none }

abbrev pub is_blank : Item → Bool
is_blank (text s) = is_empty (strip s)
is_blank (other s) = true

abbrev pub is_nil : List Item → Bool
is_nil [] = true
is_nil (x ∷ xs) = false

-- The loop over the entries of a list, which stops at the first error
abbrev pub check_entries : ℕ → List Item → Option NamingError
check_entries i [] = none
check_entries i (x ∷ xs) =
    let rest = check_entries (suc i) xs in
    if is_blank x
    then some format_empty_entry
    else if not (is_nil xs) && has_placeholder (item_text x)
    then some (format_early_placeholder i)
    else rest

abbrev pub stripped : List Item → List Text
stripped xs = map (λ x. strip (item_text x)) xs

abbrev pub check_last : List Item → Option NamingError → Checked
check_last xs (some e) = invalid e
check_last xs none =
    if has_placeholder (last (map item_text xs))
    then valid (format_is (join_with b',' (stripped xs)))
    else invalid format_no_placeholder_at_end

abbrev pub check_format : FormatValue → Checked
check_format (format_list []) = invalid format_empty_list
check_format (format_list (x ∷ xs)) = check_last (x ∷ xs) (check_entries 0 (x ∷ xs))
check_format (format_text s) =
    if is_empty (strip s)
    then invalid format_no_text
    else if has_placeholder s
    then valid (format_is s)
    else invalid format_no_placeholder
check_format format_other = invalid format_no_text

abbrev pub check_explicit : ExplicitValue → Checked
check_explicit explicit_other = invalid explicit_no_list
check_explicit (explicit_list []) = invalid explicit_no_list
check_explicit (explicit_list (x ∷ xs)) =
    if any_of is_blank (x ∷ xs)
    then invalid explicit_empty_entry
    else valid (record { format = none; explicit = some (explicit_list (x ∷ xs)) })

abbrev pub check_keys : Option FormatValue → Option ExplicitValue → Checked
check_keys (some f) (some e) = invalid both_keys
check_keys none none = invalid no_key
check_keys (some f) none = check_format f
check_keys none (some e) = check_explicit e

-- `_validate_interface_naming`
unfoldable pub validate_interface_naming : Payload → Checked
validate_interface_naming no_dict = invalid not_an_object
validate_interface_naming (dict p) = check_keys p.format p.explicit

-- The numbers of `range(n)` from the given one on
abbrev pub range_from : ℕ → ℕ → List ℕ
range_from i zero = []
range_from i (suc n) = i ∷ range_from (suc i) n

abbrev kinds : List Text
kinds = codes "qemu" ∷ codes "docker" ∷ codes "iol" ∷ codes "dynamips" ∷ []

abbrev kind_or_qemu : Text → Text
kind_or_qemu kind = if any_of (text_eq kind) kinds then kind else codes "qemu"

-- The kind as a text, empty where it is false
unfoldable pub normalize_paired_child_kind : Text → Text
normalize_paired_child_kind raw =
    kind_or_qemu (to_lower (strip (if is_empty raw then codes "qemu" else raw)))

unfoldable pub kind_default_iface_names : Text → ℕ → List Text
kind_default_iface_names kind ethernet =
    if text_eq kind (codes "qemu")
    then map (λ i. codes "Gi" ++ str (i + 1)) (range_from 0 ethernet)
    else map (λ i. codes "eth" ++ str i) (range_from 0 ethernet)

abbrev pub rendered : Text → ℕ → List Text
rendered fmt ethernet = map (render_interface_name fmt) (range_from 0 ethernet)

-- `",".join(str(item).strip() for item in fmt if str(item).strip())`
abbrev pub normalized : List Item → Text
normalized xs = join_with b',' (keep_if (λ s. not (is_empty s)) (stripped xs))

unfoldable pub base_names : Text → ℕ → Option FormatValue → List Text
base_names kind ethernet (some (format_text s)) =
    if not (is_empty (strip s)) then rendered s ethernet else kind_default_iface_names kind ethernet
base_names kind ethernet (some (format_list xs)) =
    if not (is_empty (normalized xs))
    then rendered (normalized xs) ethernet
    else kind_default_iface_names kind ethernet
base_names kind ethernet (some format_other) = kind_default_iface_names kind ethernet
base_names kind ethernet none = kind_default_iface_names kind ethernet

abbrev pub put_name : Item → Text → Text
put_name (text s) old = s
put_name (other s) old = old

-- The explicit names over the front of the base, as far as it goes
abbrev pub overlay_items : List Item → List Text → List Text
overlay_items [] base = base
overlay_items (x ∷ xs) [] = []
overlay_items (x ∷ xs) (b ∷ base) = put_name x b ∷ overlay_items xs base

abbrev pub overlay : Option ExplicitValue → List Text → List Text
overlay (some (explicit_list xs)) base = overlay_items xs base
overlay (some explicit_other) base = base
overlay none base = base

abbrev names_of_kind : Text → ℕ → Payload → List Text
names_of_kind kind ethernet no_dict = kind_default_iface_names kind ethernet
names_of_kind kind ethernet (dict p) = overlay p.explicit (base_names kind ethernet p.format)

-- `_paired_child_iface_names`, of the kind, `int(child["ethernet"])` and the block of the child
unfoldable pub paired_child_iface_names : Text → ℕ → Payload → List Text
paired_child_iface_names kind ethernet p =
    names_of_kind (normalize_paired_child_kind kind) ethernet p
