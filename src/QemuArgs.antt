-- ===== src/QemuArgs.antt =====
-- The command line of QEMU in backend/app/services/node_runtime_service.py: its tokens grouped by
-- flag, and the options of the user merged into it. How shlex splits a text is an argument.
pub mod Grouped
pub mod Merged
mod Tests
use nova_ve.Prelude.{
  ◌&&◌, Bool, true, false, not, Option, none, some, List, [], ◌∷◌, ◌++◌, map, Text, ◌==◌,
  if◌then◌else◌, keep_if, any_of, text_eq,
}

abbrev pub Group : Type 0
Group = Text × List Text

-- `tok.startswith("-")`
abbrev pub is_flag : Text → Bool
is_flag [] = false
is_flag (c ∷ s) = c == b'-'

-- The variables of the loop of `_parse_qemu_tokens`
pub record Scan : Type 0 where
  groups : List Group
  current_flag : Option Text
  current_vals : List Text

-- `groups` with what is still open, as at a flag and after the loop
abbrev pub close : Option Text → List Text → List Group → List Group
close none vals groups = groups
close (some f) vals groups = groups ++ ((f, vals) ∷ [])

abbrev pub closed : Scan → List Group
closed s = close s.current_flag s.current_vals s.groups

abbrev pub add_value : Text → Option Text → List Text → List Group → Scan
add_value t none vals groups = record {
  groups = groups ++ ((t, []) ∷ []);
  current_flag = none;
  current_vals = vals;
}
add_value t (some f) vals groups = record {
  groups = groups;
  current_flag = some f;
  current_vals = vals ++ (t ∷ []);
}

abbrev pub scan_token : Text → Scan → Scan
scan_token t s =
    if is_flag t
    then record { groups = closed s; current_flag = some t; current_vals = [] }
    else add_value t s.current_flag s.current_vals s.groups

unfoldable pub scan_tokens : List Text → Scan → Scan
scan_tokens [] s = s
scan_tokens (t ∷ ts) s = scan_tokens ts (scan_token t s)

abbrev pub start : Scan
start = record { groups = []; current_flag = none; current_vals = [] }

unfoldable pub parse_qemu_tokens : List Text → List Group
parse_qemu_tokens tokens = closed (scan_tokens tokens start)

abbrev pub override_flags : List Group → List Text
override_flags gs = keep_if is_flag (map (λ g. g.0) gs)

abbrev pub is_in : Text → List Text → Bool
is_in f fs = any_of (text_eq f) fs

-- The tokens of the groups, each flag before its values
abbrev pub flatten : List Group → List Text
flatten [] = []
flatten (g ∷ gs) = g.0 ∷ (g.1 ++ flatten gs)

unfoldable pub merge_groups : List Group → List Group → List Group
merge_groups base extra = keep_if (λ g. not (is_in g.0 (override_flags extra))) base ++ extra

abbrev pub merge_tokens : List Text → Option (List Text) → Option (List Text)
merge_tokens base none = none
merge_tokens base (some extra) =
    some (flatten (merge_groups (parse_qemu_tokens base) (parse_qemu_tokens extra)))

-- `_merge_qemu_args`; `none` where `shlex.split` raises
unfoldable pub merge_qemu_args : (Text → Option (List Text)) → List Text → Text → Option (List Text)
merge_qemu_args split base [] = some base
merge_qemu_args split base (c ∷ s) = merge_tokens base (split (c ∷ s))
