-- ===== src/LabPath.antt =====
-- `_normalize_relative_lab_path` of backend/app/services/lab_service.py.
use nova_ve.Prelude.{
  ℕ, Bool, not, ◌||◌, Option, none, some, List, [], ◌∷◌, Text, codes, text_eq, strip, split_on,
  join_with, ◌==◌, if◌then◌else◌, keep_if, any_of,
}

-- `s.replace("\\", "/")`
unfoldable pub forward_slashes : Text → Text
forward_slashes [] = []
forward_slashes (c ∷ s) = (if c == 92 then 47 else c) ∷ forward_slashes s

-- `s.strip("/")`
unfoldable pub lstrip_slash : Text → Text
lstrip_slash [] = []
lstrip_slash (c ∷ s) = let rest = lstrip_slash s in if c == 47 then rest else c ∷ s

abbrev append_part : ℕ → Text → Text
append_part c [] = if c == 47 then [] else c ∷ []
append_part c (d ∷ s) = c ∷ d ∷ s

unfoldable pub rstrip_slash : Text → Text
rstrip_slash [] = []
rstrip_slash (c ∷ s) = append_part c (rstrip_slash s)

-- `part not in {"", "."}`
unfoldable pub is_part : Text → Bool
is_part part = not (text_eq part [] || text_eq part (codes "."))

-- `none` is the `ValueError` on an empty path and on `..`.
unfoldable pub join_parts : List Text → Option Text
join_parts [] = none
join_parts (p ∷ ps) =
    if any_of (λ part. text_eq part (codes "..")) (p ∷ ps)
    then none
    else some (join_with 47 (p ∷ ps))

unfoldable pub normalize_relative_lab_path : Text → Option Text
normalize_relative_lab_path raw_path =
    join_parts (
      keep_if is_part
        (split_on 47 (rstrip_slash (lstrip_slash (forward_slashes (strip raw_path))))))
