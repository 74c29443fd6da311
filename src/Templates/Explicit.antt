-- ===== src/Templates/Explicit.antt =====
-- The names of a paired child whose block names interfaces one by one.
use nova_ve.Prelude.{
  ℕ, ◌<◌, ◌+◌, codes, text_eq, suc, zero, get_elem?, ◌≡◌, refl, ap, ◌∙◌, inl, inr, Option, none,
  some, List, [], ◌∷◌, ◌++◌, map, Text, Bool-cases, if◌then◌else◌, arith,
}
use nova_ve.Templates.{
  kind_default_iface_names, range_from, put_name, overlay_items, normalize_paired_child_kind, Item,
  dict, base_names, paired_child_iface_names, explicit_list,
}
use nova_ve.Prelude.Decimal.{str}

-- What an entry of the explicit list leaves of a name
abbrev pub entry_or : Option Item → Option Text → Option Text
entry_or e none = none
entry_or none (some b) = some b
entry_or (some x) (some b) = some (put_name x b)

entry_or-none : (b : Option Text) → b ≡ entry_or none b
entry_or-none none = refl
entry_or-none (some b) = refl

get_elem?-overlay_items :
    (xs : List Item) (base : List Text) (i : ℕ)
    → get_elem? (overlay_items xs base) i ≡ entry_or (get_elem? xs i) (get_elem? base i)
get_elem?-overlay_items [] base i = entry_or-none (get_elem? base i)
get_elem?-overlay_items (x ∷ xs) [] i = refl
get_elem?-overlay_items (x ∷ xs) (b ∷ base) zero = refl
get_elem?-overlay_items (x ∷ xs) (b ∷ base) (suc i) = get_elem?-overlay_items xs base i

get_elem?-range_from :
    (f : ℕ → Text) (j n i : ℕ) → i < n → get_elem? (map f (range_from j n)) i ≡ some (f (j + i))
get_elem?-range_from f j zero i h = absurd (omega arith)
get_elem?-range_from f j (suc n) zero h = ap (λ k. some (f k)) (omega arith)
get_elem?-range_from f j (suc n) (suc i) h =
    get_elem?-range_from f (suc j) n i (omega arith)
    ∙ ap (λ k. some (f k)) (let e : suc j + i ≡ j + suc i = omega arith in e)

get_elem?-range :
    (f : ℕ → Text) (n i : ℕ) → i < n → get_elem? (map f (range_from 0 n)) i ≡ some (f i)
get_elem?-range f n i h =
    get_elem?-range_from f 0 n i h ∙ ap (λ k. some (f k)) (let e : 0 + i ≡ i = omega arith in e)

-- The name that an interface of a child has by default
abbrev pub default_name : Text → ℕ → Text
default_name kind i =
    if text_eq kind (codes "qemu") then codes "Gi" ++ str (i + 1) else codes "eth" ++ str i

get_elem?-kind_default_iface_names :
    (kind : Text) (ethernet i : ℕ)
    → i < ethernet
    → get_elem? (kind_default_iface_names kind ethernet) i ≡ some (default_name kind i)
unfolding kind_default_iface_names
get_elem?-kind_default_iface_names kind ethernet i h =
    elim (Bool-cases (text_eq kind (codes "qemu"))) [
      | inl e ↦ rw e (get_elem?-range (λ k. codes "Gi" ++ str (k + 1)) ethernet i h)
      | inr e ↦ rw e (get_elem?-range (λ k. codes "eth" ++ str k) ethernet i h)
    ]

-- Where the block of a child has a list of names and no format, each of its interfaces has the name in the list at
-- its place, and where the list ends before it or has no text there, the default of its kind.
pub get_elem?-paired_child_iface_names :
    (kind : Text) (ethernet : ℕ) (xs : List Item) (i : ℕ)
    → i < ethernet
    → get_elem?
        (paired_child_iface_names kind ethernet
          (dict (record { format = none; explicit = some (explicit_list xs) })))
        i
      ≡ entry_or (get_elem? xs i) (some (default_name (normalize_paired_child_kind kind) i))
unfolding paired_child_iface_names base_names
get_elem?-paired_child_iface_names kind ethernet xs i h =
    let k = normalize_paired_child_kind kind in
    get_elem?-overlay_items xs (kind_default_iface_names k ethernet) i
    ∙ ap (entry_or (get_elem? xs i)) (get_elem?-kind_default_iface_names k ethernet i h)
