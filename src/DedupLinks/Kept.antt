-- ===== src/DedupLinks/Kept.antt =====
-- Which links `_dedup_links` of scripts/dedup_links.py keeps.
use nova_ve.Prelude.{
  ◌+◌, ◌≡◌, refl, sym, ap, ◌∙◌, inl, inr, Bool, true, false, Option, none, some, List, [], ◌∷◌,
  if◌then◌else◌, length, any_of, arith, Bool-cases, Option-cases,
}
use nova_ve.Lab.{Link}
use nova_ve.Links.Keys.{pair_key_eq, pair_key_eq_iff}
use nova_ve.DedupLinks.{PairKey, link_key, is_seen, dedup_loop, dedup_links}

-- A link whose pair of endpoints is that of the key
abbrev pub has_key : PairKey → Option PairKey → Bool
has_key k none = false
has_key k (some j) = pair_key_eq k j

-- Whether a link before has the same pair of endpoints
abbrev pub repeats : List Link → Option PairKey → Bool
repeats before none = false
repeats before (some k) = any_of (λ m. has_key k (link_key m)) before

-- The links that repeat none of the links before them, whatever became of those
abbrev pub first_of_each : List Link → List Link → List Link
first_of_each before [] = []
first_of_each before (l ∷ ls) =
    let rest = first_of_each (l ∷ before) ls in
    if repeats before (link_key l) then rest else l ∷ rest

abbrev Tracks : List PairKey → List Link → Type 0
Tracks seen before = (k : PairKey) → is_seen k seen ≡ any_of (λ m. has_key k (link_key m)) before

Tracks-unkeyed :
    (seen : List PairKey) (before : List Link) (l : Link)
    → link_key l ≡ none
    → Tracks seen before
    → Tracks seen (l ∷ before)
Tracks-unkeyed seen before l e h k = rw e (h k)

Tracks-new :
    (seen : List PairKey) (before : List Link) (l : Link) (j : PairKey)
    → link_key l ≡ some j
    → Tracks seen before
    → Tracks (j ∷ seen) (l ∷ before)
Tracks-new seen before l j e h k = rw (e, h k) refl

Tracks-repeated :
    (seen : List PairKey) (before : List Link) (l : Link) (j : PairKey)
    → link_key l ≡ some j
    → is_seen j seen ≡ true
    → Tracks seen before
    → Tracks seen (l ∷ before)
Tracks-repeated seen before l j e again h k = elim (Bool-cases (pair_key_eq k j)) [
  | inl f ↦
      let same : k ≡ j = (pair_key_eq_iff k j).0 f in
      rw (e, f) (ap (λ x. is_seen x seen) same ∙ again)
  | inr f ↦ rw (e, f) (h k)
]

dedup_loop-first_of_each :
    (seen : List PairKey) (before ls : List Link)
    → Tracks seen before
    → (dedup_loop seen ls).0 ≡ first_of_each before ls
unfolding dedup_loop
dedup_loop-first_of_each seen before [] h = refl
dedup_loop-first_of_each seen before (l ∷ ls) h = elim (Option-cases (link_key l)) [
  | inl e ↦ rw e (
      ap (λ xs. l ∷ xs)
        (dedup_loop-first_of_each seen (l ∷ before) ls (Tracks-unkeyed seen before l e h)))
  | inr (k, e) ↦ elim (Bool-cases (is_seen k seen)) [
    | inl f ↦
        let g : any_of (λ m. has_key k (link_key m)) before ≡ true = sym (h k) ∙ f in
        rw (e, f, g)
          (dedup_loop-first_of_each seen (l ∷ before) ls (Tracks-repeated seen before l k e f h))
    | inr f ↦
        let g : any_of (λ m. has_key k (link_key m)) before ≡ false = sym (h k) ∙ f in
        rw (e, f, g)
          (ap (λ xs. l ∷ xs)
            (dedup_loop-first_of_each (k ∷ seen) (l ∷ before) ls (Tracks-new seen before l k e h)))
  ]
]

dedup_loop-length :
    (seen : List PairKey) (ls : List Link)
    → length (dedup_loop seen ls).0 + (dedup_loop seen ls).1 ≡ length ls
unfolding dedup_loop
dedup_loop-length seen [] = refl
dedup_loop-length seen (l ∷ ls) = elim (Option-cases (link_key l)) [
  | inl e ↦ rw e (omega (arith, dedup_loop-length seen ls))
  | inr (k, e) ↦ elim (Bool-cases (is_seen k seen)) [
    | inl f ↦ rw (e, f) (omega (arith, dedup_loop-length seen ls))
    | inr f ↦ rw (e, f) (omega (arith, dedup_loop-length (k ∷ seen) ls))
  ]
]

-- The links kept are those that repeat the pair of endpoints of no link before them, with every
-- link whose endpoints cannot be read, in their order; the count of the removed is what is missing.
pub dedup_links-first_of_each :
    (links : List Link)
    → ((dedup_links links).0 ≡ first_of_each [] links)
      × (length (dedup_links links).0 + (dedup_links links).1 ≡ length links)
unfolding dedup_links
dedup_links-first_of_each links =
    (dedup_loop-first_of_each [] [] links (λ k. refl), dedup_loop-length [] links)
