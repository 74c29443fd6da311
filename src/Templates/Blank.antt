-- ===== src/Templates/Blank.antt =====
-- Blank texts, and the entries of a list of names that the check accepts.
use nova_ve.Prelude.{
  ℕ, suc, ◌&&◌, ◌≡◌, refl, sym, ap, ◌∙◌, inl, inr, Bool, true, false, not, none, some, List, [],
  ◌∷◌, ◌++◌, Text, Bool-cases, keep_if, is_space, lstrip, rstrip, append_char, strip, join_with,
}
use nova_ve.Templates.{
  is_empty, is_nil, has_placeholder, format_empty_entry, format_early_placeholder, Item, text,
  other, check_entries, stripped,
}

abbrev all_space : Text → Bool
all_space [] = true
all_space (c ∷ s) = is_space c && all_space s

all_space-lstrip : (s : Text) → all_space (lstrip s) ≡ all_space s
unfolding lstrip
all_space-lstrip [] = refl
all_space-lstrip (c ∷ s) = elim (Bool-cases (is_space c)) [
  | inl e ↦ rw (e, all_space-lstrip s) refl
  | inr e ↦ rw e (rw e refl)
]

is_empty-append_char : (c : ℕ) (r : Text) → is_empty (append_char c r) ≡ is_space c && is_empty r
is_empty-append_char c (d ∷ r) = elim (Bool-cases (is_space c)) [
  | inl e ↦ rw e refl
  | inr e ↦ rw e refl
]
is_empty-append_char c [] = elim (Bool-cases (is_space c)) [ inl e ↦ rw e refl | inr e ↦ rw e refl ]

all_space-append_char : (c : ℕ) (r : Text) → all_space (append_char c r) ≡ is_space c && all_space r
all_space-append_char c (d ∷ r) = refl
all_space-append_char c [] = elim (Bool-cases (is_space c)) [
  | inl e ↦ rw e refl
  | inr e ↦ rw e (rw e refl)
]

is_empty-rstrip : (s : Text) → is_empty (rstrip s) ≡ all_space s
unfolding rstrip
is_empty-rstrip [] = refl
is_empty-rstrip (c ∷ s) =
    is_empty-append_char c (rstrip s) ∙ ap (λ b. is_space c && b) (is_empty-rstrip s)

all_space-rstrip : (s : Text) → all_space (rstrip s) ≡ all_space s
unfolding rstrip
all_space-rstrip [] = refl
all_space-rstrip (c ∷ s) =
    all_space-append_char c (rstrip s) ∙ ap (λ b. is_space c && b) (all_space-rstrip s)

is_empty-strip : (s : Text) → is_empty (strip s) ≡ all_space s
unfolding strip
is_empty-strip s = is_empty-rstrip (lstrip s) ∙ all_space-lstrip s

all_space-strip : (s : Text) → all_space (strip s) ≡ all_space s
unfolding strip
all_space-strip s = all_space-rstrip (lstrip s) ∙ all_space-lstrip s

all_space-append : (s t : Text) → all_space (s ++ t) ≡ all_space s && all_space t
all_space-append [] t = refl
all_space-append (c ∷ s) t = elim (Bool-cases (is_space c)) [
  | inl e ↦ rw (e, all_space-append s t) refl
  | inr e ↦ rw e refl
]

-- A list that passes the loop over its entries has no blank one.
pub stripped-kept :
    (i : ℕ) (xs : List Item)
    → check_entries i xs ≡ none
    → keep_if (λ s. not (is_empty s)) (stripped xs) ≡ stripped xs
stripped-kept i [] h = refl
stripped-kept i (other s ∷ xs) h = absurd (cc)
stripped-kept i (text s ∷ xs) h = elim (Bool-cases (is_empty (strip s))) [
  | inl e ↦
      let k : check_entries i (text s ∷ xs) ≡ some format_empty_entry = rw e refl in absurd (cc)
  | inr e ↦ elim (Bool-cases (not (is_nil xs) && has_placeholder s)) [
    | inl q ↦
        let k : check_entries i (text s ∷ xs) ≡ some (format_early_placeholder i) =
          rw e (rw q refl) in
        absurd (cc)
    | inr q ↦
        let k : check_entries i (text s ∷ xs) ≡ check_entries (suc i) xs = rw e (rw q refl) in
        rw e (ap (λ r. strip s ∷ r) (stripped-kept (suc i) xs (sym k ∙ h)))
  ]
]

all_space-join_with :
    (p : Text) (ps : List Text) → all_space p ≡ false → all_space (join_with b',' (p ∷ ps)) ≡ false
unfolding join_with
all_space-join_with p [] h = h
all_space-join_with p (q ∷ ps) h = rw (all_space-append, h) refl

-- The joined entries of such a list are not blank.
pub joined-not_blank :
    (x : Item) (xs : List Item)
    → check_entries 0 (x ∷ xs) ≡ none
    → is_empty (strip (join_with b',' (stripped (x ∷ xs)))) ≡ false
joined-not_blank (other s) xs h = absurd (cc)
joined-not_blank (text s) xs h = elim (Bool-cases (is_empty (strip s))) [
  | inl e ↦
      let k : check_entries 0 (text s ∷ xs) ≡ some format_empty_entry = rw e refl in absurd (cc)
  | inr e ↦
      is_empty-strip (join_with b',' (strip s ∷ stripped xs))
      ∙ all_space-join_with (strip s) (stripped xs) (all_space-strip s ∙ sym (is_empty-strip s) ∙ e)
]

pub not_empty : (s : Text) → is_empty (strip s) ≡ false → is_empty s ≡ false
unfolding strip lstrip rstrip
not_empty [] h = absurd (cc)
not_empty (c ∷ s) h = refl
