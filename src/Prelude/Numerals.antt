-- ===== src/Prelude/Numerals.antt =====
-- Decimal numerals within texts: how long they are, and where they end.
use nova_ve.Prelude.{
  ℕ, zero, suc, ◌*◌, ◌/◌, ◌<◌, ◌≤◌, ◌≡◌, refl, sym, ap, ◌∙◌, true, false, some, [], ◌∷◌, ◌++◌, Text,
  ltb, length, length-append, arith, strip_prefix, strip_prefix-append, Bool-cases, inl, inr,
}
use nova_ve.Prelude.Decimal.{
  str, digits, all_digits, is_digit, value_from, value_from-digits, all_digits-digits,
}

-- `10 ** k`
abbrev pub tens : ℕ → ℕ
tens zero = 1
tens (suc k) = 10 * tens k

length-digits : (f n k : ℕ) → n < tens (suc k) → length (digits f n) ≤ suc k
unfolding digits
length-digits zero n k h = omega arith
length-digits (suc f) n zero h = let e : ltb n 10 ≡ true = ground arith in rw e (omega arith)
length-digits (suc f) n (suc k) h = elim (Bool-cases (ltb n 10)) [
  | inl e ↦ rw e (omega arith)
  | inr e ↦ rw (e, length-append) (omega (arith, length-digits f (n / 10) k))
]

length-digits_pos : (f n : ℕ) → 1 ≤ length (digits (suc f) n)
unfolding digits
length-digits_pos f n = elim (Bool-cases (ltb n 10)) [
  | inl e ↦ rw e (omega arith)
  | inr e ↦ rw (e, length-append) (omega arith)
]

pub length-str : (n k : ℕ) → n < tens (suc k) → length (str n) ≤ suc k
unfolding str
length-str n k h = length-digits (suc n) n k h

pub length-str_pos : (n : ℕ) → 1 ≤ length (str n)
unfolding str
length-str_pos n = length-digits_pos n n

pub all_digits-str : (n : ℕ) → all_digits (str n) ≡ true
unfolding str
all_digits-str n = all_digits-digits (suc n) n

pub value_from-str : (n : ℕ) → value_from 0 (str n) ≡ n
unfolding str
value_from-str n = value_from-digits (suc n) n (omega arith)

pub str-injective : (m n : ℕ) → str m ≡ str n → m ≡ n
str-injective m n h = sym (value_from-str m) ∙ ap (value_from 0) h ∙ value_from-str n

pub append_left-injective : (p s t : Text) → p ++ s ≡ p ++ t → s ≡ t
append_left-injective p s t h =
    let e : some s ≡ some t =
      sym (strip_prefix-append p s) ∙ ap (strip_prefix p) h ∙ strip_prefix-append p t in
    cc

-- A numeral ends at the first character that is no digit.
pub all_digits-split :
    (c : ℕ) (a b s t : Text)
    → is_digit c ≡ false
    → all_digits a ≡ true
    → all_digits b ≡ true
    → a ++ (c ∷ s) ≡ b ++ (c ∷ t)
    → (a ≡ b) × (s ≡ t)
unfolding all_digits
all_digits-split c [] [] s t nd ha hb h = (refl, cc)
all_digits-split c [] (d ∷ b) s t nd ha hb h = let e : c ≡ d = cc in absurd (ground arith)
all_digits-split c (d ∷ a) [] s t nd ha hb h = let e : c ≡ d = cc in absurd (ground arith)
all_digits-split c (d ∷ a) (d' ∷ b) s t nd ha hb h =
    let e : d ≡ d' = cc in
    let rest : a ++ (c ∷ s) ≡ b ++ (c ∷ t) = cc in
    let (same, after) = all_digits-split c a b s t nd (ground arith) (ground arith) rest in
    (cc, after)
