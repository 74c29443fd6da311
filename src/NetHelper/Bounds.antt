-- ===== src/NetHelper/Bounds.antt =====
-- How long the names are that the patterns of NetHelper match, and which patterns exclude another.
use nova_ve.Prelude.{
  ℕ, suc, ◌≤◌, ◌≡◌, refl, inl, inr, sym, subst, Bool, true, false, ◌||◌, ◌&&◌, List, [], ◌∷◌, Text,
  length, ◌==◌, if◌then◌else◌, arith, All, Bool-cases,
}
use nova_ve.NetHelper.Patterns.{
  Step, need, may, many, Pattern, steps_then, at_end, matches, bridge_pattern, tap_pattern,
  veth_pattern, host_bridge_pattern,
}
use nova_ve.NetHelper.Checks.{Effect, finished, invalid, is_owned_name, validate_iface_name}

-- A text without the newline at its end, if it has one
abbrev pub chomp : Text → Text
chomp [] = []
chomp (c ∷ []) = if c == 10 then [] else c ∷ []
chomp (c ∷ d ∷ s) = c ∷ chomp (d ∷ s)

length-chomp_cons : (c : ℕ) (s : Text) → length (chomp (c ∷ s)) ≤ suc (length (chomp s))
length-chomp_cons c [] = elim (Bool-cases (c == 10)) [
  | inl e ↦ rw e (omega arith)
  | inr e ↦ rw e (omega arith)
]
length-chomp_cons c (d ∷ s) = omega arith

at_end-chomp : (s : Text) → at_end s ≡ true → chomp s ≡ []
unfolding at_end
at_end-chomp [] h = refl
at_end-chomp (c ∷ []) h = rw h refl
at_end-chomp (c ∷ d ∷ s) h = absurd (ground arith)

abbrev IsBounded : Step → Type 0
IsBounded (need cls) = Unit
IsBounded (may cls) = Unit
IsBounded (many cls) = ⊥

-- A pattern without `*` matches at most as many characters as it has steps.
steps_then-length :
    (p : Pattern) (s : Text)
    → All IsBounded p
    → steps_then p at_end s ≡ true
    → length (chomp s) ≤ length p
unfolding steps_then
steps_then-length [] s b h = rw (at_end-chomp s h) (omega arith)
steps_then-length (need cls ∷ ps) [] b h = omega arith
steps_then-length (need cls ∷ ps) (c ∷ s) b h = omega (
  arith,
  length-chomp_cons c s,
  steps_then-length ps s b.1 (let e : (cls c && steps_then ps at_end s) ≡ true = h in ground arith),
)
steps_then-length (may cls ∷ ps) [] b h = omega arith
steps_then-length (may cls ∷ ps) (c ∷ s) b h = elim (Bool-cases (steps_then ps at_end (c ∷ s))) [
  | inl e ↦ omega (arith, steps_then-length ps (c ∷ s) b.1 e)
  | inr e ↦
      let f : (steps_then ps at_end (c ∷ s) || (cls c && steps_then ps at_end s)) ≡ true = h in
      omega (arith, length-chomp_cons c s, steps_then-length ps s b.1 (ground arith))
]
steps_then-length (many cls ∷ ps) s b h = absurd b.0

pub matches-length :
    (p : Pattern) (s : Text) → All IsBounded p → matches p s ≡ true → length (chomp s) ≤ length p
unfolding matches
matches-length p s b h = steps_then-length p s b h

-- A pattern that starts with a letter does not match a text that another letter starts.
first_differs :
    (a b : ℕ) (p q : Pattern) (s : Text)
    → (a == b) ≡ false
    → matches (need (λ d. d == a) ∷ p) s ≡ true
    → matches (need (λ d. d == b) ∷ q) s ≡ false
unfolding matches steps_then
first_differs a b p q [] e h = refl
first_differs a b p q (c ∷ s) e h =
    let f : (c == a && steps_then p at_end s) ≡ true = h in
    let g : (c == b) ≡ false = ground arith in rw g refl

owned_bounds :
    (s : Text)
    → is_owned_name s ≡ true
    → (length (chomp s) ≤ 15) × (matches host_bridge_pattern s ≡ false)
owned_bounds s h = elim (Bool-cases (matches tap_pattern s)) [
  | inl e ↦ (omega (arith, matches-length tap_pattern s _ e), first_differs b'n' b'b' _ _ s refl e)
  | inr e ↦ elim (Bool-cases (matches veth_pattern s)) [
    | inl f ↦ (matches-length veth_pattern s _ f, first_differs b'n' b'b' _ _ s refl f)
    | inr f ↦
        let g : matches bridge_pattern s ≡ true = ground arith in
        (omega (arith, matches-length bridge_pattern s _ g), first_differs b'n' b'b' _ _ s refl g)
  ]
]

let_pass :
    (label value w : Text) (t t' : List Effect) (b : Bool)
    → is_owned_name value ≡ b
    → (if b then finished value t else invalid label t) ≡ finished w t'
    → (w ≡ value) × (length (chomp w) ≤ 15) × (matches host_bridge_pattern w ≡ false)
let_pass label value w t t' true e h =
    let same : value ≡ w = cc in
    let (short, other) = owned_bounds w (subst (λ x. is_owned_name x ≡ true) same e) in
    (sym same, short, other)
let_pass label value w t t' false e h = cc

-- An interface name that `validate_iface_name` lets pass is the one given; without a newline at its
-- end it has at most the 15 characters that the kernel allows, and it is not the name of a host
-- bridge.
pub validate_iface_name-bounds :
    (label value w : Text) (t t' : List Effect)
    → validate_iface_name label value t ≡ finished w t'
    → (w ≡ value) × (length (chomp w) ≤ 15) × (matches host_bridge_pattern w ≡ false)
unfolding validate_iface_name
validate_iface_name-bounds label value w t t' h =
    let_pass label value w t t' (is_owned_name value) refl h
