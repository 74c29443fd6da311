-- ===== src/QemuArgs/Grouped.antt =====
-- What the groups of a command line of QEMU are, as backend/app/services/node_runtime_service.py
-- forms them.
use nova_ve.Prelude.{
  ◌≡◌, refl, sym, inl, inr, ◌⊎◌, Bool, true, false, Option, none, some, List, [], ◌∷◌, ◌++◌, Text,
  keep_if, All, All-append, Bool-cases,
}
use mathlib.Core.List.{append-nil, append_assoc}
use nova_ve.QemuArgs.{
  Group, is_flag, Scan, close, closed, add_value, scan_token, scan_tokens, start, parse_qemu_tokens,
  flatten,
}

pub flatten-append : (gs hs : List Group) → flatten (gs ++ hs) ≡ flatten gs ++ flatten hs
flatten-append [] hs = refl
flatten-append (g ∷ gs) hs = rw (flatten-append gs hs, append_assoc) refl

flatten-add_value :
    (t : Text) (o : Option Text) (vals : List Text) (groups : List Group)
    → flatten (closed (add_value t o vals groups)) ≡ flatten (close o vals groups) ++ (t ∷ [])
flatten-add_value t none vals groups = flatten-append groups ((t, []) ∷ [])
flatten-add_value t (some f) vals groups = simp (flatten-append, append-nil, append_assoc)

flatten-scan_token :
    (t : Text) (s : Scan) → flatten (closed (scan_token t s)) ≡ flatten (closed s) ++ (t ∷ [])
flatten-scan_token t s = elim (Bool-cases (is_flag t)) [
  | inl e ↦ rw e (flatten-append (closed s) ((t, []) ∷ []))
  | inr e ↦ rw e (flatten-add_value t s.current_flag s.current_vals s.groups)
]

flatten-scan_tokens :
    (ts : List Text) (s : Scan) → flatten (closed (scan_tokens ts s)) ≡ flatten (closed s) ++ ts
unfolding scan_tokens
flatten-scan_tokens [] s = sym (append-nil (flatten (closed s)))
flatten-scan_tokens (t ∷ ts) s =
    rw (flatten-scan_tokens ts (scan_token t s), flatten-scan_token t s)
      (append_assoc (flatten (closed s)) (t ∷ []) ts)

-- The groups of a command line are its tokens, none lost and none moved.
pub flatten-parse_qemu_tokens : (ts : List Text) → flatten (parse_qemu_tokens ts) ≡ ts
unfolding parse_qemu_tokens
flatten-parse_qemu_tokens ts = flatten-scan_tokens ts start

abbrev pub IsValue : Text → Type 0
IsValue t = is_flag t ≡ false

abbrev pub IsPlain : Group → Type 0
IsPlain g = IsValue g.0 × (g.1 ≡ [])

abbrev pub IsFlagged : Group → Type 0
IsFlagged g = (is_flag g.0 ≡ true) × All IsValue g.1

-- The leading values, then the flags
abbrev pub Grouped : List Group → Type 0
Grouped [] = Unit
Grouped (g ∷ gs) = (IsPlain g × Grouped gs) ⊎ All IsFlagged (g ∷ gs)

pub Grouped-append : (gs hs : List Group) → Grouped gs → All IsFlagged hs → Grouped (gs ++ hs)
Grouped-append [] [] p a = tt
Grouped-append [] (h ∷ hs) p a = inr a
Grouped-append (g ∷ gs) hs (inl p) a = inl (p.0, Grouped-append gs hs p.1 a)
Grouped-append (g ∷ gs) hs (inr q) a = inr (All-append IsFlagged (g ∷ gs) hs q a)

All-IsPlain-Grouped : (gs : List Group) → All IsPlain gs → Grouped gs
All-IsPlain-Grouped [] a = tt
All-IsPlain-Grouped (g ∷ gs) a = inl (a.0, All-IsPlain-Grouped gs a.1)

All-keep_if :
    (P : Group → Type 0) (test : Group → Bool) (gs : List Group)
    → All P gs
    → All P (keep_if test gs)
All-keep_if P test [] a = tt
All-keep_if P test (g ∷ gs) a = elim (Bool-cases (test g)) [
  | inl e ↦ rw e (a.0, All-keep_if P test gs a.1)
  | inr e ↦ rw e (All-keep_if P test gs a.1)
]

All-IsFlagged-Grouped : (gs : List Group) → All IsFlagged gs → Grouped gs
All-IsFlagged-Grouped [] a = tt
All-IsFlagged-Grouped (g ∷ gs) a = inr a

pub Grouped-keep_if :
    (test : Group → Bool) (gs : List Group) → Grouped gs → Grouped (keep_if test gs)
Grouped-keep_if test [] p = tt
Grouped-keep_if test (g ∷ gs) (inr a) =
    All-IsFlagged-Grouped _ (All-keep_if IsFlagged test (g ∷ gs) a)
Grouped-keep_if test (g ∷ gs) (inl p) = elim (Bool-cases (test g)) [
  | inl e ↦ rw e (inl (p.0, Grouped-keep_if test gs p.1))
  | inr e ↦ rw e (Grouped-keep_if test gs p.1)
]

-- What holds of the variables of the loop
abbrev Scanned : Option Text → List Text → List Group → Type 0
Scanned none vals groups = All IsPlain groups
Scanned (some f) vals groups = Grouped groups × IsFlagged (f, vals)

Scanned-close :
    (o : Option Text) (vals : List Text) (groups : List Group)
    → Scanned o vals groups
    → Grouped (close o vals groups)
Scanned-close none vals groups h = All-IsPlain-Grouped groups h
Scanned-close (some f) vals groups h = Grouped-append groups ((f, vals) ∷ []) h.0 (h.1, tt)

abbrev IsScanned : Scan → Type 0
IsScanned s = Scanned s.current_flag s.current_vals s.groups

add_value-IsScanned :
    (t : Text) (o : Option Text) (vals : List Text) (groups : List Group)
    → IsValue t
    → Scanned o vals groups
    → IsScanned (add_value t o vals groups)
add_value-IsScanned t none vals groups v h =
    All-append IsPlain groups ((t, []) ∷ []) h ((v, refl), tt)
add_value-IsScanned t (some f) vals groups v h =
    (h.0, (h.1.0, All-append IsValue vals (t ∷ []) h.1.1 (v, tt)))

scan_token-IsScanned : (t : Text) (s : Scan) → IsScanned s → IsScanned (scan_token t s)
scan_token-IsScanned t s h = elim (Bool-cases (is_flag t)) [
  | inl e ↦ rw e (Scanned-close s.current_flag s.current_vals s.groups h, (e, tt))
  | inr e ↦ rw e (add_value-IsScanned t s.current_flag s.current_vals s.groups e h)
]

scan_tokens-IsScanned : (ts : List Text) (s : Scan) → IsScanned s → IsScanned (scan_tokens ts s)
unfolding scan_tokens
scan_tokens-IsScanned [] s h = h
scan_tokens-IsScanned (t ∷ ts) s h =
    scan_tokens-IsScanned ts (scan_token t s) (scan_token-IsScanned t s h)

pub parse_qemu_tokens-Grouped : (ts : List Text) → Grouped (parse_qemu_tokens ts)
unfolding parse_qemu_tokens
parse_qemu_tokens-Grouped ts =
    let s = scan_tokens ts start in
    Scanned-close s.current_flag s.current_vals s.groups (scan_tokens-IsScanned ts start tt)

-- No token, or a flag in front
abbrev pub FlagFirst : List Text → Type 0
FlagFirst [] = Unit
FlagFirst (t ∷ ts) = is_flag t ≡ true

flatten-FlagFirst : (gs : List Group) → Grouped gs → FlagFirst (flatten gs) → All IsFlagged gs
flatten-FlagFirst [] p f = tt
flatten-FlagFirst (g ∷ gs) (inr a) f = a
flatten-FlagFirst (g ∷ gs) (inl p) f = let e : is_flag g.0 ≡ false = p.0.0 in absurd (cc)

pub parse_qemu_tokens-IsFlagged :
    (ts : List Text) → FlagFirst ts → All IsFlagged (parse_qemu_tokens ts)
parse_qemu_tokens-IsFlagged ts f =
    flatten-FlagFirst (parse_qemu_tokens ts) (parse_qemu_tokens-Grouped ts)
      (rw (flatten-parse_qemu_tokens ts) f)
