-- ===== src/QemuArgs/Merged.antt =====
-- Which options a merged command line of QEMU has.
use nova_ve.Prelude.{
  ℕ, ◌≡◌, refl, sym, ap, ◌∙◌, inl, inr, Bool, true, false, not, Option, none, some, List, [], ◌∷◌,
  ◌++◌, Text, if◌then◌else◌, keep_if, any_of, text_eq, text_eq_iff, All, Bool-cases,
}
use mathlib.Core.List.{append-nil, append_assoc}
use nova_ve.QemuArgs.{
  Group, is_flag, Scan, closed, scan_token, scan_tokens, parse_qemu_tokens, override_flags, is_in,
  flatten, merge_groups, merge_qemu_args,
}
use nova_ve.QemuArgs.Grouped.{
  IsValue, IsFlagged, Grouped, FlagFirst, Grouped-append, Grouped-keep_if,
  parse_qemu_tokens-Grouped, parse_qemu_tokens-IsFlagged,
}

scan_tokens-append :
    (ts us : List Text) (s : Scan) → scan_tokens (ts ++ us) s ≡ scan_tokens us (scan_tokens ts s)
unfolding scan_tokens
scan_tokens-append [] us s = refl
scan_tokens-append (t ∷ ts) us s = scan_tokens-append ts us (scan_token t s)

-- Values after a flag become its values.
scan_tokens-values :
    (ts : List Text) (f : Text) (vals : List Text) (groups : List Group)
    → All IsValue ts
    → scan_tokens ts (record { groups = groups; current_flag = some f; current_vals = vals })
      ≡ record { groups = groups; current_flag = some f; current_vals = vals ++ ts }
unfolding scan_tokens
scan_tokens-values [] f vals groups a = rw (append-nil vals) refl
scan_tokens-values (t ∷ ts) f vals groups a = rw a.0 (
    scan_tokens-values ts f (vals ++ (t ∷ [])) groups a.1
    ∙ ap (λ v. record { groups = groups; current_flag = some f; current_vals = v })
        (append_assoc vals (t ∷ []) ts))

scan_tokens_flag :
    (t : Text) (ts : List Text) (s : Scan)
    → is_flag t ≡ true
    → scan_tokens (t ∷ ts) s
      ≡ scan_tokens ts (record { groups = closed s; current_flag = some t; current_vals = [] })
unfolding scan_tokens
scan_tokens_flag t ts s h =
    let e : scan_token t s
        ≡ record { groups = closed s; current_flag = some t; current_vals = [] } =
      rw h refl in
    ap (scan_tokens ts) e

-- A value before any flag
scan_tokens_value :
    (t : Text) (ts : List Text) (groups : List Group)
    → IsValue t
    → scan_tokens (t ∷ ts) (record { groups = groups; current_flag = none; current_vals = [] })
      ≡ scan_tokens ts
          (record { groups = groups ++ ((t, []) ∷ []); current_flag = none; current_vals = [] })
unfolding scan_tokens
scan_tokens_value t ts groups h =
    let e : scan_token t (record { groups = groups; current_flag = none; current_vals = [] })
        ≡ record { groups = groups ++ ((t, []) ∷ []); current_flag = none; current_vals = [] } =
      rw h refl in
    ap (scan_tokens ts) e

scan_tokens-IsFlagged :
    (gs : List Group) (s : Scan)
    → All IsFlagged gs
    → closed (scan_tokens (flatten gs) s) ≡ closed s ++ gs
unfolding scan_tokens
scan_tokens-IsFlagged [] s a = sym (append-nil (closed s))
scan_tokens-IsFlagged (g ∷ gs) s a =
    ap closed (
      scan_tokens_flag g.0 (g.1 ++ flatten gs) s a.0.0
      ∙ scan_tokens-append g.1 (flatten gs) _
      ∙ ap (scan_tokens (flatten gs)) (scan_tokens-values g.1 g.0 [] (closed s) a.0.1))
    ∙ scan_tokens-IsFlagged gs
        (record { groups = closed s; current_flag = some g.0; current_vals = g.1 }) a.1
    ∙ append_assoc (closed s) (g ∷ []) gs

scan_tokens-Grouped :
    (gs before : List Group)
    → Grouped gs
    → closed (
        scan_tokens
          (flatten gs)
          (record { groups = before; current_flag = none; current_vals = [] }))
      ≡ before ++ gs
unfolding scan_tokens
scan_tokens-Grouped [] before p = sym (append-nil before)
scan_tokens-Grouped (g ∷ gs) before (inr a) =
    scan_tokens-IsFlagged (g ∷ gs)
      (record { groups = before; current_flag = none; current_vals = [] }) a
scan_tokens-Grouped (g ∷ gs) before (inl p) =
    ap closed (
      ap
        (λ v.
          scan_tokens (g.0 ∷ (v ++ flatten gs))
            (record { groups = before; current_flag = none; current_vals = [] }))
        p.0.1
      ∙ scan_tokens_value g.0 (flatten gs) before p.0.0)
    ∙ scan_tokens-Grouped gs (before ++ ((g.0, []) ∷ [])) p.1
    ∙ append_assoc before ((g.0, []) ∷ []) gs
    ∙ ap (λ v. before ++ ((g.0, v) ∷ gs)) (sym p.0.1)

parse_qemu_tokens-flatten : (gs : List Group) → Grouped gs → parse_qemu_tokens (flatten gs) ≡ gs
unfolding parse_qemu_tokens
parse_qemu_tokens-flatten gs p = scan_tokens-Grouped gs [] p

-- The groups of one flag, in their order
abbrev pub instances : Text → List Group → List Group
instances f gs = keep_if (λ g. text_eq f g.0) gs

abbrev pub supplies : Text → List Group → Bool
supplies f gs = any_of (λ g. text_eq f g.0) gs

instances-append :
    (f : Text) (gs hs : List Group) → instances f (gs ++ hs) ≡ instances f gs ++ instances f hs
instances-append f [] hs = refl
instances-append f (g ∷ gs) hs = elim (Bool-cases (text_eq f g.0)) [
  | inl e ↦ rw (e, instances-append f gs hs) refl
  | inr e ↦ rw (e, instances-append f gs hs) refl
]

instances_none : (f : Text) (gs : List Group) → supplies f gs ≡ false → instances f gs ≡ []
instances_none f [] h = refl
instances_none f (g ∷ gs) h = elim (Bool-cases (text_eq f g.0)) [
  | inl e ↦ let contra : true ≡ false = rw (← h, e) refl in cc
  | inr e ↦ rw e (instances_none f gs (let r : supplies f gs ≡ false = rw (← h, e) refl in r))
]

is_in-override_flags :
    (f : Text) (gs : List Group) → All IsFlagged gs → is_in f (override_flags gs) ≡ supplies f gs
is_in-override_flags f [] a = refl
is_in-override_flags f (g ∷ gs) a = rw (a.0.0, is_in-override_flags f gs a.1) refl

instances-keep_if :
    (f : Text) (test : Text → Bool) (gs : List Group)
    → instances f (keep_if (λ g. not (test g.0)) gs) ≡ (if test f then [] else instances f gs)
instances-keep_if f test [] = elim (Bool-cases (test f)) [ inl e ↦ rw e refl | inr e ↦ rw e refl ]
instances-keep_if f test (g ∷ gs) = elim (Bool-cases (text_eq f g.0)) [
  | inl e ↦
      let p : f ≡ g.0 = (text_eq_iff f g.0).0 e in
      elim (Bool-cases (test g.0)) [
        | inl t ↦ let u : test f ≡ true = cc in rw (t, instances-keep_if f test gs, u) refl
        | inr t ↦ let u : test f ≡ false = cc in rw (t, u, e, instances-keep_if f test gs, u) refl
      ]
  | inr e ↦ elim (Bool-cases (test g.0)) [
    | inl t ↦ rw (t, e) (instances-keep_if f test gs)
    | inr t ↦ rw (t, e) (instances-keep_if f test gs)
  ]
]

instances-merge_groups :
    (f : Text) (base extra : List Group)
    → All IsFlagged extra
    → instances f (merge_groups base extra)
      ≡ (if supplies f extra then instances f extra else instances f base)
unfolding merge_groups
instances-merge_groups f base extra a =
    let e = instances-append f (keep_if (λ g. not (is_in g.0 (override_flags extra))) base) extra in
    let k = instances-keep_if f (λ t. is_in t (override_flags extra)) base in
    elim (Bool-cases (supplies f extra)) [
      | inl h ↦ rw (e, k, is_in-override_flags f extra a, h) refl
      | inr h ↦
          rw (e, k, is_in-override_flags f extra a, h, instances_none f extra h)
            (append-nil (instances f base))
    ]

-- The groups that a text read again has for one flag, where there is a command line.
abbrev pub instances_in : Text → Option (List Text) → Option (List Group)
instances_in f none = none
instances_in f (some ts) = some (instances f (parse_qemu_tokens ts))

-- Where the text of the user is split into tokens of which the first, if there is one, is a flag,
-- the merged command line, read again, has for each flag the instances of the user if the user
-- gives one, and the instances of the command line else, each with its values and in its order.
pub instances-merge_qemu_args :
    (split : Text → Option (List Text)) (base : List Text) (c : ℕ) (s : Text) (extra : List Text)
    (f : Text)
    → split (c ∷ s) ≡ some extra
    → FlagFirst extra
    → instances_in f (merge_qemu_args split base (c ∷ s))
      ≡ some (
          if supplies f (parse_qemu_tokens extra)
          then instances f (parse_qemu_tokens extra)
          else instances f (parse_qemu_tokens base))
unfolding merge_qemu_args merge_groups
instances-merge_qemu_args split base c s extra f h a =
    let b = parse_qemu_tokens base in
    let x = parse_qemu_tokens extra in
    let flagged = parse_qemu_tokens-IsFlagged extra a in
    let grouped : Grouped (merge_groups b x) =
      Grouped-append _ x (Grouped-keep_if _ b (parse_qemu_tokens-Grouped base)) flagged in
    rw (h, parse_qemu_tokens-flatten (merge_groups b x) grouped)
      (ap some (instances-merge_groups f b x flagged))
