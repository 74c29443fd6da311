-- ===== src/HostNet/Distinct.antt =====
-- The names of HostNet tell the interfaces of a lab apart.
use nova_ve.Prelude.{
  ℕ, ◌≡◌, refl, Bool, true, false, Option, none, some, ◌∷◌, ◌++◌, Text, codes, if◌then◌else◌, sym,
  ◌∙◌,
}
use nova_ve.Prelude.Decimal.{str}
use nova_ve.HostNet.{
  IdFile, named, assertion_error, get_instance_id, hex4, name_of, lab_hash, tap_text, tap_name,
}
use nova_ve.Prelude.Numerals.{
  all_digits-str, all_digits-split, append_left-injective, str-injective,
}

tap_text-injective : (h n i n' i' : ℕ) → tap_text h n i ≡ tap_text h n' i' → (n ≡ n') × (i ≡ i')
tap_text-injective h n i n' i' e =
    let after_hash : b'd' ∷ (str n ++ (b'i' ∷ str i)) ≡ b'd' ∷ (str n' ++ (b'i' ∷ str i')) =
      append_left-injective (hex4 h) _ _ (append_left-injective (codes "nve") _ _ e) in
    let numerals : str n ++ (b'i' ∷ str i) ≡ str n' ++ (b'i' ∷ str i') = cc in
    let (a, b) =
      all_digits-split b'i' (str n) (str n') (str i) (str i') refl (all_digits-str n)
        (all_digits-str n') numerals in
    (str-injective n n' a, str-injective i i' b)

checked_name-named :
    (w s : Text) (b : Bool) → (if b then assertion_error else named w) ≡ named s → w ≡ s
checked_name-named w s true h = cc
checked_name-named w s false h = cc

name_of-named :
    (o : Option Text) (f : Text → Text) (s : Text)
    → name_of o f ≡ named s
    → (id : Text) × (o ≡ some id) × (f id ≡ s)
name_of-named none f s h = cc
name_of-named (some id) f s h = (id, refl, checked_name-named (f id) s _ h)

module _ (digest : Text → ℕ) where
  -- Two interfaces of a lab with the same tap name are the same interface of the same node.
  pub tap_name-injective :
      (file : IdFile) (lab_id s : Text) (node_id iface node_id' iface' : ℕ)
      → tap_name digest file lab_id node_id iface ≡ named s
      → tap_name digest file lab_id node_id' iface' ≡ named s
      → (node_id ≡ node_id') × (iface ≡ iface')
  unfolding tap_name
  tap_name-injective file lab_id s n i n' i' h h' =
      let (id, e, t) = name_of-named (get_instance_id file) _ s h in
      let (id', e', t') = name_of-named (get_instance_id file) _ s h' in
      let same : id ≡ id' = cc in
      tap_text-injective (lab_hash digest lab_id id) n i n' i' (t ∙ sym (rw same t'))
