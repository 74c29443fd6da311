-- ===== src/Ipam/Release.antt =====
-- What `_release_ip_from_owner` of backend/app/services/network_service.py leaves in a network's
-- record.
use nova_ve.Prelude.{
  ℕ, ◌+◌, ◌≤◌, ◌≡◌, refl, ◌∙◌, true, ◌&&◌, Option, none, some, List, [], ◌∷◌, inl, inr, arith, Text,
  text_eq, text_eq_iff, ltb, if◌then◌else◌, All, All-map, Bool-cases,
}
use nova_ve.Lab.{Network}
use nova_ve.Ipam.{
  IpAddress, remove_entry, has_entry, entry_key, insert_entry, sort_entries, release_network,
}

-- How often a text stands among the entries.
abbrev pub entry_count : Text → List (Option Text) → ℕ
entry_count u [] = 0
entry_count u (none ∷ es) = entry_count u es
entry_count u (some s ∷ es) = (if text_eq s u then 1 else 0) + entry_count u es

module _ (ip : IpAddress) where
  -- The entries stand in the order of their addresses.
  abbrev pub IsSorted : List (Option Text) → Type 0
  IsSorted [] = Unit
  IsSorted (e ∷ es) = All (λ (d : Option Text). entry_key ip e ≤ entry_key ip d) es × IsSorted es

  entry_count-cons :
      (u : Text) (e d : Option Text) (es : List (Option Text))
      → entry_count u (e ∷ (d ∷ es)) ≡ entry_count u (d ∷ (e ∷ es))
  entry_count-cons u none none es = refl
  entry_count-cons u none (some t) es = refl
  entry_count-cons u (some s) none es = refl
  entry_count-cons u (some s) (some t) es = omega arith

  entry_count-ap :
      (u : Text) (e : Option Text) (xs ys : List (Option Text))
      → entry_count u xs ≡ entry_count u ys
      → entry_count u (e ∷ xs) ≡ entry_count u (e ∷ ys)
  entry_count-ap u none xs ys h = h
  entry_count-ap u (some s) xs ys h = omega arith

  entry_count-insert_entry :
      (u : Text) (e : Option Text) (es : List (Option Text))
      → entry_count u (insert_entry ip e es) ≡ entry_count u (e ∷ es)
  unfolding insert_entry
  entry_count-insert_entry u e [] = refl
  entry_count-insert_entry u e (d ∷ es) =
      elim (Bool-cases (ltb (entry_key ip d) (entry_key ip e))) [
        | inl lt ↦ rw lt (
            entry_count-ap u d (insert_entry ip e es) (e ∷ es) (entry_count-insert_entry u e es)
            ∙ entry_count-cons u d e es)
        | inr ge ↦ rw ge refl
      ]

  entry_count-sort_entries :
      (u : Text) (es : List (Option Text)) → entry_count u (sort_entries ip es) ≡ entry_count u es
  unfolding sort_entries
  entry_count-sort_entries u [] = refl
  entry_count-sort_entries u (e ∷ es) =
      entry_count-insert_entry u e (sort_entries ip es)
      ∙ entry_count-ap u e (sort_entries ip es) es (entry_count-sort_entries u es)

  entry_count-remove_entry :
      (u t : Text) (es : List (Option Text))
      → has_entry ip t es ≡ true
      → entry_count u (remove_entry ip t es) + (if text_eq t u then 1 else 0) ≡ entry_count u es
  unfolding has_entry remove_entry
  entry_count-remove_entry u t [] h = absurd (ground arith)
  entry_count-remove_entry u t (none ∷ es) h = entry_count-remove_entry u t es h
  entry_count-remove_entry u t (some s ∷ es) h = elim (Bool-cases (text_eq s t)) [
    | inl e ↦ let same : s ≡ t = (text_eq_iff s t).0 e in rw (e, same) (omega arith)
    | inr e ↦
        let rest = entry_count-remove_entry u t es (ground (arith, e, h)) in
        rw e (omega (arith, rest))
  ]

  All-insert_entry :
      (P : Option Text → Type 0) (e : Option Text) (es : List (Option Text))
      → P e
      → All P es
      → All P (insert_entry ip e es)
  unfolding insert_entry
  All-insert_entry P e [] p a = (p, tt)
  All-insert_entry P e (d ∷ es) p a = elim (Bool-cases (ltb (entry_key ip d) (entry_key ip e))) [
    | inl lt ↦ rw lt (a.0, All-insert_entry P e es p a.1)
    | inr ge ↦ rw ge (p, a)
  ]

  insert_entry-IsSorted :
      (e : Option Text) (es : List (Option Text)) → IsSorted es → IsSorted (insert_entry ip e es)
  unfolding insert_entry
  insert_entry-IsSorted e [] h = (tt, tt)
  insert_entry-IsSorted e (d ∷ es) h = elim (Bool-cases (ltb (entry_key ip d) (entry_key ip e))) [
    | inl lt ↦
        let le : entry_key ip d ≤ entry_key ip e = ground arith in
        rw lt (
          All-insert_entry (λ (x : Option Text). entry_key ip d ≤ entry_key ip x) e es le h.0,
          insert_entry-IsSorted e es h.1,
        )
    | inr ge ↦
        let le : entry_key ip e ≤ entry_key ip d = ground arith in
        rw ge (
          (
            le,
            All-map {Q = λ (x : Option Text). entry_key ip e ≤ entry_key ip x} es
                (λ x more. omega arith) h.0,
          ),
          h,
        )
  ]

  sort_entries-IsSorted : (es : List (Option Text)) → IsSorted (sort_entries ip es)
  unfolding sort_entries
  sort_entries-IsSorted [] = tt
  sort_entries-IsSorted (e ∷ es) =
      insert_entry-IsSorted e (sort_entries ip es) (sort_entries-IsSorted es)

  -- A release says true exactly where the address is an entry; then one entry of it is gone, and
  -- every other text stands among the entries as often as before.
  pub release_network-entry_count :
      (w : Network) (t u : Text)
      → ((release_network ip w t).1 ≡ has_entry ip t w.used_ips)
        × (entry_count u (release_network ip w t).0.used_ips
              + (if has_entry ip t w.used_ips && text_eq t u then 1 else 0)
            ≡ entry_count u w.used_ips)
  unfolding release_network
  release_network-entry_count w t u = elim (Bool-cases (has_entry ip t w.used_ips)) [
    | inl e ↦
        let count = entry_count-sort_entries u (remove_entry ip t w.used_ips) in
        let rest = entry_count-remove_entry u t w.used_ips e in
        rw e (refl, omega (arith, count, rest))
    | inr e ↦ rw e (refl, omega arith)
  ]

  -- A release of an address that is an entry leaves the entries sorted by address, in whatever
  -- order they stood; those that are no address count as 0.
  pub release_network-IsSorted :
      (w : Network) (t : Text)
      → (release_network ip w t).1 ≡ true
      → IsSorted (release_network ip w t).0.used_ips
  unfolding release_network
  release_network-IsSorted w t h = elim (Bool-cases (has_entry ip t w.used_ips)) [
    | inl e ↦ rw e (sort_entries-IsSorted _)
    | inr e ↦ absurd (let h' = rw e at h in cc)
  ]
