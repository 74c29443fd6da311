-- ===== src/Ipam/Lowest.antt =====
-- Which address `_allocate_ip` of backend/app/services/network_service.py takes, and what the
-- network's record holds afterwards.
use nova_ve.Prelude.{
  ℕ, zero, suc, ◌+◌, ◌-◌, ◌^◌, ◌≤◌, ◌<◌, ◌≡◌, refl, ap, ◌∙◌, Bool, true, false, ◌&&◌, ◌||◌, Option,
  none, some, List, [], ◌∷◌, map, inl, inr, arith, Text, leb, ltb, ◌==◌, All, Bool-cases, any_of,
}
use nova_ve.Lab.{Network}
use nova_ve.Ipam.{
  IpAddress, NetworkServiceError, done, raised, subnet_exhausted, insert_address, is_used,
  offset_of, first_free, last_candidate, choose, add_used, used_addresses, record_used, allocated,
  allocate_in,
}

-- The chosen candidate is free, in the range, and those before it are used.
first_free-some :
    (used : List ℕ) (count k a : ℕ)
    → first_free used count k ≡ some a
    → (k ≤ a)
      × (a < k + count)
      × (is_used a used ≡ false)
      × ((b : ℕ) → k ≤ b → b < a → is_used b used ≡ true)
unfolding first_free
first_free-some used zero k a h = cc
first_free-some used (suc count) k a h = elim (Bool-cases (is_used k used)) [
  | inl e ↦
      let (lo, hi, free, before) = first_free-some used count (k + 1) a (ground (arith, e)) in
      (
        omega arith,
        omega arith,
        free,
        λ b ge lt. elim (Bool-cases (k == b)) [
          | inl f ↦ let same : k ≡ b = ground arith in rw (← same) e
          | inr f ↦ before b (ground arith) lt
        ],
      )
  | inr e ↦
      let same : k ≡ a = ground (arith, e) in
      (omega arith, omega arith, rw (← same) e, λ b ge lt. absurd (omega arith))
]

first_free-none :
    (used : List ℕ) (count k : ℕ)
    → first_free used count k ≡ none
    → (b : ℕ) → k ≤ b
    → b < k + count
    → is_used b used ≡ true
unfolding first_free
first_free-none used zero k h b ge lt = absurd (omega arith)
first_free-none used (suc count) k h b ge lt = elim (Bool-cases (is_used k used)) [
  | inl e ↦ elim (Bool-cases (k == b)) [
    | inl f ↦ let same : k ≡ b = ground arith in rw (← same) e
    | inr f ↦ first_free-none used count (k + 1) (ground (arith, e)) b (ground arith) (omega arith)
  ]
  | inr e ↦ absurd (ground (arith, e))
]

is_used-insert_address :
    (a b : ℕ) (bs : List ℕ) → is_used a (insert_address b bs) ≡ (b == a || is_used a bs)
unfolding insert_address
is_used-insert_address a b [] = ground arith
is_used-insert_address a b (c ∷ bs) = ground (arith, is_used-insert_address a b bs)

module _ (ip : IpAddress) where
  abbrev holds_address : ℕ → Option ℕ → Bool
  holds_address a none = false
  holds_address a (some b) = b == a

  abbrev entry_holds : ℕ → Option Text → Bool
  entry_holds a none = false
  entry_holds a (some t) = holds_address a (ip.parse t)

  -- Whether an entry of the record is the text of the address.
  abbrev pub holds : ℕ → List (Option Text) → Bool
  holds a = any_of (entry_holds a)

  is_used-add_used :
      (a first last : ℕ) (o : Option ℕ) (used : List ℕ)
      → is_used a (add_used first last o used)
        ≡ ((holds_address a o && (leb first a && leb a last)) || is_used a used)
  is_used-add_used a first last none used = refl
  is_used-add_used a first last (some b) used = ground (arith, is_used-insert_address a b used)

  is_used-used_addresses :
      (a first last : ℕ) (es : List (Option Text))
      → is_used a (used_addresses ip first last es) ≡ (holds a es && (leb first a && leb a last))
  unfolding used_addresses
  is_used-used_addresses a first last [] = refl
  is_used-used_addresses a first last (none ∷ es) = is_used-used_addresses a first last es
  is_used-used_addresses a first last (some t ∷ es) =
      is_used-add_used a first last (ip.parse t) (used_addresses ip first last es)
      ∙ ground (arith, is_used-used_addresses a first last es)

  -- The texts of a list of addresses hold those addresses.
  holds-show :
      (a : ℕ) (bs : List ℕ)
      → All (λ (b : ℕ). b < 2 ^ 32) bs
      → holds a (map (λ b. some (ip.show b)) bs) ≡ is_used a bs
  holds-show a [] h = refl
  holds-show a (b ∷ bs) h = rw (ip.parse-show b h.0) (ground (arith, holds-show a bs h.1))

  insert_address-All :
      (a : ℕ) (bs : List ℕ)
      → a < 2 ^ 32
      → All (λ (b : ℕ). b < 2 ^ 32) bs
      → All (λ (b : ℕ). b < 2 ^ 32) (insert_address a bs)
  unfolding insert_address
  insert_address-All a [] lt h = (lt, tt)
  insert_address-All a (b ∷ bs) lt h = elim (Bool-cases (ltb a b)) [
    | inl e ↦ rw e (lt, h)
    | inr e ↦ elim (Bool-cases (a == b)) [
      | inl f ↦ rw (e, f) h
      | inr f ↦ rw (e, f) (h.0, insert_address-All a bs lt h.1)
    ]
  ]

  add_used-All :
      (first last : ℕ) (o : Option ℕ) (used : List ℕ)
      → last < 2 ^ 32
      → All (λ (b : ℕ). b < 2 ^ 32) used
      → All (λ (b : ℕ). b < 2 ^ 32) (add_used first last o used)
  add_used-All first last none used lt h = h
  add_used-All first last (some a) used lt h = elim (Bool-cases (leb first a && leb a last)) [
    | inl e ↦ rw e (insert_address-All a used (ground arith) h)
    | inr e ↦ rw e h
  ]

  used_addresses-All :
      (first last : ℕ) (es : List (Option Text))
      → last < 2 ^ 32
      → All (λ (b : ℕ). b < 2 ^ 32) (used_addresses ip first last es)
  unfolding used_addresses
  used_addresses-All first last [] lt = tt
  used_addresses-All first last (none ∷ es) lt = used_addresses-All first last es lt
  used_addresses-All first last (some t ∷ es) lt =
      add_used-All first last (ip.parse t) (used_addresses ip first last es) lt
        (used_addresses-All first last es lt)

  abbrev pub first_candidate : Network → ℕ → ℕ
  first_candidate w first = first + offset_of w.first_offset

  last_candidate-le : (w : Network) (first last : ℕ) → last_candidate w first last ≤ last - 1
  unfolding last_candidate
  last_candidate-le w first last = ground arith

  taken :
      (w : Network) (used : List ℕ) (o : Option ℕ) (a : ℕ) (v : Network)
      → allocated ip w used o ≡ done (a, v)
      → (o ≡ some a) × (record_used ip w (insert_address a used) ≡ v)
  taken w used none a v h = cc
  taken w used (some b) a v h =
      let same : (b, record_used ip w (insert_address b used)) ≡ (a, v) = cc in
      let address = ap (λ (p : ℕ × Network). p.0) same in
      (ap some address, rw (← address) (ap (λ (p : ℕ × Network). p.1) same))

  -- An address that is allocated lies between the first and the last candidate, no entry of the
  -- network's record held it, and every candidate below it was held by one.
  pub allocate_in-Lowest :
      (w : Network) (first last a : ℕ) (v : Network)
      → allocate_in ip w first last ≡ done (a, v)
      → (first_candidate w first ≤ a)
        × (a ≤ last_candidate w first last)
        × (holds a w.used_ips ≡ false)
        × ((b : ℕ) → first_candidate w first ≤ b → b < a → holds b w.used_ips ≡ true)
  unfolding allocate_in choose
  allocate_in-Lowest w first last a v h =
      let used = used_addresses ip first last w.used_ips in
      let (chosen, same) = taken w used (choose w used first last) a v h in
      let (lo, hi, free, before) = first_free-some used _ _ a chosen in
      let top = last_candidate-le w first last in
      let le : a ≤ last_candidate w first last = omega arith in
      (
        lo,
        le,
        ground (arith, is_used-used_addresses a first last w.used_ips, free, le, top),
        λ b ge lt. ground (arith, is_used-used_addresses b first last w.used_ips, before b ge lt),
      )

  not_taken :
      (w : Network) (used : List ℕ) (o : Option ℕ) (x : NetworkServiceError)
      → allocated ip w used o ≡ raised x
      → (o ≡ none) × (x ≡ subnet_exhausted)
  not_taken w used none x h = (refl, cc)
  not_taken w used (some b) x h = cc

  -- The part of an allocation after the CIDR is read fails only where an entry of the network's
  -- record holds every address from the first candidate to the last.
  pub allocate_in-exhausted :
      (w : Network) (first last : ℕ) (x : NetworkServiceError)
      → allocate_in ip w first last ≡ raised x
      → (x ≡ subnet_exhausted)
        × ((b : ℕ)
            → first_candidate w first ≤ b
            → b ≤ last_candidate w first last
            → holds b w.used_ips ≡ true)
  unfolding allocate_in choose
  allocate_in-exhausted w first last x h =
      let used = used_addresses ip first last w.used_ips in
      let (gone, same) = not_taken w used (choose w used first last) x h in
      (
        same,
        λ b ge le.
            let here = first_free-none used _ _ gone b ge (omega arith) in
            ground (arith, is_used-used_addresses b first last w.used_ips, here),
      )

  -- After an allocation the network's record holds the address, the addresses of the network that
  -- it held before, and no other.
  pub allocate_in-holds :
      (w : Network) (first last a : ℕ) (v : Network)
      → last < 2 ^ 32
      → allocate_in ip w first last ≡ done (a, v)
      → (b : ℕ)
      → holds b v.used_ips ≡ (a == b || (holds b w.used_ips && (leb first b && leb b last)))
  unfolding allocate_in choose
  allocate_in-holds w first last a v lt h b =
      let used = used_addresses ip first last w.used_ips in
      let (chosen, same) = taken w used (choose w used first last) a v h in
      let (lo, hi, free, before) = first_free-some used _ _ a chosen in
      let top = last_candidate-le w first last in
      let small : a < 2 ^ 32 = omega arith in
      let all = insert_address-All a used small (used_addresses-All first last w.used_ips lt) in
      let ips : map (λ c. some (ip.show c)) (insert_address a used) ≡ v.used_ips =
        (unfold record_used in ap (λ (n : Network). n.used_ips) same) in
      rw (← ips) (
        holds-show b (insert_address a used) all
        ∙ (is_used-insert_address b a used
            ∙ ap (λ c. a == b || c) (is_used-used_addresses b first last w.used_ips)))
