-- ===== src/Iol/FreeId.antt =====
-- Which application id backend/app/services/runtime/iol.py takes.
use nova_ve.Prelude.{
  ℕ, zero, suc, ◌+◌, ◌-◌, ◌%◌, ◌≤◌, ◌<◌, ◌≡◌, subst, inl, inr, Bool, true, false, none, some, List,
  ◌==◌, any_of, arith, Bool-cases, Option-cases, ◌⊎◌,
}
use nova_ve.Iol.{candidate_id, first_free_id, application_id}

abbrev pub is_active : List ℕ → ℕ → Bool
is_active active i = any_of (λ j. j == i) active

first_free_id-some :
    (active : List ℕ) (start rounds offset i : ℕ)
    → first_free_id active start rounds offset ≡ some i
    → (1 ≤ i) × (i ≤ 512) × (is_active active i ≡ false)
unfolding first_free_id
first_free_id-some active start zero offset i h = cc
first_free_id-some active start (suc rounds) offset i h =
    elim (Bool-cases (is_active active (candidate_id start offset))) [
      | inl e ↦ first_free_id-some active start rounds (offset + 1) i (ground (arith, e))
      | inr e ↦
          let same : candidate_id start offset ≡ i = ground (arith, e) in
          (omega arith, omega arith, subst (λ j. is_active active j ≡ false) same e)
    ]

first_free_id-none :
    (active : List ℕ) (start rounds offset : ℕ)
    → first_free_id active start rounds offset ≡ none
    → (k : ℕ) → offset ≤ k
    → k < offset + rounds
    → is_active active (candidate_id start k) ≡ true
unfolding first_free_id
first_free_id-none active start zero offset h k lo hi = absurd (omega arith)
first_free_id-none active start (suc rounds) offset h k lo hi =
    elim (Bool-cases (is_active active (candidate_id start offset))) [
      | inl e ↦ elim (Bool-cases (offset == k)) [
        | inl f ↦
            let same : offset ≡ k = ground arith in
            subst (λ j. is_active active (candidate_id start j) ≡ true) same e
        | inr f ↦
            first_free_id-none active start rounds (offset + 1) (ground (arith, e)) k (ground arith)
              (omega arith)
      ]
      | inr e ↦ absurd (ground (arith, e))
    ]

-- Every id is met in one of the 512 rounds.
candidate_id_met :
    (digest i : ℕ)
    → 1 ≤ i
    → i ≤ 512
    → candidate_id (digest % 512 + 1) ((i + 511 - digest % 512) % 512) ≡ i
candidate_id_met digest i lo hi = omega arith

-- Where an application id is returned, it is from 1 to 512 and no active one.
application_id-free :
    (digest : ℕ) (active : List ℕ) (i : ℕ)
    → application_id digest active ≡ some i
    → (1 ≤ i) × (i ≤ 512) × (is_active active i ≡ false)
unfolding application_id
application_id-free digest active i h = first_free_id-some active (digest % 512 + 1) 512 0 i h

-- Whatever the digest, an application id from 1 to 512 that is not active is found, or all of them
-- are active.
pub application_id-total :
    (digest : ℕ) (active : List ℕ)
    → ((i : ℕ) × (application_id digest active ≡ some i)
        × (1 ≤ i)
        × (i ≤ 512)
        × (is_active active i ≡ false))
      ⊎ ((application_id digest active ≡ none)
          × ((i : ℕ) → 1 ≤ i → i ≤ 512 → is_active active i ≡ true))
unfolding application_id
application_id-total digest active = elim (Option-cases (application_id digest active)) [
  | inl e ↦ inr (
    e,
    λ i lo hi.
        subst (λ j. is_active active j ≡ true) (candidate_id_met digest i lo hi)
          (first_free_id-none active (digest % 512 + 1) 512 0 e ((i + 511 - digest % 512) % 512)
            (omega arith) (omega arith)),
  )
  | inr (i, e) ↦
      let (lo, hi, free) = application_id-free digest active i e in inl (i, e, lo, hi, free)
]
