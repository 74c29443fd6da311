-- ===== src/WsHub/Subscribers.antt =====
-- Who is subscribed to a lab after each operation of ws_hub.py.
use nova_ve.Prelude.Dict.{get-put}
use nova_ve.Prelude.{
  ℕ, ◌≡◌, refl, sym, ap, ◌∙◌, Bool, not, ◌&&◌, ◌||◌, Option, none, some, List, [], ◌∷◌, inl, inr,
  arith, Text, text_eq, text_eq_iff, ◌==◌, if◌then◌else◌, keep_if, Bool-cases,
}
use nova_ve.WsHub.{
  LabState, WsHub, fresh_state, has_member, set_add, set_discard, discard_all, state_of,
  get_or_create, store_state, publish_locked, drop_dead, publish, subscribe, unsubscribe,
}

has_member-keep_if :
    (test : ℕ → Bool) (w : ℕ) (subs : List ℕ)
    → has_member w (keep_if test subs) ≡ (has_member w subs && test w)
has_member-keep_if test w [] = refl
has_member-keep_if test w (s ∷ subs) = elim (Bool-cases (s == w)) [
  | inl e ↦ let p : s ≡ w = ground arith in rw p (ground (arith, has_member-keep_if test w subs))
  | inr e ↦ ground (arith, has_member-keep_if test w subs)
]

has_member-discard_all :
    (dead : List ℕ) (w : ℕ) (subs : List ℕ)
    → has_member w (discard_all dead subs) ≡ (has_member w subs && not (has_member w dead))
unfolding discard_all set_discard
has_member-discard_all [] w subs = ground arith
has_member-discard_all (ws ∷ dead) w subs = ground (
  arith,
  has_member-discard_all dead w (keep_if (λ s. not (s == ws)) subs),
  has_member-keep_if (λ s. not (s == ws)) w subs,
)

discard_all_nil : (dead : List ℕ) → discard_all dead [] ≡ []
unfolding discard_all set_discard
discard_all_nil [] = refl
discard_all_nil (ws ∷ dead) = discard_all_nil dead

has_member-set_add :
    (ws w : ℕ) (subs : List ℕ) → has_member w (set_add ws subs) ≡ (has_member w subs || ws == w)
unfolding set_add
has_member-set_add ws w subs = elim (Bool-cases (has_member ws subs)) [
  | inl old ↦ elim (Bool-cases (ws == w)) [
    | inl e ↦ let p : ws ≡ w = ground arith in rw old (rw p at old ∙ ground arith)
    | inr e ↦ ground arith
  ]
  | inr new ↦ ground arith
]

module _ {P : Type 0} where
  subs_in : Option (LabState P) → List ℕ
  subs_in o = elim o [ none ↦ [] | some s ↦ s.subscribers ]

  unfoldable pub subs_of : WsHub P → Text → List ℕ
  unfolding subs_in
  subs_of hub lab = subs_in (state_of hub lab)

  -- `ws in hub._labs[lab].subscribers`
  abbrev pub is_subscribed : WsHub P → Text → ℕ → Bool
  is_subscribed hub lab w = has_member w (subs_of hub lab)

  subs_of-store_state :
      (hub : WsHub P) (l lab : Text) (s : LabState P)
      → subs_of (store_state hub l s) lab
        ≡ (if text_eq l lab then s.subscribers else subs_of hub lab)
  unfolding subs_of store_state state_of
  subs_of-store_state hub l lab s = rw (get-put text_eq text_eq_iff l lab s hub.labs) (ground arith)

  -- The subscribers that `get_or_create` shows are those of the lab.
  subs_of-get_or_create :
      (hub : WsHub P) (l : Text) → (get_or_create hub l).subscribers ≡ subs_of hub l
  unfolding get_or_create subs_of
  subs_of-get_or_create hub l = go (state_of hub l)
    where
      go :
          (o : Option (LabState P))
          → (let s : LabState P = elim o [ none ↦ fresh_state | some s ↦ s ] in s.subscribers)
            ≡ subs_in o
      go none = refl
      go (some s) = refl

  subs_of_found :
      (hub : WsHub P) (l : Text) (o : Option (LabState P))
      → state_of hub l ≡ o
      → subs_of hub l ≡ subs_in o
  unfolding subs_of
  subs_of_found hub l o e = ap subs_in e

  -- The state found, stored back with its subscribers changed by an `f` that keeps the empty set.
  subs_of_update :
      (hub : WsHub P) (l lab : Text) (f : List ℕ → List ℕ)
      → f [] ≡ []
      → (let hub' : WsHub P = elim (state_of hub l) [
        | none ↦ hub
        | some s ↦ store_state hub l (record s { subscribers = f s.subscribers })
      ] in
          subs_of hub' lab)
        ≡ (if text_eq l lab then f (subs_of hub l) else subs_of hub lab)
  unfolding subs_in
  subs_of_update hub l lab f z = go (state_of hub l) refl
    where
      go :
          (o : Option (LabState P))
          → state_of hub l ≡ o
          → (let hub' : WsHub P = elim o [
            | none ↦ hub
            | some s ↦ store_state hub l (record s { subscribers = f s.subscribers })
          ] in
              subs_of hub' lab)
            ≡ (if text_eq l lab then f (subs_of hub l) else subs_of hub lab)
      go none e = elim (Bool-cases (text_eq l lab)) [
        | inl same ↦ rw (same, ← (text_eq_iff l lab).0 same, subs_of_found hub l none e) (sym z)
        | inr other ↦ rw other refl
      ]
      go (some s) e =
          subs_of-store_state hub l lab _
          ∙ ap (λ t. if text_eq l lab then f t else subs_of hub lab)
              (sym (subs_of_found hub l (some s) e))

  subs_of-drop_dead :
      (hub : WsHub P) (l lab : Text) (dead : List ℕ)
      → subs_of (drop_dead hub l dead) lab
        ≡ (if text_eq l lab then discard_all dead (subs_of hub l) else subs_of hub lab)
  unfolding drop_dead discard_all
  subs_of-drop_dead hub l lab [] = ground (arith, ap (subs_of hub), (text_eq_iff l lab).0)
  subs_of-drop_dead hub l lab (ws ∷ dead) =
      subs_of_update hub l lab (discard_all (ws ∷ dead)) (discard_all_nil (ws ∷ dead))

  subs_of-publish_locked :
      (hub : WsHub P) (l t : Text) (p : P) (rev lab : Text)
      → subs_of (publish_locked hub l t p rev).0 lab ≡ subs_of hub lab
  unfolding publish_locked
  subs_of-publish_locked hub l t p rev lab =
      subs_of-store_state hub l lab _ ∙ elim (Bool-cases (text_eq l lab)) [
        | inl same ↦
            rw (same, subs_of-get_or_create hub l) (ap (subs_of hub) ((text_eq_iff l lab).0 same))
        | inr other ↦ rw other refl
      ]

  recipients :
      (hub : WsHub P) (l t : Text) (p : P) (rev : Text)
      → (publish_locked hub l t p rev).2 ≡ subs_of hub l
  unfolding publish_locked
  recipients hub l t p rev = subs_of-get_or_create hub l

  -- After a publish, of the sockets subscribed to the published lab exactly those are left that
  -- took the message; the subscribers of every other lab are unchanged.
  pub is_subscribed-publish :
      (send : ℕ → Bool) (hub : WsHub P) (l t : Text) (p : P) (rev lab : Text) (w : ℕ)
      → is_subscribed (publish send hub l t p rev).0 lab w
        ≡ (if text_eq l lab then is_subscribed hub lab w && send w else is_subscribed hub lab w)
  unfolding publish
  is_subscribed-publish send hub l t p rev lab w =
      let subs = subs_of hub l in
      let dead = keep_if (λ ws. not (send ws)) subs in
      rw (recipients hub l t p rev, subs_of-drop_dead, subs_of-publish_locked hub l t p rev)
        (elim (Bool-cases (text_eq l lab)) [
          | inl same ↦
              rw (same, ← (text_eq_iff l lab).0 same)
                (ground (
                  arith,
                  has_member-discard_all dead w subs,
                  has_member-keep_if (λ ws. not (send ws)) w subs,
                ))
          | inr other ↦ rw other (ap (has_member w) (subs_of-publish_locked hub l t p rev lab))
        ])

  -- A subscribe adds the socket to its lab, and an unsubscribe takes it away; neither changes who
  -- else is subscribed, there or to another lab.
  pub is_subscribed-subscribe :
      (hub : WsHub P) (l lab : Text) (ws w : ℕ)
      → (is_subscribed (subscribe hub l ws) lab w
          ≡ (is_subscribed hub lab w || (text_eq l lab && ws == w)))
        × (is_subscribed (unsubscribe hub l ws) lab w
            ≡ (is_subscribed hub lab w && not (text_eq l lab && ws == w)))
  unfolding subscribe unsubscribe set_discard
  is_subscribed-subscribe hub l lab ws w = (
    rw (subs_of-store_state, subs_of-get_or_create)
        (elim (Bool-cases (text_eq l lab)) [
          | inl same ↦
              rw (same, ← (text_eq_iff l lab).0 same)
                (ground (arith, has_member-set_add ws w (subs_of hub l)))
          | inr other ↦ rw other (ground arith)
        ]),
    rw (subs_of_update hub l lab (set_discard ws) refl) (elim (Bool-cases (text_eq l lab)) [
      | inl same ↦
          rw (same, ← (text_eq_iff l lab).0 same)
            (ground (arith, has_member-keep_if (λ s. not (s == ws)) w (subs_of hub l)))
      | inr other ↦ rw other (ground arith)
    ]),
  )
