-- ===== src/NetHelper/Hoare.antt =====
-- Reasoning on the programs of NetHelper: checks, which leave the trace and tell about their result,
-- actions, which cannot be refused, and whole verbs, which check first.
use nova_ve.Prelude.{
  ◌≡◌, refl, sym, subst, Bool, true, false, Option, none, some, List, [], ◌∷◌, Text, All,
  All-append, if◌then◌else◌,
}
use nova_ve.NetHelper.Patterns.{Pattern, matches}
use nova_ve.NetHelper.Checks.{
  Effect, ran, captured, Host, Outcome, finished, invalid, crashed, crash, call_or_crash, Helper,
  pure, bind_outcome, ◌>>=◌, raise, raise_if, check_regex, some_or_raise, run, run_capture, call,
  read_text,
}

-- The outcome of a check from the trace `t`
abbrev pub Checked {ℓ} : {A : Type ℓ} → (A → Type 0) → List Effect → Outcome A → Type 0
Checked Q t (finished a t') = (t' ≡ t) × Q a
Checked Q t (invalid label t') = t' ≡ t
Checked Q t (crashed t') = ⊥

pub record IsCheck {ℓ} {A : Type ℓ} (Q : A → Type 0) (m : Helper A) : Type 0 where
  pub checked : (t : List Effect) → Checked Q t (m t)

-- What a check tells about a value that it let pass
module _ {ℓ} {A : Type ℓ} where
  checked_value :
      (Q : A → Type 0) (t t' : List Effect) (o : Outcome A) (a : A)
      → o ≡ finished a t'
      → Checked Q t o
      → Q a
  checked_value Q t t' (finished b t1) a e (same, q) = let f : b ≡ a = cc in subst Q f q
  checked_value Q t t' (invalid label t1) a e same = cc
  checked_value Q t t' (crashed t1) a e same = absurd same

  pub checked-finished :
      {Q : A → Type 0} {m : Helper A} (t t' : List Effect) (a : A)
      → IsCheck Q m
      → m t ≡ finished a t'
      → Q a
  checked-finished {Q = Q} {m = m} t t' a h e = checked_value Q t t' (m t) a e (h.checked t)

-- The outcome of an action, with what holds of each effect
abbrev pub Acted {ℓ} : {A : Type ℓ} → (Effect → Type 0) → Outcome A → Type 0
Acted G (finished a t') = All G t'
Acted G (invalid label t') = ⊥
Acted G (crashed t') = All G t'

pub record IsAction {ℓ} {A : Type ℓ} (G : Effect → Type 0) (m : Helper A) : Type 0 where
  pub acted : (t : List Effect) → All G t → Acted G (m t)

-- The outcome of a verb: its effects are as required, and a refusal leaves the trace.
abbrev pub Ended {ℓ} : {A : Type ℓ} → (Effect → Type 0) → List Effect → Outcome A → Type 0
Ended G t (finished a t') = All G t'
Ended G t (invalid label t') = t' ≡ t
Ended G t (crashed t') = All G t'

pub record IsGuarded {ℓ} {A : Type ℓ} (G : Effect → Type 0) (m : Helper A) : Type 0 where
  pub ended : (t : List Effect) → All G t → Ended G t (m t)

module _ {ℓ κ} {A : Type ℓ} {B : Type κ} where
  bind-Checked :
      (Q : A → Type 0) (R : B → Type 0) (t : List Effect) (o : Outcome A) (f : A → Helper B)
      → Checked Q t o
      → ((a : A) → Q a → IsCheck R (f a))
      → Checked R t (bind_outcome o f)
  bind-Checked Q R t (finished a t') f (e, q) hf =
      subst (λ x. Checked R x (f a t')) e ((hf a q).checked t')
  bind-Checked Q R t (invalid label t') f e hf = e
  bind-Checked Q R t (crashed t') f e hf = e

  pub bind-IsCheck :
      {Q : A → Type 0} {R : B → Type 0} {m : Helper A} (f : A → Helper B)
      → IsCheck Q m
      → ((a : A) → Q a → IsCheck R (f a))
      → IsCheck R (m >>= f)
  unfolding ◌>>=◌
  bind-IsCheck {Q = Q} {R = R} {m = m} f hm hf = record {
    checked = λ t. bind-Checked Q R t (m t) f (hm.checked t) hf;
  }

  bind-Acted :
      (G : Effect → Type 0) (o : Outcome A) (f : A → Helper B)
      → Acted G o
      → ((a : A) → IsAction G (f a))
      → Acted G (bind_outcome o f)
  bind-Acted G (finished a t') f g hf = (hf a).acted t' g
  bind-Acted G (invalid label t') f g hf = absurd g
  bind-Acted G (crashed t') f g hf = g

  pub bind-IsAction :
      {G : Effect → Type 0} {m : Helper A} (f : A → Helper B)
      → IsAction G m
      → ((a : A) → IsAction G (f a))
      → IsAction G (m >>= f)
  unfolding ◌>>=◌
  bind-IsAction {G = G} {m = m} f hm hf = record {
    acted = λ t g. bind-Acted G (m t) f (hm.acted t g) hf;
  }

  bind-Ended :
      (Q : A → Type 0) (G : Effect → Type 0) (t : List Effect) (o : Outcome A) (f : A → Helper B)
      → All G t
      → Checked Q t o
      → ((a : A) → Q a → IsGuarded G (f a))
      → Ended G t (bind_outcome o f)
  bind-Ended Q G t (finished a t') f g (e, q) hf =
      subst (λ x. Ended G x (f a t')) e ((hf a q).ended t' (subst (All G) (sym e) g))
  bind-Ended Q G t (invalid label t') f g e hf = e
  bind-Ended Q G t (crashed t') f g e hf = absurd e

  pub bind-IsGuarded :
      {Q : A → Type 0} {G : Effect → Type 0} {m : Helper A} (f : A → Helper B)
      → IsCheck Q m
      → ((a : A) → Q a → IsGuarded G (f a))
      → IsGuarded G (m >>= f)
  unfolding ◌>>=◌
  bind-IsGuarded {Q = Q} {G = G} {m = m} f hm hf = record {
    ended = λ t g. bind-Ended Q G t (m t) f g (hm.checked t) hf;
  }

module _ {ℓ} {A : Type ℓ} where
  Acted-Ended : (G : Effect → Type 0) (t : List Effect) (o : Outcome A) → Acted G o → Ended G t o
  Acted-Ended G t (finished a t') g = g
  Acted-Ended G t (invalid label t') g = absurd g
  Acted-Ended G t (crashed t') g = g

  pub IsAction-IsGuarded : {G : Effect → Type 0} {m : Helper A} → IsAction G m → IsGuarded G m
  IsAction-IsGuarded {G = G} {m = m} h = record {
    ended = λ t g. Acted-Ended G t (m t) (h.acted t g);
  }

  pub pure-IsCheck : {Q : A → Type 0} (a : A) → Q a → IsCheck Q (pure a)
  unfolding pure
  pure-IsCheck a q = record { checked = λ t. (refl, q) }

  pub raise-IsCheck : {Q : A → Type 0} (label : Text) → IsCheck Q (raise label)
  unfolding raise
  raise-IsCheck label = record { checked = λ t. refl }

  pub raise-IsGuarded : {G : Effect → Type 0} (label : Text) → IsGuarded {A = A} G (raise label)
  unfolding raise
  raise-IsGuarded label = record { ended = λ t g. refl }

  -- Both branches of a conditional
  pub if-IsAction :
      {G : Effect → Type 0} (b : Bool) (m n : Helper A)
      → IsAction G m
      → IsAction G n
      → IsAction G (if b then m else n)
  if-IsAction true m n hm hn = hm
  if-IsAction false m n hm hn = hn

  pub if-IsCheck :
      {Q : A → Type 0} (b : Bool) (m n : Helper A)
      → IsCheck Q m
      → IsCheck Q n
      → IsCheck Q (if b then m else n)
  if-IsCheck true m n hm hn = hm
  if-IsCheck false m n hm hn = hn

  pub pure-IsAction : {G : Effect → Type 0} (a : A) → IsAction G (pure a)
  unfolding pure
  pure-IsAction a = record { acted = λ t g. g }

  pub crash-IsAction : {G : Effect → Type 0} → IsAction {A = A} G crash
  unfolding crash
  crash-IsAction = record { acted = λ t g. g }

weaken :
    {A : Type 0} (Q R : A → Type 0) (t : List Effect) (o : Outcome A)
    → ((a : A) → Q a → R a)
    → Checked Q t o
    → Checked R t o
weaken Q R t (finished a t') f (e, q) = (e, f a q)
weaken Q R t (invalid label t') f e = e
weaken Q R t (crashed t') f e = e

pub checked_weaken :
    {A : Type 0} {Q R : A → Type 0} {m : Helper A}
    → ((a : A) → Q a → R a)
    → IsCheck Q m
    → IsCheck R m
checked_weaken {Q = Q} {R = R} {m = m} f hm = record {
  checked = λ t. weaken Q R t (m t) f (hm.checked t);
}

some_or_raise-Checked :
    {A : Type 0} (label : Text) (o : Option A) (t : List Effect)
    → Checked (λ a. o ≡ some a) t (some_or_raise label o t)
unfolding some_or_raise
some_or_raise-Checked label none t = refl
some_or_raise-Checked label (some a) t = (refl, refl)

pub some_or_raise-IsCheck :
    {A : Type 0} (label : Text) (o : Option A) → IsCheck (λ a. o ≡ some a) (some_or_raise label o)
some_or_raise-IsCheck label o = record { checked = λ t. some_or_raise-Checked label o t }

raise_if-Checked :
    (b : Bool) (label : Text) (t : List Effect) → Checked (λ u. b ≡ false) t (raise_if b label t)
unfolding raise_if
raise_if-Checked true label t = refl
raise_if-Checked false label t = (refl, refl)

pub raise_if-IsCheck : (b : Bool) (label : Text) → IsCheck (λ u. b ≡ false) (raise_if b label)
raise_if-IsCheck b label = record { checked = λ t. raise_if-Checked b label t }

test-Checked :
    (P : Text → Bool) (value label : Text) (b : Bool) (t : List Effect)
    → P value ≡ b
    → Checked (λ s. P s ≡ true) t (if b then finished value t else invalid label t)
test-Checked P value label true t e = (refl, e)
test-Checked P value label false t e = refl

-- A text that is given back as it was, where a test holds of it.
pub test-IsCheck :
    (P : Text → Bool) (value label : Text)
    → IsCheck (λ s. P s ≡ true) (λ t. if P value then finished value t else invalid label t)
test-IsCheck P value label = record { checked = λ t. test-Checked P value label (P value) t refl }

pub check_regex-IsCheck :
    (value : Text) (p : Pattern) (label : Text)
    → IsCheck (λ s. matches p s ≡ true) (check_regex value p label)
unfolding check_regex
check_regex-IsCheck value p label = test-IsCheck (matches p) value label

module _ (h : Host) where
  pub run-IsAction :
      {G : Effect → Type 0} (argv : List Text) → G (ran argv) → IsAction G (run h argv)
  unfolding run
  run-IsAction {G = G} argv e = record { acted = λ t g. All-append G t (ran argv ∷ []) g (e, tt) }

  pub run_capture-IsAction :
      {G : Effect → Type 0} (argv : List Text) → G (captured argv) → IsAction G (run_capture h argv)
  unfolding run_capture
  run_capture-IsAction {G = G} argv e = record {
    acted = λ t g. All-append G t (captured argv ∷ []) g (e, tt);
  }

  pub call-IsAction : {G : Effect → Type 0} (c : Effect) → G c → IsAction G (call h c)
  unfolding call
  call-IsAction {G = G} c e = record { acted = λ t g. All-append G t (c ∷ []) g (e, tt) }

  pub call_or_crash-IsAction :
      {G : Effect → Type 0} (c : Effect) → G c → IsAction G (call_or_crash h c)
  call_or_crash-IsAction c e =
      bind-IsAction _ (call-IsAction c e)
        λ done. if-IsAction done _ _ (pure-IsAction tt) crash-IsAction

  -- A text that is read is what the file holds after the effects so far.
  pub read_text-IsAction {ℓ} :
      {A : Type ℓ} {G : Effect → Type 0} (path : Text) (f : Option Text → Helper A)
      → ((t : List Effect) (raw : Option Text) → h.file_text t path ≡ raw → IsAction G (f raw))
      → IsAction G (read_text h path >>= f)
  unfolding read_text ◌>>=◌
  read_text-IsAction path f hf = record {
    acted = λ t g. (hf t (h.file_text t path) refl).acted t g;
  }
