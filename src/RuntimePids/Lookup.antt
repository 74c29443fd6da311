-- ===== src/RuntimePids/Lookup.antt =====
-- What `lookup` of backend/app/services/runtime_pids.py finds after an entry is added or dropped.
use nova_ve.Prelude.{
  ℕ, ◌≡◌, refl, sym, ap, ◌∙◌, Bool, true, false, not, none, some, inl, inr, List, [], ◌∷◌, ◌++◌,
  Text, ◌==◌, if◌then◌else◌, arith, Bool-cases,
}
use nova_ve.RuntimePids.{
  PidEntry, RegistryFile, entries_of, read_registry, atomic_write, without_pid, is_known_kind,
  Registered, written, invalid_pid, unknown_kind, lock_timeout, unchanged, register, unregister,
  first_entry, lookup,
}

read_registry-atomic_write : (es : List PidEntry) → read_registry (atomic_write es) ≡ es
unfolding read_registry atomic_write entries_of
read_registry-atomic_write [] = refl
read_registry-atomic_write (e ∷ es) = ap (λ xs. e ∷ xs) (read_registry-atomic_write es)

first_entry-without_pid :
    (p q : ℕ) (es : List PidEntry)
    → first_entry q (without_pid p es) ≡ (if p == q then none else first_entry q es)
unfolding first_entry without_pid
first_entry-without_pid p q [] = ground arith
first_entry-without_pid p q (e ∷ es) = ground (arith, first_entry-without_pid p q es)

first_entry-append :
    (q : ℕ) (es fs : List PidEntry)
    → first_entry q es ≡ none
    → first_entry q (es ++ fs) ≡ first_entry q fs
unfolding first_entry
first_entry-append q [] fs h = refl
first_entry-append q (e ∷ es) fs h = ground (arith, first_entry-append q es fs)

first_entry-snoc_other :
    (q : ℕ) (es : List PidEntry) (e : PidEntry)
    → (e.pid == q) ≡ false
    → first_entry q (es ++ (e ∷ [])) ≡ first_entry q es
unfolding first_entry
first_entry-snoc_other q [] e h = rw h refl
first_entry-snoc_other q (d ∷ es) e h = ground (arith, first_entry-snoc_other q es e h)

-- The entry that `register` adds.
abbrev pub new_entry : ℕ → ℕ → Text → Text → ℕ → ℕ → PidEntry
new_entry now p kind lab_id node_id generation = record {
  pid = p;
  kind = kind;
  lab_id = lab_id;
  node_id = some node_id;
  started_at = now;
  generation = generation;
}

first_entry-added :
    (q : ℕ) (es : List PidEntry) (e : PidEntry)
    → first_entry q (without_pid e.pid es ++ (e ∷ []))
      ≡ (if e.pid == q then some e else first_entry q es)
unfolding first_entry
first_entry-added q es e = elim (Bool-cases (e.pid == q)) [
  | inl h ↦
      let gone : first_entry q (without_pid e.pid es) ≡ none =
        first_entry-without_pid e.pid q es ∙ rw h refl in
      first_entry-append q (without_pid e.pid es) (e ∷ []) gone ∙ rw h refl
  | inr h ↦
      first_entry-snoc_other q (without_pid e.pid es) e h
      ∙ first_entry-without_pid e.pid q es
      ∙ rw h refl
]

-- The parts of a result that is `written`.
written_if :
    (b : Bool) (r s : Registered) (f : RegistryFile)
    → (if b then r else s) ≡ written f
    → (r ≡ written f → ⊥)
    → s ≡ written f
written_if true r s f h never = absurd (never h)
written_if false r s f h never = h

pub lookup-register :
    (locked : Bool) (now p : ℕ) (kind lab_id : Text) (node_id generation : ℕ)
    (file f : RegistryFile) (q : ℕ)
    → register locked now p kind lab_id node_id generation file ≡ written f
    → lookup q f
      ≡ (if p == q then some (new_entry now p kind lab_id node_id generation) else lookup q file)
unfolding register lookup
lookup-register locked now p kind lab_id node_id generation file f q h =
    let e = new_entry now p kind lab_id node_id generation in
    let entries = without_pid p (read_registry file) ++ (e ∷ []) in
    let h1 = written_if (p == 0) invalid_pid _ f h (λ x. cc) in
    let h2 = written_if (not (is_known_kind kind)) unknown_kind _ f h1 (λ x. cc) in
    let h3 = written_if (not locked) lock_timeout _ f h2 (λ x. cc) in
    let same : atomic_write entries ≡ f = cc in
    ap (λ x. first_entry q (read_registry x)) (sym same)
    ∙ ap (first_entry q) (read_registry-atomic_write entries)
    ∙ first_entry-added q (read_registry file) e

pub lookup-unregister :
    (locked : Bool) (p : ℕ) (file f : RegistryFile) (q : ℕ)
    → unregister locked p file ≡ written f
    → lookup q f ≡ (if p == q then none else lookup q file)
unfolding unregister lookup
lookup-unregister locked p file f q h =
    let entries = without_pid p (read_registry file) in
    let h1 = written_if (p == 0) unchanged _ f h (λ x. cc) in
    let h2 = written_if (not locked) lock_timeout _ f h1 (λ x. cc) in
    let same : atomic_write entries ≡ f = cc in
    ap (λ x. first_entry q (read_registry x)) (sym same)
    ∙ ap (first_entry q) (read_registry-atomic_write entries)
    ∙ first_entry-without_pid p q (read_registry file)
