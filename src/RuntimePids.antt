-- ===== src/RuntimePids.antt =====
-- backend/app/services/runtime_pids.py: the registry of runtime pids, a JSON file that the backend
-- writes under a lock and that the privileged helper reads.
pub mod Lookup
pub mod Authorized
mod Tests
use nova_ve.Prelude.{
  ℕ, Bool, true, false, not, ◌&&◌, ◌||◌, Option, none, some, List, [], ◌∷◌, ◌++◌, Text, codes,
  text_eq, ◌==◌, if◌then◌else◌, keep_if,
}

-- An entry of the file; an absent `lab_id` is the empty text, and a `node_id` that `int` refuses is
-- `none`.
pub record PidEntry : Type 0 where
  pub pid : ℕ
  pub kind : Text
  pub lab_id : Text
  pub node_id : Option ℕ
  pub started_at : ℕ
  pub generation : ℕ

-- An item of the list in the file: a dict with an integer pid, or anything else.
pub data RegistryItem : Type 0 where
  entry : PidEntry → RegistryItem
  no_entry : RegistryItem

-- What `read_text` and `json.loads` make of the file.
pub data RegistryFile : Type 0 where
  missing unreadable corrupted no_list : RegistryFile
  json_list : List RegistryItem → RegistryFile

unfoldable pub entries_of : List RegistryItem → List PidEntry
entries_of [] = []
entries_of (entry e ∷ items) = e ∷ entries_of items
entries_of (no_entry ∷ items) = entries_of items

-- `_read_registry`
unfoldable pub read_registry : RegistryFile → List PidEntry
read_registry missing = []
read_registry unreadable = []
read_registry corrupted = []
read_registry no_list = []
read_registry (json_list items) = entries_of items

abbrev pub items_of : List PidEntry → List RegistryItem
items_of [] = []
items_of (e ∷ es) = entry e ∷ items_of es

-- `_atomic_write`: the new content of the file
unfoldable pub atomic_write : List PidEntry → RegistryFile
atomic_write es = json_list (items_of es)

-- `[e for e in _read_registry() if e.get("pid") != pid]`
unfoldable pub without_pid : ℕ → List PidEntry → List PidEntry
without_pid p es = keep_if (λ e. not (e.pid == p)) es

-- What a call does: it raises, or it leaves the file as given.
pub data Registered : Type 0 where
  invalid_pid : Registered
  unknown_kind : Registered
  lock_timeout : Registered
  written : RegistryFile → Registered
  unchanged : Registered

abbrev pub is_known_kind : Text → Bool
is_known_kind kind =
    text_eq kind (codes "docker") || (text_eq kind (codes "qemu") || text_eq kind (codes "iol"))

-- `register`, told whether the lock is got in time and what the clock shows
unfoldable pub register : Bool → ℕ → ℕ → Text → Text → ℕ → ℕ → RegistryFile → Registered
register locked now p kind lab_id node_id generation file =
    let new : PidEntry = record {
      pid = p;
      kind = kind;
      lab_id = lab_id;
      node_id = some node_id;
      started_at = now;
      generation = generation;
    } in
    if p == 0
    then invalid_pid
    else if not (is_known_kind kind)
    then unknown_kind
    else if not locked
    then lock_timeout
    else written (atomic_write (without_pid p (read_registry file) ++ (new ∷ [])))

unfoldable pub unregister : Bool → ℕ → RegistryFile → Registered
unregister locked p file =
    if p == 0
    then unchanged
    else if not locked
    then lock_timeout
    else written (atomic_write (without_pid p (read_registry file)))

-- The file after a call.
abbrev pub file_after : Registered → RegistryFile → RegistryFile
file_after invalid_pid file = file
file_after unknown_kind file = file
file_after lock_timeout file = file
file_after (written file') file = file'
file_after unchanged file = file

unfoldable pub first_entry : ℕ → List PidEntry → Option PidEntry
first_entry p [] = none
first_entry p (e ∷ es) = if e.pid == p then some e else first_entry p es

unfoldable pub lookup : ℕ → RegistryFile → Option PidEntry
lookup p file = first_entry p (read_registry file)

unfoldable pub list_entries : RegistryFile → List PidEntry
list_entries file = read_registry file
