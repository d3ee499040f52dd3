-- ===== src/Ob/Handle.antt =====
-- NNXOSKRN/ob/handle.c: the chains of handle databases. A database is known by the address of its
-- chain entry, its first field; an object is its address, and 0 is NULL.
pub mod Counted
pub mod Create
pub mod Lookup
mod Tests
use nnxos.Prelude.{
  ℕ, zero, suc, ◌+◌, ◌*◌, ◌/◌, ◌%◌, ◌^◌, Bool, true, false, ◌&&◌, Option, none, some, ltb, leb,
  ◌==◌, if◌then◌else◌,
}
use nnxos.Ntlist.{Links, initialize_list_head, insert_head_list, update}

pub record Handles : Type 0 where
  pub links : Links
  pub object : ℕ → ℕ → ℕ
  pub handle_count : ℕ → ℕ

-- (4096 - 16) / 16
abbrev pub entries_per_handle_database : ℕ
entries_per_handle_database = 255

-- `ObInitHandleManager` on the chain; its lock is made by `initialize_spin_lock`.
unfoldable pub init_handle_manager : Handles → (head initial_database : ℕ) → Handles
init_handle_manager s head initial_database = record s {
  links = insert_head_list (initialize_list_head s.links head) head initial_database;
}

-- `ObpGetHandleDatabaseHead`: the process may be NULL.
unfoldable pub get_handle_database_head : (system_head : ℕ) → (process_head : Option ℕ) → ℕ
get_handle_database_head system_head none = system_head
get_handle_database_head system_head (some head) = head

unfoldable pub is_kernel_handle : ℕ → Bool
is_kernel_handle handle = handle % 2 == 1

-- The loop of `ObGetHandleDatabaseEntryFromHandle`, on fuel: the database and the index of the entry,
-- or `none` where `current` is NULL.
unfoldable pub find_entry :
    (fuel : ℕ) → Links → (current current_index handle_as_index : ℕ) → Option (Option (ℕ × ℕ))
find_entry zero m current current_index handle_as_index = none
find_entry (suc fuel) m current current_index handle_as_index =
    let rest =
      find_entry fuel m (m.next current) (current_index + entries_per_handle_database)
        handle_as_index in
    if current == 0
    then some none
    else if leb current_index handle_as_index
        && ltb handle_as_index (current_index + entries_per_handle_database)
    then some (some (current, handle_as_index % entries_per_handle_database))
    else rest

-- `ObGetHandleDatabaseEntryFromHandle`; the inner `none` is STATUS_INVALID_HANDLE.
unfoldable pub get_entry_from_handle :
    (fuel : ℕ) → Links → (handle database_head : ℕ) → Option (Option (ℕ × ℕ))
get_entry_from_handle fuel m handle database_head =
    if handle == 0 then some none else find_entry fuel m (m.next database_head) 0 (handle / 2)

-- The inner loop of `ObCreateHandle`, with `n` entries to go from entry `i` on.
unfoldable pub free_entry : (object : ℕ → ℕ) → (n i : ℕ) → Option ℕ
free_entry object zero i = none
free_entry object (suc n) i =
    let rest = free_entry object n (i + 1) in if object i == 0 then some i else rest

-- The outer loop, on fuel: the database, the entry and the index of the first free entry, or `none` at
-- the head.
unfoldable pub find_free :
    (fuel : ℕ) → Handles → (database_head current current_index : ℕ) → Option (Option (ℕ × ℕ × ℕ))
find_free zero s database_head current current_index = none
find_free (suc fuel) s database_head current current_index =
    let rest =
      find_free fuel s database_head (s.links.next current)
        (current_index + entries_per_handle_database) in
    if current == database_head
    then some none
    else elim (free_entry (s.object current) entries_per_handle_database 0) [
      | some i ↦ some (some (current, i, current_index + i))
      | none ↦ rest
    ]

abbrev pub handle_for : (index : ℕ) → (is_kernel_handle : Bool) → ℕ
handle_for index is_kernel_handle = index * 2 + (if is_kernel_handle then 1 else 0)

-- The writes at the entry found, and the handle.
unfoldable pub store_object :
    Handles
    → (is_kernel_handle : Bool) → (object : ℕ) → Option (Option (ℕ × ℕ × ℕ))
    → Option (Option ℕ × Handles)
store_object s is_kernel_handle object none = none
store_object s is_kernel_handle object (some none) = some (none, s)
store_object s is_kernel_handle object (some (some (database, i, index))) = some (
  some (handle_for index is_kernel_handle),
  record s {
    object = update s.object database (update (s.object database) i object);
    handle_count = update s.handle_count object ((s.handle_count object + 1) % 2 ^ 32);
  },
)

-- What `ObCreateHandle` does under HandleManagerLock: the handle, or STATUS_NO_MEMORY.
unfoldable pub create_handle_locked :
    (fuel : ℕ)
    → Handles
    → (database_head : ℕ) → (is_kernel_handle : Bool) → (object : ℕ) → Option (Option ℕ × Handles)
create_handle_locked fuel s database_head is_kernel_handle object =
    store_object s is_kernel_handle object
      (find_free fuel s database_head (s.links.next database_head) 0)
