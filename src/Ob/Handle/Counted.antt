-- ===== src/Ob/Handle/Counted.antt =====
-- Handles with the reference counts of their objects, NNXOSKRN/ob/handle.c and NNXOSKRN/ob/objects.c: what the
-- routines do under their locks. `none` is a lookup without enough fuel.
pub mod Answers
pub mod RoundTrip
use nnxos.Prelude.{
  ℕ, ◌+◌, ◌-◌, ◌%◌, ◌^◌, Bool, true, false, not, ◌||◌, ◌&&◌, Option, none, some, ◌==◌,
  if◌then◌else◌,
}
use nnxos.Ntlist.{update}
use nnxos.Ob.Handle.{
  Handles, is_kernel_handle, get_handle_database_head, get_entry_from_handle, create_handle_locked,
}

-- An object is deleted when its last reference goes.
pub record Objects : Type 0 where
  pub handles : Handles
  pub reference_count : ℕ → ℕ
  pub deleted : ℕ → Bool
  -- The attribute OBJ_KERNEL_HANDLE.
  pub kernel_only : ℕ → Bool

-- The heads of the system's chain and of the current process's chain.
pub record Heads : Type 0 where
  pub system : ℕ
  pub process : ℕ

unfoldable pub head_for : Heads → (is_kernel : Bool) → ℕ
unfolding get_handle_database_head
head_for heads is_kernel =
    get_handle_database_head heads.system (if is_kernel then none else some heads.process)

pub data Status : Type 0 where
  success invalid_handle access_denied invalid_parameter no_memory : Status

unfoldable pub reference_object : Objects → (object : ℕ) → Objects
reference_object s object = record s {
  reference_count = update s.reference_count object ((s.reference_count object + 1) % 2 ^ 32);
}

unfoldable pub dereference_object : Objects → (object : ℕ) → Objects
dereference_object s object =
    let count = (s.reference_count object + 2 ^ 32 - 1) % 2 ^ 32 in
    record s {
      reference_count = update s.reference_count object count;
      deleted = if count == 0 then update s.deleted object true else s.deleted;
    }

-- `ObCreateHandle`, for a place to put the handle; the handle is 0 on an error.
unfoldable pub create :
    (fuel : ℕ)
    → Objects
    → Heads
    → (is_user_mode is_kernel_handle : Bool) → (object : ℕ) → Option (Status × ℕ × Objects)
unfolding reference_object head_for
create fuel s heads is_user_mode is_kernel_handle object =
    let is_kernel = is_kernel_handle || s.kernel_only object in
    if object == 0
    then some (invalid_parameter, 0, s)
    else (if is_kernel && is_user_mode
        then some (access_denied, 0, s)
        else elim (create_handle_locked fuel s.handles (head_for heads is_kernel) is_kernel
            object) [
              | none ↦ none
              | some (none, t) ↦ some (no_memory, 0, record s { handles = t })
              | some (some handle, t) ↦
                  some (success, handle, reference_object (record s { handles = t }) object)
            ])

-- `ObCloseHandleByEntry`
unfoldable pub close_handle_by_entry : Objects → (database i : ℕ) → Objects
unfolding dereference_object
close_handle_by_entry s database i =
    let object = s.handles.object database i in
    let counted = record s {
      handles = record s.handles {
        handle_count =
            update s.handles.handle_count object
              ((s.handles.handle_count object + 2 ^ 32 - 1) % 2 ^ 32);
      };
    } in
    let t = dereference_object counted object in
    record t {
      handles = record t.handles {
        object = update t.handles.object database (update (t.handles.object database) i 0);
      };
    }

-- `ObCloseHandle`
unfoldable pub close_handle :
    (fuel : ℕ) → Objects → Heads → (is_user_mode : Bool) → (handle : ℕ) → Option (Status × Objects)
unfolding is_kernel_handle head_for
close_handle fuel s heads is_user_mode handle =
    if is_kernel_handle handle && is_user_mode
    then some (access_denied, s)
    else elim (get_entry_from_handle fuel s.handles.links handle
        (head_for heads (is_kernel_handle handle))) [
          | none ↦ none
          | some none ↦ some (invalid_handle, s)
          | some (some (database, i)) ↦
              if s.handles.object database i == 0
              then some (invalid_handle, s)
              else some (success, close_handle_by_entry s database i)
        ]

-- `ObExtractAndReferenceObjectFromHandle`: the object is 0 on an error.
unfoldable pub extract_and_reference_object :
    (fuel : ℕ)
    → Objects
    → Heads
    → (is_user_mode : Bool) → (handle : ℕ) → Option (Status × ℕ × Objects)
unfolding is_kernel_handle reference_object head_for
extract_and_reference_object fuel s heads is_user_mode handle =
    if handle == 0
    then some (invalid_handle, 0, s)
    else (if is_kernel_handle handle && is_user_mode
        then some (access_denied, 0, s)
        else elim (get_entry_from_handle fuel s.handles.links handle
            (head_for heads (is_kernel_handle handle))) [
              | none ↦ none
              | some none ↦ some (invalid_handle, 0, s)
              | some (some (database, i)) ↦
                  let object = s.handles.object database i in
                  if object == 0
                  then some (invalid_handle, 0, s)
                  else some (success, object, reference_object s object)
            ])

-- `ObCloneHandle`, for a place to put the handle
unfoldable pub clone_handle :
    (fuel : ℕ) → Objects → Heads → (handle : ℕ) → Option (Status × ℕ × Objects)
unfolding dereference_object
clone_handle fuel s heads handle = elim (extract_and_reference_object fuel s heads false handle) [
  | none ↦ none
  | some (success, object, t) ↦ elim (create fuel t heads false (is_kernel_handle handle) object) [
    | none ↦ none
    | some (status, cloned, u) ↦ some (status, cloned, dereference_object u object)
  ]
  | some (other, object, t) ↦ some (other, 0, t)
]
