-- ===== src/Ob/Handle/Counted/Answers.antt =====
-- `ObCreateHandle` of NNXOSKRN/ob/handle.c as a whole, with its checks and the reference of the object.
use nnxos.Prelude.{
  ℕ, ◌+◌, ◌%◌, ◌^◌, ◌<◌, ◌≡◌, ◌≢◌, refl, ◌⊎◌, inl, inr, Bool, true, false, ◌&&◌, ◌||◌, Option, none,
  some, List, ◌∷◌, arith, length, ◌==◌, Bool-cases,
}
use nnxos.Ntlist.{update}
use nnxos.Ntlist.Ring.Defs.{has, IsRing}
use nnxos.Ob.Handle.{Handles, get_entry_from_handle}
use nnxos.Ob.Handle.Lookup.{NoneNull}
use nnxos.Ob.Handle.Create.{Creates, no_memory, created, create_handle_locked-Creates}
use nnxos.Ob.Handle.Counted.{
  Objects, Status, success, invalid_parameter, access_denied, Heads, head_for, create,
  reference_object,
}

-- The outcomes of a call, for the chain `xs` of databases at `head`.
pub data Answers (fuel : ℕ) (s : Objects) (head : ℕ) (xs : List ℕ) (refused : Bool) (object : ℕ)
    : Option (Status × ℕ × Objects) → Type 0 where
  null_object : object ≡ 0 → Answers fuel s head xs refused object (some (invalid_parameter, 0, s))
  denied :
      object ≢ 0
      → refused ≡ true
      → Answers fuel s head xs refused object (some (access_denied, 0, s))
  full :
      object ≢ 0
      → refused ≡ false
      → ((d k : ℕ) → has d xs ≡ true → k < 255 → s.handles.object d k ≢ 0)
      → Answers fuel s head xs refused object (some (Status.no_memory, 0, s))
  stored :
      {t : Objects} (handle d i : ℕ)
      → object ≢ 0
      → refused ≡ false
      → s.handles.object d i ≡ 0
      → t.handles.object ≡ update s.handles.object d (update (s.handles.object d) i object)
      → t.handles.handle_count object ≡ (s.handles.handle_count object + 1) % 2 ^ 32
      → t.reference_count
        ≡ update s.reference_count object ((s.reference_count object + 1) % 2 ^ 32)
      → t.deleted ≡ s.deleted
      → (handle ≡ 0) × (get_entry_from_handle fuel t.handles.links handle head ≡ some none)
        ⊎ (get_entry_from_handle fuel t.handles.links handle head ≡ some (some (d, i)))
      → Answers fuel s head xs refused object (some (success, handle, t))

-- On a chain of databases with no NULL address, with more fuel than databases, and for a place to put the
-- handle, `ObCreateHandle` returns. It answers STATUS_INVALID_PARAMETER for the object NULL,
-- STATUS_ACCESS_DENIED for a kernel handle, asked for by the caller or by the object, from user mode, and
-- STATUS_NO_MEMORY when no entry is free; an error changes nothing. Otherwise it stores the object in a free
-- entry, adds one to the object's count of handles and to its count of references, both of which wrap around
-- at 2 ^ 32, and either the lookup of the handle gives that entry, or the handle is NULL, which the lookup
-- refuses.
pub create-Answers :
    (fuel : ℕ) (s : Objects) (heads : Heads) (xs : List ℕ) (is_user_mode is_kernel : Bool)
    (object : ℕ)
    → IsRing s.handles.links (head_for heads (is_kernel || s.kernel_only object)) xs
    → NoneNull (head_for heads (is_kernel || s.kernel_only object) ∷ xs)
    → length xs < fuel
    → Answers fuel s
        (head_for heads (is_kernel || s.kernel_only object))
        xs
        ((is_kernel || s.kernel_only object) && is_user_mode)
        object
        (create fuel s heads is_user_mode is_kernel object)
unfolding create reference_object
create-Answers fuel s heads xs is_user_mode is_kernel object r n f =
    elim (Bool-cases (object == 0)) [
      | inl y ↦ rw y (null_object (ground arith))
      | inr some_object ↦ elim (Bool-cases ((is_kernel || s.kernel_only object) && is_user_mode)) [
        | inl forbidden ↦ rw (some_object, forbidden) (denied (ground arith) refl)
        | inr allowed ↦
            rw (some_object, allowed)
              (after (ground arith)
                (create_handle_locked-Creates fuel s.handles head xs kernel object r n f))
      ]
    ]
  where
    kernel : Bool
    kernel = is_kernel || s.kernel_only object

    head : ℕ
    head = head_for heads kernel

    after :
        object ≢ 0
        → {o : Option (Option ℕ × Handles)} → Creates fuel s.handles xs head object o
        → Answers fuel s head xs false object (elim o [
          | none ↦ none
          | some (none, t) ↦ some (Status.no_memory, 0, record s { handles = t })
          | some (some handle, t) ↦
              some (success, handle, reference_object (record s { handles = t }) object)
        ])
    after nz (no_memory g) = full nz refl g
    after nz (created handle d i z e e' look) = stored handle d i nz refl z e e' refl refl look
