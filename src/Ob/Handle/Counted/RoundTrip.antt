-- ===== src/Ob/Handle/Counted/RoundTrip.antt =====
-- A handle that is created and closed.
use nnxos.Prelude.{
  ℕ, ◌+◌, ◌%◌, ◌^◌, ◌<◌, ◌≡◌, ◌≢◌, refl, sym, ap, ◌∙◌, inl, inr, Bool, true, false, ◌&&◌, ◌||◌,
  Option, none, some, List, ◌∷◌, arith, length, ◌==◌, Bool-cases,
}
use nnxos.Ntlist.{update}
use nnxos.Ntlist.Ring.Defs.{IsRing}
use nnxos.Ob.Handle.{
  Handles, is_kernel_handle, get_entry_from_handle, create_handle_locked, find_free, store_object,
  handle_for,
}
use nnxos.Ob.Handle.Lookup.{NoneNull}
use nnxos.Ob.Handle.Create.{Creates, no_memory, created, create_handle_locked-Creates}
use nnxos.Ob.Handle.Counted.{
  Objects, Status, success, create, extract_and_reference_object, close_handle,
  close_handle_by_entry, reference_object, Heads, head_for, dereference_object,
}

-- The entries and the counts of the object are as before, and no object was deleted.
pub record Restores (s u : Objects) (object : ℕ) : Type 0 where
  pub entries : (d i : ℕ) → u.handles.object d i ≡ s.handles.object d i
  pub references : (o : ℕ) → u.reference_count o ≡ s.reference_count o
  pub handle_count : u.handles.handle_count object ≡ s.handles.handle_count object
  pub deleted : u.deleted ≡ s.deleted

-- The outcomes of a creation: an error, the handle NULL, or a handle that is found and closed.
pub data Closes (fuel : ℕ) (s : Objects) (heads : Heads) (object : ℕ)
    : Option (Status × ℕ × Objects) → Type 0 where
  full : Closes fuel s heads object (some (Status.no_memory, 0, s))
  null : {t : Objects} → Closes fuel s heads object (some (success, 0, t))
  closes :
      {t u : Objects} {handle : ℕ}
      → extract_and_reference_object fuel t heads false handle
        ≡ some (success, object, reference_object t object)
      → close_handle fuel t heads false handle ≡ some (success, u)
      → Restores s u object
      → Closes fuel s heads object (some (success, handle, t))

close_handle_found :
    (fuel : ℕ) (t : Objects) (heads : Heads) (handle d i : ℕ)
    → get_entry_from_handle fuel t.handles.links handle (head_for heads (is_kernel_handle handle))
      ≡ some (some (d, i))
    → t.handles.object d i ≢ 0
    → close_handle fuel t heads false handle ≡ some (success, close_handle_by_entry t d i)
unfolding close_handle
close_handle_found fuel t heads handle d i found used =
    let no : (t.handles.object d i == 0) ≡ false = ground (arith, used) in
    let kernel : (is_kernel_handle handle && false) ≡ false =
      elim (Bool-cases (is_kernel_handle handle)) [ inl y ↦ rw y refl | inr n ↦ rw n refl ] in
    rw (kernel, found) (rw no refl)

extract_found :
    (fuel : ℕ) (t : Objects) (heads : Heads) (handle d i object : ℕ)
    → get_entry_from_handle fuel t.handles.links handle (head_for heads (is_kernel_handle handle))
      ≡ some (some (d, i))
    → handle ≢ 0
    → t.handles.object d i ≡ object
    → object ≢ 0
    → extract_and_reference_object fuel t heads false handle
      ≡ some (success, object, reference_object t object)
unfolding extract_and_reference_object
extract_found fuel t heads handle d i object found nz e used =
    let z : (handle == 0) ≡ false = ground (arith, nz) in
    let no : (object == 0) ≡ false = ground (arith, used) in
    let kernel : (is_kernel_handle handle && false) ≡ false =
      elim (Bool-cases (is_kernel_handle handle)) [ inl y ↦ rw y refl | inr n ↦ rw n refl ] in
    rw (z, kernel, found, e) (rw no refl)

parity : (index : ℕ) (is_kernel : Bool) → is_kernel_handle (handle_for index is_kernel) ≡ is_kernel
unfolding is_kernel_handle
parity index true = ground arith
parity index false = ground arith

-- The handle given out tells the chain it belongs to.
create_handle_locked-is_kernel_handle :
    (s : Handles) (is_kernel : Bool) (object handle : ℕ) (t : Handles)
    (o : Option (Option (ℕ × ℕ × ℕ)))
    → store_object s is_kernel object o ≡ some (some handle, t)
    → is_kernel_handle handle ≡ is_kernel
unfolding store_object
create_handle_locked-is_kernel_handle s is_kernel object handle t none e = absurd cc
create_handle_locked-is_kernel_handle s is_kernel object handle t (some none) e = absurd cc
create_handle_locked-is_kernel_handle s is_kernel object handle t (some (some (d, i, index))) e =
    let same : handle_for index is_kernel ≡ handle = cc in
    ap is_kernel_handle (sym same) ∙ parity index is_kernel

restored :
    (s : Objects) (h : Handles) (object d i : ℕ)
    → s.handles.object d i ≡ 0
    → h.object ≡ update s.handles.object d (update (s.handles.object d) i object)
    → h.handle_count object ≡ (s.handles.handle_count object + 1) % 2 ^ 32
    → 0 < s.reference_count object
    → s.reference_count object + 1 < 2 ^ 32
    → s.handles.handle_count object + 1 < 2 ^ 32
    → Restores s
        (close_handle_by_entry (reference_object (record s { handles = h }) object) d i)
        object
unfolding close_handle_by_entry reference_object dereference_object
restored s h object d i free e e' some_reference below below' =
    let at : h.object d i ≡ object = ap (λ f. f d i) e ∙ ground arith in
    let references : (o : ℕ)
        → (close_handle_by_entry (reference_object (record s { handles = h }) object) d
              i).reference_count
            o
          ≡ s.reference_count o =
      λ o. rw at (ground arith) in
    record {
      entries = λ d' i'. rw e (elim (Bool-cases (d' == d)) [
        | inl same ↦ let y : d' ≡ d = ground arith in rw y (ground arith)
        | inr other ↦ ground arith
      ]);
      references = references;
      handle_count = rw at (ground arith);
      deleted = rw at (ground arith);
    }

-- For an object that has references, its counts below the largest, on a chain of databases with no NULL
-- address, with more fuel than databases, and with no kernel handle asked for from user mode:
-- `ObCreateHandle` returns. It answers STATUS_NO_MEMORY and changes nothing, or gives the handle NULL, or
-- gives a handle that `ObExtractAndReferenceObjectFromHandle` in kernel mode takes to the object, and that
-- `ObCloseHandle` closes: then the entries, the reference counts and the object's handle count are as
-- before the creation, and no object was deleted.
pub create-Closes :
    (fuel : ℕ) (s : Objects) (heads : Heads) (xs : List ℕ) (is_user_mode is_kernel : Bool)
    (object : ℕ)
    → IsRing s.handles.links (head_for heads (is_kernel || s.kernel_only object)) xs
    → NoneNull (head_for heads (is_kernel || s.kernel_only object) ∷ xs)
    → length xs < fuel
    → ((is_kernel || s.kernel_only object) && is_user_mode) ≡ false
    → object ≢ 0
    → 0 < s.reference_count object
    → s.reference_count object + 1 < 2 ^ 32
    → s.handles.handle_count object + 1 < 2 ^ 32
    → Closes fuel s heads object (create fuel s heads is_user_mode is_kernel object)
unfolding create create_handle_locked
create-Closes fuel s heads xs is_user_mode is_kernel object r n f allowed nz some_reference below
      below' =
    let no : (object == 0) ≡ false = ground (arith, nz) in
    rw (no, allowed)
      (after refl (create_handle_locked-Creates fuel s.handles head xs kernel object r n f))
  where
    kernel : Bool
    kernel = is_kernel || s.kernel_only object

    head : ℕ
    head = head_for heads kernel

    after :
        {o : Option (Option ℕ × Handles)}
        → create_handle_locked fuel s.handles head kernel object ≡ o
        → Creates fuel s.handles xs head object o
        → Closes fuel s heads object (elim o [
          | none ↦ none
          | some (none, t) ↦ some (Status.no_memory, 0, record s { handles = t })
          | some (some handle, t) ↦
              some (success, handle, reference_object (record s { handles = t }) object)
        ])
    after ran (no_memory g) = full
    after ran (created {t} handle d i z e e' look) =
        let at : t.object d i ≡ object = ap (λ g. g d i) e ∙ ground arith in
        let u : Objects = reference_object (record s { handles = t }) object in
        let own : is_kernel_handle handle ≡ kernel =
          create_handle_locked-is_kernel_handle s.handles kernel object handle t
            (find_free fuel s.handles head (s.handles.links.next head) 0) ran in
        elim (Bool-cases (handle == 0)) [
          | inl y ↦ let zero : handle ≡ 0 = ground arith in rw zero null
          | inr y ↦ elim look [
            | inl (zero, k) ↦ absurd (ground arith)
            | inr found ↦
                let found' : get_entry_from_handle fuel t.links handle
                      (head_for heads (is_kernel_handle handle))
                    ≡ some (some (d, i)) =
                  rw own found in
                closes (extract_found fuel u heads handle d i object found' (ground arith) at nz)
                  (close_handle_found fuel u heads handle d i found' (rw at nz))
                  (restored s t object d i z e e' some_reference below below')
          ]
        ]
