-- ===== src/Gdi/Object/Move.antt =====
-- `GdiRegisterObject`, `GdiMoveIntoHandle` and `GdiMovePtrIntoHandle` of NNXOSKRN/gdi/object.c.
use nnxos.Prelude.{
  ℕ, zero, suc, ◌+◌, ◌-◌, ◌≤◌, ◌<◌, ◌≡◌, ◌≢◌, refl, sym, ap, ◌∙◌, inl, inr, true, false, ◌||◌,
  Option, some, ◌∷◌, arith, ◌==◌, if◌then◌else◌, Bool-cases, ==-refl, ==-eq_false,
}
use nnxos.Ntlist.{update}
use nnxos.Gdi.Object.{
  Gdi, locked_object, set_entry, free_object, lock_handle, unlock_handle, register_from,
  register_object, move_locked, move_into_handle, move_ptr_into_handle,
}

-- The outcomes of a registration among the entries from `i` on.
pub data Registers (g : Gdi) (object i n : ℕ) : ℕ × Gdi → Type 0 where
  full : ((k : ℕ) → i ≤ k → k < i + n → g.database k ≢ 0) → Registers g object i n (0, g)
  registered :
      {u : Gdi} (k : ℕ)
      → i ≤ k
      → k < i + n
      → g.database k ≡ 0
      → ((j : ℕ) → i ≤ j → j < k → g.database j ≢ 0)
      → u.database ≡ update g.database k object
      → u.self_handle ≡ update g.self_handle object (k + 1)
      → u.freed ≡ g.freed
      → Registers g object i n (k + 1, u)

Registers-later :
    {g : Gdi} {object i n : ℕ} {r : ℕ × Gdi}
    → g.database i ≢ 0
    → Registers g object (i + 1) n r
    → Registers g object i (suc n) r
Registers-later {i} used (full all) = full (λ k lo hi. elim (Bool-cases (k == i)) [
  | inl same ↦ let e : k ≡ i = ground arith in rw e used
  | inr other ↦ all k (ground arith) (omega arith)
])
Registers-later {i} used (registered k lo hi free all d s f) =
    registered k (omega arith) (omega arith) free
      (λ j low high. elim (Bool-cases (j == i)) [
        | inl same ↦ let e : j ≡ i = ground arith in rw e used
        | inr other ↦ all j (ground arith) high
      ])
      d s f

register_from-Registers :
    (n i : ℕ) (g : Gdi) (object : ℕ) → Registers g object i n (register_from n i g object)
unfolding register_from
register_from-Registers zero i g object = full (λ k lo hi. absurd (omega arith))
register_from-Registers (suc n) i g object = elim (Bool-cases (g.database i == 0)) [
  | inl free ↦ rw free (
      registered i (omega arith) (omega arith) (ground arith) (λ j lo hi. absurd (omega arith)) refl
        refl refl)
  | inr used ↦ rw used (Registers-later (ground arith) (register_from-Registers n (i + 1) g object))
]

-- `GdiRegisterObject` ends: without an empty entry among those of the table it answers 0 and changes nothing; else it
-- puts the object into the first empty entry and nothing else, answers one more than its index, and makes that the
-- object's own handle.
pub register_object-Registers :
    (g : Gdi) (object : ℕ) → Registers g object 0 g.database_length (register_object g object)
unfolding register_object
register_object-Registers g object = register_from-Registers g.database_length 0 g object

-- An object has come under another handle.
pub record Moves (g : Gdi) (dst src object : ℕ) (u : Gdi) : Type 0 where
  pub at_dst : u.database (dst - 1) ≡ object
  pub at_src : u.database (src - 1) ≡ 0
  pub entries : (i : ℕ) → i ≢ dst - 1 → i ≢ src - 1 → u.database i ≡ g.database i
  pub self_handle : u.self_handle object ≡ dst
  pub freed :
      u.freed ≡ (if g.database (dst - 1) == 0 then g.freed else g.database (dst - 1) ∷ g.freed)

pub data Moved (g : Gdi) (dst src object : ℕ) : Option Gdi → Type 0 where
  moved : {u : Gdi} → Moves g dst src object u → Moved g dst src object (some u)

lock_handle-set_entry :
    (g : Gdi) (handle : ℕ)
    → handle ≢ 0
    → g.database (handle - 1) ≢ locked_object
    → lock_handle g handle ≡ some (g.database (handle - 1), set_entry g (handle - 1) locked_object)
unfolding lock_handle
lock_handle-set_entry g handle nz free = rw (==-eq_false nz, ==-eq_false free) refl

unlock_handle-set_entry :
    (g : Gdi) (handle object : ℕ)
    → handle ≢ 0
    → object ≢ locked_object
    → g.database (handle - 1) ≡ locked_object
    → unlock_handle g handle object ≡ (true, set_entry g (handle - 1) object)
unfolding unlock_handle
unlock_handle-set_entry g handle object nz other locked =
    let here : (g.database (handle - 1) == locked_object) ≡ true = rw locked refl in
    rw (==-eq_false nz, ==-eq_false other, here) refl

-- Freeing an object changes the list of freed ones only.
record Frees (g : Gdi) (object : ℕ) (u : Gdi) : Type 0 where
  database : u.database ≡ g.database
  self_handle : u.self_handle ≡ g.self_handle
  freed : u.freed ≡ (if object == 0 then g.freed else object ∷ g.freed)

free_object-Frees : (g : Gdi) (object : ℕ) → Frees g object (free_object g object)
unfolding free_object
free_object-Frees g object = elim (Bool-cases (object == 0)) [
  | inl y ↦ rw y record { database = refl; self_handle = refl; freed = rw y refl }
  | inr n ↦ rw n record { database = refl; self_handle = refl; freed = rw n refl }
]

move_locked-Moves :
    (g v : Gdi) (dst src object : ℕ)
    → dst ≢ 0
    → dst - 1 ≢ src - 1
    → object ≢ 0
    → object ≢ locked_object
    → v ≡ set_entry (set_entry g (dst - 1) locked_object) (src - 1) locked_object
    → Moves g dst src object (move_locked v dst src (g.database (dst - 1)) object)
unfolding move_locked
move_locked-Moves g v dst src object nz apart some_object other e =
    let f = free_object-Frees v (g.database (dst - 1)) in
    let w : Gdi = record (free_object v (g.database (dst - 1))) {
      self_handle = update (free_object v (g.database (dst - 1))).self_handle object dst;
    } in
    let locked : w.database (dst - 1) ≡ locked_object =
      ap (λ d. d (dst - 1)) f.database
      ∙ ap (λ x. x.database (dst - 1)) e
      ∙ (rw (==-eq_false apart, ==-refl (dst - 1)) refl) in
    rw (==-eq_false some_object, move_locked)
      (rw (unlock_handle-set_entry w dst object nz other locked) record {
        at_dst = rw (==-eq_false apart, ==-refl (dst - 1)) refl;
        at_src = rw (==-refl (src - 1)) refl;
        entries = λ i no no'.
            rw (==-eq_false no', ==-eq_false no)
              (ap (λ d. d i) f.database
                ∙ ap (λ x. x.database i) e
                ∙ (rw (==-eq_false no', ==-eq_false no) refl));
        self_handle = rw (==-refl object) refl;
        freed = f.freed ∙ (rw e refl);
      })

-- `GdiMoveIntoHandle` of two different handles, neither locked, the source with an object: the object comes under the
-- destination, which is its own handle then, the source is empty, every other entry is as before, and what was under
-- the destination is freed, that object alone.
pub move_into_handle-Moved :
    (g : Gdi) (dst src : ℕ)
    → dst ≢ 0
    → src ≢ 0
    → dst ≢ src
    → g.database (dst - 1) ≢ locked_object
    → g.database (src - 1) ≢ locked_object
    → g.database (src - 1) ≢ 0
    → Moved g dst src (g.database (src - 1)) (move_into_handle g dst src)
unfolding move_into_handle
move_into_handle-Moved g dst src nz nz' apart free free' some_object =
    let other : dst - 1 ≢ src - 1 = λ e. apart (omega arith) in
    let u : Gdi = set_entry g (dst - 1) locked_object in
    let same : u.database (src - 1) ≡ g.database (src - 1) =
      rw (==-eq_false (λ e. other (sym e))) refl in
    let neither : ((dst == 0) || (src == 0)) ≡ false = rw (==-eq_false nz, ==-eq_false nz') refl in
    rw (neither, lock_handle-set_entry g dst nz free, move_into_handle)
      (rw (lock_handle-set_entry u src nz' (λ z. free' (sym same ∙ z)), move_into_handle)
        (rw same (
          moved (
            move_locked-Moves g _ dst src (g.database (src - 1)) nz other some_object free' refl))))

-- What has become of an object that its new handle has lost.
pub record Loses (g : Gdi) (dst object : ℕ) (u : Gdi) : Type 0 where
  pub empty : u.database (dst - 1) ≡ 0
  pub entries : (i : ℕ) → i ≢ dst - 1 → u.database i ≡ g.database i
  pub self_handle : u.self_handle object ≡ dst
  pub freed :
      u.freed ≡ (if g.database (dst - 1) == 0 then g.freed else g.database (dst - 1) ∷ g.freed)

pub data Lost (g : Gdi) (dst object : ℕ) : Option Gdi → Type 0 where
  lost : {u : Gdi} → Loses g dst object u → Lost g dst object (some u)

-- `GdiMovePtrIntoHandle` of an object to a handle that is not locked: the destination is empty afterwards, whatever the
-- object's own handle was; the object says that the destination is its handle, and no entry has changed but the
-- destination; what was under it is freed.
pub move_ptr_into_handle-Lost :
    (g : Gdi) (dst object : ℕ)
    → dst ≢ 0
    → object ≢ 0
    → object ≢ locked_object
    → g.database (dst - 1) ≢ locked_object
    → Lost g dst object (move_ptr_into_handle g dst object)
unfolding move_ptr_into_handle
move_ptr_into_handle-Lost g dst object nz some_object other free =
    let u : Gdi = set_entry g (dst - 1) locked_object in
    let f = free_object-Frees u (g.database (dst - 1)) in
    let v : Gdi = record (free_object u (g.database (dst - 1))) {
      self_handle = update (free_object u (g.database (dst - 1))).self_handle object dst;
    } in
    let locked : v.database (dst - 1) ≡ locked_object =
      ap (λ d. d (dst - 1)) f.database ∙ (rw (==-refl (dst - 1)) refl) in
    let neither : ((dst == 0) || (object == 0)) ≡ false =
      rw (==-eq_false nz, ==-eq_false some_object) refl in
    rw (neither, lock_handle-set_entry g dst nz free, move_ptr_into_handle)
      (rw (unlock_handle-set_entry v dst object nz other locked, ==-refl object, ==-eq_false nz)
        (lost record {
          empty = rw (==-refl (dst - 1)) refl;
          entries =
              λ i no. rw (==-eq_false no) (ap (λ d. d i) f.database ∙ (rw (==-eq_false no) refl));
          self_handle = rw (==-refl object) refl;
          freed = f.freed;
        }))
