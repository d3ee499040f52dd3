-- ===== src/Gdi/Object.antt =====
-- NNXOSKRN/gdi/object.c: the table of graphics objects. Objects are addresses and 0 is NULL; a handle is one more
-- than the index of its entry. Each routine is one step of its processor, and `none` is the loop of
-- `GdiLockHandle` on an entry that stays locked. The routines do not compare a handle with the length of the table, so the
-- entries are a function of every index.
pub mod Move
use nnxos.Prelude.{
  ℕ, zero, suc, ◌+◌, ◌-◌, ◌^◌, Bool, true, false, ◌||◌, Option, none, some, List, [], ◌∷◌, ◌==◌,
  if◌then◌else◌,
}
use nnxos.Ntlist.{update}

pub record Gdi : Type 0 where
  pub database : ℕ → ℕ
  pub database_length : ℕ
  pub self_handle : ℕ → ℕ
  -- The objects that `GdiFreeObject` has given back, the last one first.
  pub freed : List ℕ

abbrev pub locked_object : ℕ
locked_object = 2 ^ 64 - 1

abbrev pub set_entry : Gdi → (index object : ℕ) → Gdi
set_entry g index object = record g { database = update g.database index object }

-- `GdiFreeObject`; what a destructor frees besides is left out.
unfoldable pub free_object : Gdi → (object : ℕ) → Gdi
free_object g object = if object == 0 then g else record g { freed = object ∷ g.freed }

-- `GdiLockHandle`: the object, and the entry locked.
unfoldable pub lock_handle : Gdi → (handle : ℕ) → Option (ℕ × Gdi)
lock_handle g handle =
    if handle == 0
    then some (0, g)
    else (if g.database (handle - 1) == locked_object
        then none
        else some (g.database (handle - 1), set_entry g (handle - 1) locked_object))

-- `GdiUnlockHandle`, and whether it succeeded.
unfoldable pub unlock_handle : Gdi → (handle object : ℕ) → Bool × Gdi
unlock_handle g handle object =
    if (handle == 0) || (object == locked_object)
    then (false, g)
    else (if g.database (handle - 1) == locked_object
        then (true, set_entry g (handle - 1) object)
        else (false, g))

-- The loop of `GdiRegisterObject`, with `n` entries to go from entry `i` on.
unfoldable pub register_from : (n i : ℕ) → Gdi → (object : ℕ) → ℕ × Gdi
register_from zero i g object = (0, g)
register_from (suc n) i g object =
    let rest = register_from n (i + 1) g object in
    if g.database i == 0
    then (
      i + 1,
      record (set_entry g i object) { self_handle = update g.self_handle object (i + 1) },
    )
    else rest

-- `GdiRegisterObject`: the handle, or 0.
unfoldable pub register_object : Gdi → (object : ℕ) → ℕ × Gdi
unfolding register_from
register_object g object = register_from g.database_length 0 g object

-- `GdiDestroy`
unfoldable pub destroy : Gdi → (handle : ℕ) → Option Gdi
unfolding lock_handle unlock_handle free_object
destroy g handle = if handle == 0 then some g else elim (lock_handle g handle) [
  | none ↦ none
  | some (object, u) ↦ some (unlock_handle (free_object u object) handle 0).1
]

-- `GdiMoveIntoHandle`, once both handles are locked.
unfoldable pub move_locked : Gdi → (dst src dst_object src_object : ℕ) → Gdi
unfolding unlock_handle free_object
move_locked g dst src dst_object src_object =
    if src_object == 0
    then (unlock_handle g dst dst_object).1
    else (let u = free_object g dst_object in
        let v = record u { self_handle = update u.self_handle src_object dst } in
        set_entry (unlock_handle v dst src_object).1 (src - 1) 0)

-- `GdiMoveIntoHandle`
unfoldable pub move_into_handle : Gdi → (dst src : ℕ) → Option Gdi
unfolding lock_handle move_locked
move_into_handle g dst src = if (dst == 0) || (src == 0) then some g else elim (lock_handle g dst) [
  | none ↦ none
  | some (dst_object, u) ↦ elim (lock_handle u src) [
    | none ↦ none
    | some (src_object, v) ↦ some (move_locked v dst src dst_object src_object)
  ]
]

-- `GdiMovePtrIntoHandle`
unfoldable pub move_ptr_into_handle : Gdi → (dst object : ℕ) → Option Gdi
unfolding lock_handle unlock_handle free_object
move_ptr_into_handle g dst object =
    if (dst == 0) || (object == 0) then some g else elim (lock_handle g dst) [
      | none ↦ none
      | some (dst_object, u) ↦
          let v = free_object u dst_object in
          let w =
            (unlock_handle (record v { self_handle = update v.self_handle object dst }) dst
              object).1 in
          let src = w.self_handle object in
          if src == 0 then some w else some (set_entry w (src - 1) 0)
    ]
