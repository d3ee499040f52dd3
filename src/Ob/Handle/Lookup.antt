-- ===== src/Ob/Handle/Lookup.antt =====
-- `ObGetHandleDatabaseEntryFromHandle` of NNXOSKRN/ob/handle.c on a chain of databases.
use nnxos.Prelude.{
  ℕ, zero, suc, ◌+◌, ◌*◌, ◌/◌, ◌%◌, ◌≤◌, ◌<◌, ◌≡◌, ◌≢◌, refl, true, false, some, List, [], ◌∷◌,
  arith, ltb, leb, ◌==◌, length, ==-eq_false,
}
use nnxos.Ntlist.{Links}
use nnxos.Ntlist.Ring.Defs.{has, Linked, IsRing}
use nnxos.Ob.Handle.{find_entry, get_entry_from_handle}

-- The address that the walk over `xs` comes to after `k` steps; after the last database it is the
-- head.
abbrev pub nth_or : List ℕ → ℕ → ℕ → ℕ
nth_or [] k head = head
nth_or (x ∷ xs) zero head = x
nth_or (x ∷ xs) (suc k) head = nth_or xs k head

abbrev pub NoneNull : List ℕ → Type 0
NoneNull xs = has 0 xs ≡ false

pub next-nth_or :
    (m : Links) (a : ℕ) (xs : List ℕ) (b : ℕ) → Linked m a xs b → m.next a ≡ nth_or xs 0 b
next-nth_or m a [] b l = l.0
next-nth_or m a (x ∷ xs) b l = l.0

nth_or-non_null : (xs : List ℕ) (head : ℕ) → NoneNull (head ∷ xs) → (nth_or xs 0 head == 0) ≡ false
nth_or-non_null [] head n = ground arith
nth_or-non_null (x ∷ xs) head n = ground arith

find_entry-nth_or :
    (fuel : ℕ) (m : Links) (a head : ℕ) (xs : List ℕ) (j k h : ℕ)
    → Linked m a xs head
    → NoneNull (head ∷ xs)
    → h / 255 ≡ j + k
    → k ≤ length xs
    → k < fuel
    → find_entry fuel m (nth_or xs 0 head) (j * 255) h ≡ some (some (nth_or xs k head, h % 255))
unfolding find_entry
find_entry-nth_or zero m a head xs j k h l n e s f = absurd (omega arith)
find_entry-nth_or (suc fuel) m a head xs j zero h l n e s f =
    let below : leb (j * 255) h ≡ true = ground arith in
    let above : ltb h (j * 255 + 255) ≡ true = ground arith in
    rw (nth_or-non_null xs head n, below, above) refl
find_entry-nth_or (suc fuel) m a head [] j (suc k) h l n e s f = absurd (omega arith)
find_entry-nth_or (suc fuel) m a head (x ∷ xs) j (suc k) h l n e s f =
    let non_null : (x == 0) ≡ false = ground arith in
    let above : ltb h (j * 255 + 255) ≡ false = ground arith in
    let below : leb (j * 255) h ≡ true = ground arith in
    let step : j * 255 + 255 ≡ (j + 1) * 255 = omega arith in
    rw (non_null, below, above, next-nth_or m x xs head l.2, step)
      (find_entry-nth_or fuel m x head xs (j + 1) k h l.2 (ground arith) (omega arith) (omega arith)
        (omega arith))

-- On a chain of databases with no NULL address, and with more fuel than databases, a handle that is
-- not NULL, and whose index is that of an entry of the chain or lies less than a database past its
-- end, always gives an entry: entry `index % 255` of database `index / 255`; past the end that
-- database is the list head itself.
pub get_entry_from_handle-nth_or :
    (fuel : ℕ) (m : Links) (head : ℕ) (xs : List ℕ) (handle : ℕ)
    → IsRing m head xs
    → NoneNull (head ∷ xs)
    → handle ≢ 0
    → handle / 2 / 255 ≤ length xs
    → length xs < fuel
    → get_entry_from_handle fuel m handle head
      ≡ some (some (nth_or xs (handle / 2 / 255) head, handle / 2 % 255))
unfolding get_entry_from_handle
get_entry_from_handle-nth_or fuel m head xs handle r n nz s f =
    rw (==-eq_false nz, next-nth_or m head xs head r.linked)
      (find_entry-nth_or fuel m head head xs 0 (handle / 2 / 255) (handle / 2) r.linked n
        (omega arith) s (omega arith))
