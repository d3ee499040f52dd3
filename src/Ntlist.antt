-- ===== src/Ntlist.antt =====
-- NNXOSKRN/include/ntlist.h and NNXOSKRN/ntlist.c: circular doubly linked lists through the LIST_ENTRY
-- of each element, on an explicit memory. An address is a number; `next` is also `Flink` and `First`,
-- `prev` is also `Blink` and `Last`.
pub mod Interlocked
pub mod Ring
mod Tests
use nnxos.Prelude.{ℕ, Bool, ◌==◌, if◌then◌else◌}

pub record Links : Type 0 where
  pub next : ℕ → ℕ
  pub prev : ℕ → ℕ

abbrev pub update {ℓ} : {A : Type ℓ} → (ℕ → A) → ℕ → A → ℕ → A
update f a v b = if b == a then v else f b

abbrev pub set_next : Links → ℕ → ℕ → Links
set_next m a v = record m { next = update m.next a v }

abbrev pub set_prev : Links → ℕ → ℕ → Links
set_prev m a v = record m { prev = update m.prev a v }

unfoldable pub initialize_list_head : Links → (list_head : ℕ) → Links
initialize_list_head m list_head = set_prev (set_next m list_head list_head) list_head list_head

unfoldable pub insert_tail_list : Links → (list_head entry : ℕ) → Links
insert_tail_list m list_head entry =
    let old_last = m.prev list_head in
    let m₁ = set_prev m list_head entry in
    let m₂ = set_prev (set_next m₁ entry list_head) entry old_last in set_next m₂ old_last entry

unfoldable pub insert_head_list : Links → (list_head entry : ℕ) → Links
insert_head_list m list_head entry =
    let old_first = m.next list_head in
    let m₁ = set_next m list_head entry in
    let m₂ = set_prev (set_next m₁ entry old_first) entry list_head in set_prev m₂ old_first entry

unfoldable pub remove_head_list : Links → (list_head : ℕ) → ℕ × Links
remove_head_list m list_head =
    let result = m.next list_head in
    let m₁ = set_next m list_head (m.next (m.next list_head)) in
    (result, set_prev m₁ (m₁.next list_head) list_head)

unfoldable pub remove_tail_list : Links → (list_head : ℕ) → ℕ × Links
remove_tail_list m list_head =
    let result = m.prev list_head in
    let m₁ = set_prev m list_head (m.prev (m.prev list_head)) in
    (result, set_next m₁ (m₁.prev list_head) list_head)

-- `RemoveEntryList` returns whether the list is now empty.
unfoldable pub remove_entry_list : Links → (entry : ℕ) → Bool × Links
remove_entry_list m entry =
    let p = m.prev entry in let n = m.next entry in (p == n, set_prev (set_next m p n) n p)

unfoldable pub is_list_empty : Links → (head : ℕ) → Bool
is_list_empty m head = m.next head == head
