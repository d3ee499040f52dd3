-- ===== src/Ke/Time/Walk.antt =====
-- The walks of the clock tick over rings of timeouts.
pub mod Walked
pub mod Ticks
use nnxos.Prelude.{
  ℕ, zero, suc, ◌+◌, ◌<◌, ◌≡◌, ◌≢◌, refl, sym, subst, ap, ◌∙◌, inl, inr, Bool, true, false, ◌||◌,
  not, Option, none, some, List, [], ◌∷◌, ◌++◌, arith, length, ◌==◌, if◌then◌else◌, Bool-cases,
}
use nnxos.Ntlist.{Links, update, remove_entry_list}
use nnxos.Ntlist.Ring.Defs.{has, has-append, IsDistinct, Linked, IsRing, IsRing-frame, Same}
use nnxos.Ntlist.Ring.Remove.{Linked-split, remove_entry_list-IsRing, remove_entry_list-Same}
use nnxos.Ke.Time.{Timeouts, expire_timeout}

-- Where a walk goes on: the first entry, or the head.
abbrev pub first_or : List ℕ → ℕ → ℕ
first_or [] head = head
first_or (y ∷ ys) head = y

-- The entries that a test holds of, and the others.
abbrev pub those : (ℕ → Bool) → List ℕ → List ℕ
those p [] = []
those p (y ∷ ys) = if p y then y ∷ those p ys else those p ys

abbrev pub others : (ℕ → Bool) → List ℕ → List ℕ
others p [] = []
others p (y ∷ ys) = if p y then others p ys else y ∷ others p ys

module _ (m : Links) {h : ℕ} (xs : List ℕ) (e : ℕ) (ys : List ℕ)
    (r : IsRing m h (xs ++ e ∷ ys)) where
  pub next-first_or : m.next e ≡ first_or ys h
  next-first_or = go ys (Linked-split m h xs e ys h r.linked).1
    where
      go : (zs : List ℕ) → Linked m e zs h → m.next e ≡ first_or zs h
      go [] l = l.0
      go (z ∷ zs) l = l.0

  pub not_head : (e == h) ≡ false
  not_head = ground (arith, r.distinct.0, has-append h xs (e ∷ ys))

  pub not_later : has e ys ≡ false
  not_later = go xs r.distinct.1
    where
      go : (zs : List ℕ) → IsDistinct (zs ++ e ∷ ys) → has e ys ≡ false
      go [] d = d.0
      go (z ∷ zs) d = go zs d.1

  -- A second removal of an entry changes nothing.
  removed_twice :
      (c : List ℕ)
      → Same (remove_entry_list m e).1 (remove_entry_list (remove_entry_list m e).1 e).1 c
  unfolding remove_entry_list
  removed_twice c a i = (ground arith, ground arith)

-- The links of entries off a ring are as before.
abbrev pub Keeps : (m n : Links) (h : ℕ) (xs : List ℕ) → Type 0
Keeps m n h xs = (zs : List ℕ) → ((c : ℕ) → has c zs ≡ true → has c (h ∷ xs) ≡ false) → Same m n zs

-- The entry was handled: taken out of the ring if it expired.
pub record Handled (h : ℕ) (xs : List ℕ) (e : ℕ) (ys : List ℕ) (s : Timeouts) (expired : Bool)
    (left : ℕ) (s' : Timeouts) : Type 0 where
  pub ring : IsRing s'.links h (if expired then xs ++ ys else xs ++ e ∷ ys)
  pub at_entry : s'.timeout e ≡ (if expired then 0 else left)
  pub elsewhere : (k : ℕ) → k ≢ e → s'.timeout k ≡ s.timeout k
  pub keeps : Keeps s.links s'.links h (xs ++ e ∷ ys)

pub expire_timeout-IsRing :
    (relative_head absolute_head : ℕ) (s : Timeouts) (h : ℕ) (xs : List ℕ) (e : ℕ) (ys : List ℕ)
    → IsRing s.links h (xs ++ e ∷ ys)
    → IsRing (expire_timeout relative_head absolute_head s e).links h (xs ++ ys)
unfolding expire_timeout
expire_timeout-IsRing relative_head absolute_head s h xs e ys r =
    let once = remove_entry_list-IsRing s.links xs e ys r in
    elim (Bool-cases (s.timeout e == 0)) [
      | inl zero_timeout ↦ rw zero_timeout once
      | inr other ↦ rw other (IsRing-frame once (removed_twice s.links xs e ys r (h ∷ xs ++ ys)))
    ]

pub expire_timeout-Keeps :
    (relative_head absolute_head : ℕ) (s : Timeouts) (h : ℕ) (xs : List ℕ) (e : ℕ) (ys : List ℕ)
    → IsRing s.links h (xs ++ e ∷ ys)
    → Keeps s.links (expire_timeout relative_head absolute_head s e).links h (xs ++ e ∷ ys)
unfolding expire_timeout
expire_timeout-Keeps relative_head absolute_head s h xs e ys r zs out =
    let once = remove_entry_list-Same s.links xs e ys zs r out in
    elim (Bool-cases (s.timeout e == 0)) [
      | inl zero_timeout ↦ rw zero_timeout once
      | inr other ↦
          let twice = removed_twice s.links xs e ys r zs in
          rw other (λ c inside.
            ((twice c inside).0 ∙ (once c inside).0, (twice c inside).1 ∙ (once c inside).1))
    ]
