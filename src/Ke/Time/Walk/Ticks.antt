-- ===== src/Ke/Time/Walk/Ticks.antt =====
-- What `KiClockTick` expires.
use nnxos.Prelude.{
  ℕ, zero, suc, ◌^◌, ◌<◌, ◌≡◌, refl, sym, subst, ap, ap₂, ◌∙◌, Bool, true, false, Option, List, [],
  ◌∷◌, ◌++◌, arith, length, ltb, leb, ◌==◌, if◌then◌else◌,
}
use nnxos.Ntlist.{update}
use nnxos.Ntlist.Ring.Defs.{has, IsRing}
use nnxos.Ke.Time.{Timeouts, expire_timeout, tick_absolute, tick_relative, count_down}
use nnxos.Ke.Time.Walk.{
  first_or, next-first_or, not_head, not_later, Handled, expire_timeout-IsRing,
  expire_timeout-Keeps,
}
use nnxos.Ke.Time.Walk.Walked.{Walked, with_entry, kept, kept-IsRing, Walked-step, Walked-nil}

module _ (relative_head absolute_head : ℕ) where
  -- An entry that was looked at, with a new timeout, and expired by a test.
  handle :
      (s : Timeouts) (h : ℕ) (xs : List ℕ) (e : ℕ) (ys : List ℕ) (expired : Bool)
      → IsRing s.links h (xs ++ e ∷ ys)
      → Handled h xs e ys s expired
          (s.timeout e)
          (if expired then expire_timeout relative_head absolute_head s e else s)
  unfolding expire_timeout
  handle s h xs e ys true r = record {
    ring = expire_timeout-IsRing relative_head absolute_head s h xs e ys r;
    at_entry = ground arith;
    elsewhere = λ k other. ground arith;
    keeps = expire_timeout-Keeps relative_head absolute_head s h xs e ys r;
  }
  handle s h xs e ys false r = record {
    ring = r;
    at_entry = refl;
    elsewhere = λ k other. refl;
    keeps = λ zs out c inside. (refl, refl);
  }

  -- The result of a round on an entry with timeout `n`.
  abbrev after_absolute :
      (fuel time : ℕ) → Timeouts → (e n following : ℕ) → Option (List ℕ × Timeouts)
  after_absolute fuel time s e n following = with_entry (ltb time n) e (
      tick_absolute relative_head absolute_head fuel time
        (if ltb time n then expire_timeout relative_head absolute_head s e else s) following)

  absolute_round :
      (fuel time : ℕ) (s : Timeouts) (e : ℕ)
      → (e == absolute_head) ≡ false
      → tick_absolute relative_head absolute_head (suc fuel) time s e
        ≡ after_absolute fuel time s e (s.timeout e) (s.links.next e)
  unfolding tick_absolute
  absolute_round fuel time s e apart = rw apart refl

  pub walk_absolute :
      (fuel time : ℕ) (t : ℕ → ℕ) (s : Timeouts) (xs ys : List ℕ)
      → length ys < fuel
      → IsRing s.links absolute_head (xs ++ ys)
      → ((y : ℕ) → has y ys ≡ true → s.timeout y ≡ t y)
      → Walked absolute_head xs ys
          (λ y. ltb time (t y))
          t
          s
          (tick_absolute relative_head absolute_head fuel time s (first_or ys absolute_head))
  unfolding tick_absolute
  walk_absolute zero time t s xs ys enough r same = absurd (omega (arith, enough))
  walk_absolute (suc fuel) time t s xs [] enough r same =
      let at_head : (absolute_head == absolute_head) ≡ true = ground arith in
      rw at_head (Walked-nil xs (λ y. ltb time (t y)) t s r)
  walk_absolute (suc fuel) time t s xs (e ∷ ys) enough r same =
      let p = λ (y : ℕ). ltb time (t y) in
      let here : s.timeout e ≡ t e = same e (ground arith) in
      let s₁ = if p e then expire_timeout relative_head absolute_head s e else s in
      let apart = not_later s.links xs e ys r in
      let handled =
        subst (λ n. Handled absolute_head xs e ys s (p e) n s₁) here
          (handle s absolute_head xs e ys (p e) r) in
      let rest =
        walk_absolute fuel time t s₁ (kept (p e) xs e) ys (omega (arith, enough))
          (kept-IsRing (p e) xs e ys handled.ring)
          (λ y inside.
            handled.elsewhere y (ground (arith, inside, apart))
            ∙ same y (ground (arith, inside))) in
      subst (Walked absolute_head xs (e ∷ ys) p t s)
        (sym (
          absolute_round fuel time s e (not_head s.links xs e ys r)
          ∙ ap₂ (after_absolute fuel time s e) here (next-first_or s.links xs e ys r)))
        (Walked-step xs e ys p t apart handled rest)

  abbrev after_relative :
      (fuel : ℕ)
      → Bool
      → (increment : ℕ) → Timeouts
      → (e n following : ℕ) → Option (List ℕ × Timeouts)
  after_relative fuel first increment s e n following =
      let left = count_down relative_head absolute_head first increment n in
      let s₀ : Timeouts = record s { timeout = update s.timeout e left } in
      with_entry (leb (2 ^ 63) left) e (
        tick_relative relative_head absolute_head fuel first increment
          (if leb (2 ^ 63) left then expire_timeout relative_head absolute_head s₀ e else s₀)
          following)

  relative_round :
      (fuel : ℕ) (first : Bool) (increment : ℕ) (s : Timeouts) (e : ℕ)
      → (e == relative_head) ≡ false
      → tick_relative relative_head absolute_head (suc fuel) first increment s e
        ≡ after_relative fuel first increment s e (s.timeout e) (s.links.next e)
  unfolding tick_relative
  relative_round fuel first increment s e apart = rw apart refl

  pub walk_relative :
      (fuel : ℕ) (is_first_processor : Bool) (increment : ℕ) (t : ℕ → ℕ) (s : Timeouts)
      (xs ys : List ℕ)
      → length ys < fuel
      → IsRing s.links relative_head (xs ++ ys)
      → ((y : ℕ) → has y ys ≡ true → s.timeout y ≡ t y)
      → let left =
          λ (y : ℕ). count_down relative_head absolute_head is_first_processor increment (t y) in
        Walked relative_head xs ys
          (λ y. leb (2 ^ 63) (left y))
          left
          s
          (tick_relative relative_head absolute_head fuel is_first_processor increment s
            (first_or ys relative_head))
  unfolding tick_relative
  walk_relative zero first increment t s xs ys enough r same = absurd (omega (arith, enough))
  walk_relative (suc fuel) first increment t s xs [] enough r same =
      let left = λ (y : ℕ). count_down relative_head absolute_head first increment (t y) in
      let at_head : (relative_head == relative_head) ≡ true = ground arith in
      rw at_head (Walked-nil xs (λ y. leb (2 ^ 63) (left y)) left s r)
  walk_relative (suc fuel) first increment t s xs (e ∷ ys) enough r same =
      let left = λ (y : ℕ). count_down relative_head absolute_head first increment (t y) in
      let p = λ (y : ℕ). leb (2 ^ 63) (left y) in
      let here : s.timeout e ≡ t e = same e (ground arith) in
      let s₀ : Timeouts = record s { timeout = update s.timeout e (left e) } in
      let s₁ = if p e then expire_timeout relative_head absolute_head s₀ e else s₀ in
      let apart = not_later s.links xs e ys r in
      let done = handle s₀ relative_head xs e ys (p e) r in
      let now : s₀.timeout e ≡ left e = ground arith in
      let handled : Handled relative_head xs e ys s (p e) (left e) s₁ = record {
        ring = done.ring;
        at_entry = done.at_entry ∙ ap (λ n. if p e then 0 else n) now;
        elsewhere = λ k other. done.elsewhere k other ∙ ground arith;
        keeps = done.keeps;
      } in
      let rest =
        walk_relative fuel first increment t s₁ (kept (p e) xs e) ys (omega (arith, enough))
          (kept-IsRing (p e) xs e ys handled.ring)
          (λ y inside.
            handled.elsewhere y (ground (arith, inside, apart))
            ∙ same y (ground (arith, inside))) in
      subst (Walked relative_head xs (e ∷ ys) p left s)
        (sym (
          relative_round fuel first increment s e (not_head s.links xs e ys r)
          ∙ ap₂ (after_relative fuel first increment s e) here (next-first_or s.links xs e ys r)))
        (Walked-step xs e ys p left apart handled rest)
