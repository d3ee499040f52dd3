-- ===== src/Ke/Time/Walk/Walked.antt =====
-- One round of the walks of `KiClockTick`, NNXOSKRN/time.c, over a ring of timeouts.
use mathlib.Core.List.{append_assoc}
use nnxos.Prelude.{
  ℕ, ◌≡◌, ◌≢◌, refl, sym, subst, ap, ◌∙◌, inl, inr, Bool, true, false, Option, none, some, List, [],
  ◌∷◌, ◌++◌, arith, ◌==◌, if◌then◌else◌, Bool-cases,
}
use nnxos.Ntlist.{Links}
use nnxos.Ntlist.Ring.Defs.{has, has-append, IsRing}
use nnxos.Ke.Time.{Timeouts}
use nnxos.Ke.Time.Walk.{those, others, Handled, Keeps}

-- A walk over the last entries `ys` of a ring, of which those that the test holds of expired, and the
-- others have a timeout left.
pub record Walked (h : ℕ) (xs ys : List ℕ) (p : ℕ → Bool) (left : ℕ → ℕ) (s : Timeouts)
    (r : Option (List ℕ × Timeouts)) : Type 0 where
  pub state : Timeouts
  pub result : r ≡ some (those p ys, state)
  pub ring : IsRing state.links h (xs ++ others p ys)
  pub timeouts : (y : ℕ) → has y ys ≡ true → state.timeout y ≡ (if p y then 0 else left y)
  pub elsewhere : (k : ℕ) → has k ys ≡ false → state.timeout k ≡ s.timeout k
  pub keeps : Keeps s.links state.links h (xs ++ ys)

pub false≢true : false ≢ true
false≢true e = cc e

-- The result of a walk with one more entry before it.
abbrev pub with_entry : Bool → ℕ → Option (List ℕ × Timeouts) → Option (List ℕ × Timeouts)
with_entry expired e rest = elim rest [
  | none ↦ none
  | some (entries, s') ↦ some ((if expired then e ∷ entries else entries), s')
]

-- The entries before the rest of a walk, after an entry was handled.
abbrev pub kept : Bool → List ℕ → ℕ → List ℕ
kept true xs e = xs
kept false xs e = xs ++ e ∷ []

pub kept-IsRing :
    {m : Links} {h : ℕ} (expired : Bool) (xs : List ℕ) (e : ℕ) (ys : List ℕ)
    → IsRing m h (if expired then xs ++ ys else xs ++ e ∷ ys)
    → IsRing m h (kept expired xs e ++ ys)
kept-IsRing true xs e ys r = r
kept-IsRing {m} {h} false xs e ys r = subst (IsRing m h) (sym (append_assoc xs (e ∷ []) ys)) r

kept-others :
    {m : Links} {h : ℕ} (expired : Bool) (xs : List ℕ) (e : ℕ) (zs : List ℕ)
    → IsRing m h (kept expired xs e ++ zs)
    → IsRing m h (xs ++ (if expired then zs else e ∷ zs))
kept-others true xs e zs r = r
kept-others {m} {h} false xs e zs r = subst (IsRing m h) (append_assoc xs (e ∷ []) zs) r

kept-out :
    (expired : Bool) (xs : List ℕ) (e : ℕ) (ys : List ℕ) (h c : ℕ)
    → has c (h ∷ xs ++ e ∷ ys) ≡ false
    → has c (h ∷ kept expired xs e ++ ys) ≡ false
kept-out true xs e ys h c out = ground (arith, out, has-append c xs (e ∷ ys), has-append c xs ys)
kept-out false xs e ys h c out =
    subst (λ zs. has c (h ∷ zs) ≡ false) (sym (append_assoc xs (e ∷ []) ys)) out

pub Walked-step :
    {h : ℕ} (xs : List ℕ) (e : ℕ) (ys : List ℕ) (p : ℕ → Bool) (left : ℕ → ℕ) {s s₁ : Timeouts}
    {r : Option (List ℕ × Timeouts)}
    → has e ys ≡ false
    → Handled h xs e ys s (p e) (left e) s₁
    → Walked h (kept (p e) xs e) ys p left s₁ r
    → Walked h xs (e ∷ ys) p left s (with_entry (p e) e r)
Walked-step {h} xs e ys p left {s} {s₁} {r} apart handled w = record {
  state = w.state;
  result = ap (with_entry (p e) e) w.result;
  ring = kept-others (p e) xs e (others p ys) w.ring;
  timeouts = λ y inside. elim (Bool-cases (y == e)) [
    | inl same ↦ let i : y ≡ e = ground arith in rw i (w.elsewhere e apart ∙ handled.at_entry)
    | inr other ↦ w.timeouts y (ground (arith, inside))
  ];
  elsewhere =
      λ k out. w.elsewhere k (ground (arith, out)) ∙ handled.elsewhere k (ground (arith, out));
  keeps = λ zs out c inside.
      let first = handled.keeps zs out c inside in
      let rest = w.keeps zs (λ k i. kept-out (p e) xs e ys h k (out k i)) c inside in
      (rest.0 ∙ first.0, rest.1 ∙ first.1);
}

pub Walked-nil :
    {h : ℕ} (xs : List ℕ) (p : ℕ → Bool) (left : ℕ → ℕ) (s : Timeouts)
    → IsRing s.links h (xs ++ [])
    → Walked h xs [] p left s (some ([], s))
Walked-nil xs p left s r = record {
  state = s;
  result = refl;
  ring = r;
  timeouts = λ y inside. absurd (false≢true inside);
  elsewhere = λ k out. refl;
  keeps = λ zs out c inside. (refl, refl);
}
