-- ===== src/Ke/SpinLock/Exclusion.antt =====
-- The spin lock of NNXOSKRN/spinlock.c under every interleaving: who holds it.
use nnxos.Prelude.{ℕ, ◌%◌, ◌≤◌, ◌≡◌, refl, true, Option, some, arith}
use nnxos.Ke.BugCheck.{ok}
use nnxos.Ke.Irql.{Cpu, ke_raise_irql, kf_raise_irql, apply_irql}
use nnxos.Ke.SpinLock.Machine.{
  Machine, Phase, outside, testing, pausing, holding, lowering, after_test_set, after_pause,
  after_release, Step, raise, test_set, pause, release, lower, Reach, here, next, holds, inside,
}

-- Some processor holds the lock only while bit 0 is set, at most one does, and every processor from
-- its raise to its lowering is at DISPATCH_LEVEL or above.
pub record Inv (m : Machine) : Type 0 where
  pub set : (i : ℕ) → holds (m.phase i) ≡ true → m.word % 2 ≡ 1
  pub one : (i j : ℕ) → holds (m.phase i) ≡ true → holds (m.phase j) ≡ true → i ≡ j
  pub high : (i : ℕ) → inside (m.phase i) ≡ true → 2 ≤ (m.cpu i).irql

raised_high :
    (c : Cpu) {o : Option ℕ} {d : Cpu} → ke_raise_irql c 2 (some 0) ≡ ok (o, d) → 2 ≤ d.irql
unfolding ke_raise_irql kf_raise_irql apply_irql
raised_high c h = ground arith

Step-Inv : {m n : Machine} → Step m n → Inv m → Inv n
unfolding after_test_set after_pause after_release
Step-Inv {m} (raise i {old} {c} e r) v = record {
  set = λ j h. ground (arith, v.set j);
  one = λ j k h g. ground (arith, v.one j k);
  high = λ j h. ground (arith, v.high j, raised_high (m.cpu i) r);
}
Step-Inv {m} (test_set i {old} e) v = record {
  set = λ j h. ground (arith, v.set j);
  one = λ j k h g. ground (arith, v.one j k, v.set j, v.set k);
  high = λ j h. ground (arith, v.high j);
}
Step-Inv {m} (pause i e) v = record {
  set = λ j h. ground (arith, v.set j);
  one = λ j k h g. ground (arith, v.one j k);
  high = λ j h. ground (arith, v.high j);
}
Step-Inv {m} (release i new e g) v = record {
  set = λ j h. ground (arith, v.one i j);
  one = λ j k h g. ground (arith, v.one j k);
  high = λ j h. ground (arith, v.high j);
}
Step-Inv {m} (lower i e r) v = record {
  set = λ j h. ground (arith, v.set j);
  one = λ j k h g. ground (arith, v.one j k);
  high = λ j h. ground (arith, v.high j);
}

pub Reach-Inv : {s t : Machine} → Inv s → Reach s t → Inv t
Reach-Inv v here = v
Reach-Inv v (next r st) = Step-Inv st (Reach-Inv v r)

-- Every processor outside and the word clear.
abbrev pub IsFresh : Machine → Type 0
IsFresh m = (m.word ≡ 0) × ((i : ℕ) → m.phase i ≡ outside)

fresh-Inv : {m : Machine} → IsFresh m → Inv m
fresh-Inv f = record {
  set = λ i h. ground (arith, f.1 i);
  one = λ i j h g. ground (arith, f.1 i);
  high = λ i h. ground (arith, f.1 i);
}

-- From a free lock with every processor outside, whatever the interleaving of the steps, two
-- processors never hold the lock at once, a holder sees bit 0 set in the word, and a holder is at
-- DISPATCH_LEVEL or above.
pub mutual_exclusion :
    {s t : Machine} (i j : ℕ)
    → IsFresh s
    → Reach s t
    → holds (t.phase i) ≡ true
    → holds (t.phase j) ≡ true
    → (i ≡ j) × (t.word % 2 ≡ 1) × (2 ≤ (t.cpu i).irql)
mutual_exclusion {t} i j f r h g =
    let v = Reach-Inv (fresh-Inv f) r in
    (v.one i j h g, v.set i h, v.high i (holds-inside (t.phase i) h))
  where
    holds-inside : (p : Phase) → holds p ≡ true → inside p ≡ true
    holds-inside (holding old) h = refl
    holds-inside outside h = cc
    holds-inside (testing old) h = cc
    holds-inside (pausing old) h = cc
    holds-inside (lowering old) h = cc
