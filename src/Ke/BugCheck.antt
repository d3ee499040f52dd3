-- ===== src/Ke/BugCheck.antt =====
-- NNXOSKRN/include/bugcheck.h: `KeBugCheckEx` stops the machine, so a routine that calls it has no
-- result. The calls of the modelled routines differ in the stop code and the first parameter.
use nnxos.Prelude.{ℕ, ◌≡◌, refl}

pub data StopCode : Type 0 where
  irql_not_greater_or_equal irql_not_less_or_equal irql_not_dispatch_level : StopCode
  spin_lock_not_owned bad_pool_caller bad_pool_header : StopCode

pub data Outcome {ℓ} (A : Type ℓ) : Type ℓ where
  ok : A → Outcome A
  bugcheck : StopCode → ℕ → Outcome A

infixl 5 ◌>>=◌
abbrev pub ◌>>=◌ {ℓ κ} : {R : Type ℓ} {S : Type κ} → Outcome R → (R → Outcome S) → Outcome S
bugcheck code parameter >>= continue = bugcheck code parameter
ok result >>= continue = continue result

-- Where a sequence returns, its first part does.
pub first_returns {ℓ κ} :
    {R : Type ℓ} {S : Type κ} {last : S} (start : Outcome R) (continue : R → Outcome S)
    → (start >>= continue) ≡ ok last
    → (result : R) × (start ≡ ok result) × (continue result ≡ ok last)
first_returns (bugcheck code parameter) continue returned = cc
first_returns (ok result) continue returned = (result, refl, returned)
