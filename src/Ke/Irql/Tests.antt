-- ===== src/Ke/Irql/Tests.antt =====
-- The theorems on interrupt levels at concrete levels.
use nnxos.Prelude.{ℕ, ◌≡◌, refl, List, [], ◌∷◌}
use nnxos.Ke.BugCheck.{ok}
use nnxos.Ke.Irql.{kf_raise_irql, apply_irql}
use nnxos.Ke.Irql.Nesting.{at_level, raise_all, lower_all, lower_all-raise_all}

abbrev levels : List ℕ
levels = 1 ∷ 2 ∷ 2 ∷ 13 ∷ []

levels_raised : raise_all (at_level 0) levels [] ≡ ok (2 ∷ 2 ∷ 1 ∷ 0 ∷ [], at_level 13)
unfolding raise_all kf_raise_irql apply_irql
levels_raised = refl

lower_all-raise_all_example : lower_all (at_level 13) (2 ∷ 2 ∷ 1 ∷ 0 ∷ []) ≡ ok (at_level 0)
lower_all-raise_all_example = lower_all-raise_all (at_level 0) levels refl levels_raised
