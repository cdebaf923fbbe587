-- ===== src/Submission.antt =====
-- packages/domain/src/submission.ts: the stages of a risk submission.
use neo_lloyds.Prelude.{ℕ, suc, ◌+◌, ◌≡◌, Bool, true, not, List, [], ◌∷◌, map, arith}
use neo_lloyds.Errors.{Result, throw_if, invalid_submission_transition}
use neo_lloyds.Identity.{includes}

pub data SubmissionStatus : Type 0 where
  draft submitted analysing scored ready_for_underwriting : SubmissionStatus

abbrev pub submission_index : SubmissionStatus → ℕ
submission_index draft = 0
submission_index submitted = 1
submission_index analysing = 2
submission_index scored = 3
submission_index ready_for_underwriting = 4

unfoldable pub transitions : SubmissionStatus → List SubmissionStatus
transitions draft = submitted ∷ []
transitions submitted = analysing ∷ []
transitions analysing = scored ∷ []
transitions scored = ready_for_underwriting ∷ []
transitions ready_for_underwriting = []

unfoldable pub can_transition : SubmissionStatus → SubmissionStatus → Bool
unfolding transitions includes
can_transition from to = includes (map submission_index (transitions from)) (submission_index to)

unfoldable pub require_transition : SubmissionStatus → SubmissionStatus → Result (Unit {0})
require_transition from to = throw_if (not (can_transition from to)) invalid_submission_transition

-- Runs of legal transitions, by their length.
pub data Run : ℕ → SubmissionStatus → SubmissionStatus → Type 0 where
  here : (a : SubmissionStatus) → Run 0 a a
  next :
      {n : ℕ} {a b c : SubmissionStatus} → Run n a b → can_transition b c ≡ true → Run (suc n) a c

one_stage :
    (a b : SubmissionStatus)
    → can_transition a b ≡ true
    → submission_index b ≡ submission_index a + 1
unfolding can_transition
one_stage draft b h = ground arith
one_stage _ b h = ground arith

-- Each transition of a run goes on by exactly one stage, so no stage is left out and none comes twice.
pub Run-stages :
    {n : ℕ} {a b : SubmissionStatus} → Run n a b → submission_index b ≡ submission_index a + n
Run-stages (here a) = omega arith
Run-stages (next {b = b} {c = c} r step) =
    let so_far = Run-stages r in let one = one_stage b c step in omega arith
