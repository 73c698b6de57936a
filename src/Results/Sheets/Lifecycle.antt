-- ===== src/Results/Sheets/Lifecycle.antt =====
-- The life of result sheets: any sequence of computations, submissions, approvals, publications,
-- returns and comments, with the school's records as they stand at each step.

use edu_gear_back_end.Results.Sheets.Comments.{SheetCommentDto, comment}
use edu_gear_back_end.Common.Text.{Text}
use edu_gear_back_end.Results.Access.{ResultsActor}
use edu_gear_back_end.Results.School.{School}
use edu_gear_back_end.Common.{ok, ℕ, ◌≡◌, Option}
use edu_gear_back_end.Results.Sheets.{
  SheetStore, compute, submit, approve, publish, return_to_draft,
}
use edu_gear_back_end.Results.Sheets.Sound.{AllSound}
use edu_gear_back_end.Results.Sheets.Keeping.{
  compute-AllSound, submit-AllSound, approve-AllSound, publish-AllSound, return_to_draft-AllSound,
  comment-AllSound,
}

pub data SheetStep (s s' : SheetStore) : Type 0 where
  computing :
      (school : School) (now : ℕ) (auth : Option ResultsActor) (id arm term : ℕ)
      → compute school now auth id arm term s ≡ ok s'
      → SheetStep s s'
  submitting :
      (school : School) (now : ℕ) (auth : Option ResultsActor) (id : ℕ)
      → submit school now auth id s ≡ ok s'
      → SheetStep s s'
  approving :
      (now : ℕ) (auth : Option ResultsActor) (id : ℕ)
      → approve now auth id s ≡ ok s'
      → SheetStep s s'
  publishing :
      (now : ℕ) (auth : Option ResultsActor) (id : ℕ)
      → publish now auth id s ≡ ok s'
      → SheetStep s s'
  returning :
      (auth : Option ResultsActor) (id : ℕ) (reason : Text)
      → return_to_draft auth id reason s ≡ ok s'
      → SheetStep s s'
  commenting :
      (school : School) (auth : Option ResultsActor) (id student : ℕ) (dto : SheetCommentDto)
      → comment school auth id student dto s ≡ ok s'
      → SheetStep s s'

pub data SheetReach (s : SheetStore) : SheetStore → Type 0 where
  start : SheetReach s s
  after : {t u : SheetStore} → SheetReach s t → SheetStep t u → SheetReach s u

SheetStep-AllSound : {s s' : SheetStore} → AllSound s → SheetStep s s' → AllSound s'
SheetStep-AllSound {s} h (computing school now auth id arm term e) =
    compute-AllSound school now auth id arm term s h e
SheetStep-AllSound {s} h (submitting school now auth id e) =
    submit-AllSound school now auth id s h e
SheetStep-AllSound {s} h (approving now auth id e) = approve-AllSound now auth id s h e
SheetStep-AllSound {s} h (publishing now auth id e) = publish-AllSound now auth id s h e
SheetStep-AllSound {s} h (returning auth id reason e) =
    return_to_draft-AllSound auth id reason s h e
SheetStep-AllSound {s} h (commenting school auth id student dto e) =
    comment-AllSound school auth id student dto s h e

-- After any history of computations, submissions, approvals, publications, returns and comments
-- that starts from sound sheets, every sheet is sound: its times and actors of submission, approval
-- and publication are set exactly for the stages that its status has reached, and unless it is a
-- draft its subject rows are those of a computation that has students and misses no score.
pub SheetReach-AllSound : {s s' : SheetStore} → AllSound s → SheetReach s s' → AllSound s'
SheetReach-AllSound h start = h
SheetReach-AllSound h (after r step) = SheetStep-AllSound (SheetReach-AllSound h r) step
