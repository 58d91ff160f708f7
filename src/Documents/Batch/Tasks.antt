-- ===== src/Documents/Batch/Tasks.antt =====
-- The tasks of `_extract_batch_items` in app/services/documents.py, which `asyncio.gather` runs under a
-- semaphore. A step of the event loop lets a waiting task through or ends a running one, whichever it
-- picks; what a task ends with is up to its own session.
use structured_data_extracto.Base.{ℕ, suc, String, Option, none, some, List, [], ◌∷◌, map, sum_of}
use structured_data_extracto.Exec.{Result}
use structured_data_extracto.Documents.Service.{Response}

-- `BATCH_CONCURRENCY_LIMIT`
abbrev pub batch_concurrency_limit : ℕ
batch_concurrency_limit = 5

-- `extract_one` of a file: before the semaphore, in it, and behind it.
pub data Task : Type 0 where
  waiting running : String → Task
  done : String → Result Response → Task

-- The tasks and how often the semaphore may still be acquired.
pub data Step : List Task → ℕ → List Task → ℕ → Type 0 where
  acquire :
      (filename : String) (tasks : List Task) (free : ℕ)
      → Step (waiting filename ∷ tasks) (suc free) (running filename ∷ tasks) free
  release :
      (filename : String) (outcome : Result Response) (tasks : List Task) (free : ℕ)
      → Step (running filename ∷ tasks) free (done filename outcome ∷ tasks) (suc free)
  other :
      (task : Task) {tasks tasks' : List Task} {free free' : ℕ}
      → Step tasks free tasks' free'
      → Step (task ∷ tasks) free (task ∷ tasks') free'

pub data Run : List Task → ℕ → ℕ → List Task → ℕ → Type 0 where
  idle : (tasks : List Task) (free : ℕ) → Run tasks free 0 tasks free
  then :
      {tasks tasks' tasks'' : List Task} {free free' steps free'' : ℕ}
      → Step tasks free tasks' free'
      → Run tasks' free' steps tasks'' free''
      → Run tasks free (suc steps) tasks'' free''

abbrev pub file_of : Task → String
file_of (waiting filename) = filename
file_of (running filename) = filename
file_of (done filename outcome) = filename

abbrev pub in_semaphore : Task → ℕ
in_semaphore (running filename) = 1
in_semaphore _ = 0

abbrev pub count_running : List Task → ℕ
count_running tasks = sum_of in_semaphore tasks

-- How many steps a task has before it.
abbrev pub steps_left : Task → ℕ
steps_left (waiting filename) = 2
steps_left (running filename) = 1
steps_left (done filename outcome) = 0

abbrev pub total_left : List Task → ℕ
total_left tasks = sum_of steps_left tasks

abbrev pub start_tasks : List String → List Task
start_tasks files = map waiting files

-- What `gather` returns, once every task is done.
abbrev pub add_outcome :
    Task → Option (List (String × Result Response)) → Option (List (String × Result Response))
add_outcome (done filename outcome) (some outcomes) = some ((filename, outcome) ∷ outcomes)
add_outcome _ _ = none

unfoldable pub gathered : List Task → Option (List (String × Result Response))
gathered [] = some []
gathered (task ∷ tasks) = add_outcome task (gathered tasks)
