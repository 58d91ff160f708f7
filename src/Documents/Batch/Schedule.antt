-- ===== src/Documents/Batch/Schedule.antt =====
-- What holds of the tasks of a batch in app/services/documents.py, whatever the interleaving.
use structured_data_extracto.Base.{
  ℕ, zero, suc, ◌+◌, ◌*◌, ◌≤◌, ◌<◌, String, some, List, [], ◌∷◌, ◌≡◌, ◌⊎◌, inl, inr, refl, ap, ◌∙◌,
  arith, length, map,
}
use structured_data_extracto.Errors.{Error}
use structured_data_extracto.Exec.{Result, err}
use structured_data_extracto.Documents.Service.{Response}
use structured_data_extracto.Documents.Batch.{batch_extract}
use structured_data_extracto.Documents.Batch.Counts.{batch_items_filenames}
use structured_data_extracto.Documents.Batch.Tasks.{
  Task, waiting, running, done, Step, acquire, release, other, Run, idle, then, file_of,
  count_running, total_left, start_tasks, add_outcome, gathered,
}

Step-keeps :
    {tasks tasks' : List Task} {free free' : ℕ}
    → Step tasks free tasks' free'
    → (count_running tasks' + free' ≡ count_running tasks + free)
      × (suc (total_left tasks') ≡ total_left tasks)
      × (map file_of tasks' ≡ map file_of tasks)
Step-keeps (acquire filename tasks free) = (omega arith, omega arith, refl)
Step-keeps (release filename outcome tasks free) = (omega arith, omega arith, refl)
Step-keeps (other task step) =
    let h = Step-keeps step in (omega arith, omega arith, ap (λ fs. file_of task ∷ fs) h.2)

Run-keeps :
    {tasks tasks' : List Task} {free steps free' : ℕ}
    → Run tasks free steps tasks' free'
    → (count_running tasks' + free' ≡ count_running tasks + free)
      × (steps + total_left tasks' ≡ total_left tasks)
      × (map file_of tasks' ≡ map file_of tasks)
Run-keeps (idle tasks free) = (refl, omega arith, refl)
Run-keeps (then step run) =
    let h = Step-keeps step in let k = Run-keeps run in (k.0 ∙ h.0, omega arith, k.2 ∙ h.2)

start_running : (files : List String) → count_running (start_tasks files) ≡ 0
start_running [] = refl
start_running (f ∷ fs) = omega (arith, start_running fs)

start_left : (files : List String) → total_left (start_tasks files) ≡ 2 * length files
start_left [] = omega arith
start_left (f ∷ fs) = omega (arith, start_left fs)

start_files : (files : List String) → map file_of (start_tasks files) ≡ files
start_files [] = refl
start_files (f ∷ fs) = ap (λ gs. f ∷ gs) (start_files fs)

-- Whatever the interleaving, no more items of a batch are ever processed at once than the semaphore was
-- made for; the tasks stand for the files, in their order.
pub Run-IsBounded :
    (files : List String) (limit steps : ℕ) (tasks : List Task) (free : ℕ)
    → Run (start_tasks files) limit steps tasks free
    → (count_running tasks ≤ limit) × (map file_of tasks ≡ files)
Run-IsBounded files limit steps tasks free run =
    let k = Run-keeps run in (omega (arith, k.0, start_running files), k.2 ∙ start_files files)

-- A step from a list of tasks.
abbrev pub CanStep : List Task → ℕ → Type 0
CanStep tasks free = (tasks' : List Task) × (free' : ℕ) × Step tasks free tasks' free'

-- `gather` has all outcomes.
abbrev pub AllDone : List Task → Type 0
AllDone tasks =
    (outcomes : List (String × Result Response)) × (gathered tasks ≡ some outcomes)
    × (map (λ o. o.0) outcomes ≡ map file_of tasks)

running_left : (tasks : List Task) → count_running tasks ≤ total_left tasks
running_left [] = omega arith
running_left (waiting _ ∷ tasks) = omega (arith, running_left tasks)
running_left (running _ ∷ tasks) = omega (arith, running_left tasks)
running_left (done _ _ ∷ tasks) = omega (arith, running_left tasks)

abbrev Outlook : List Task → ℕ → Type 0
Outlook tasks free = CanStep tasks free ⊎ (AllDone tasks × (total_left tasks ≡ 0))

behind :
    (task : Task) (tasks : List Task) (free : ℕ) → CanStep tasks free → CanStep (task ∷ tasks) free
behind task tasks free (tasks', free', step) = (task ∷ tasks', free', other task step)

done_before :
    (filename : String) (outcome : Result Response) (tasks : List Task) (free : ℕ)
    → Outlook tasks free
    → Outlook (done filename outcome ∷ tasks) free
unfolding gathered
done_before filename outcome tasks free (inl c) = inl (behind (done filename outcome) tasks free c)
done_before filename outcome tasks free (inr ((outcomes, e, names), left)) = inr (
  (
    (filename, outcome) ∷ outcomes,
    ap (add_outcome (done filename outcome)) e,
    ap (λ ns. filename ∷ ns) names,
  ),
  omega arith,
)

waiting_before :
    (filename : String) (tasks : List Task)
    → 0 < count_running tasks
    → Outlook tasks 0
    → Outlook (waiting filename ∷ tasks) 0
waiting_before filename tasks h (inl c) = inl (behind (waiting filename) tasks 0 c)
waiting_before filename tasks h (inr (all, left)) = absurd none_runs
  where
    none_runs : ⊥
    none_runs = omega (arith, running_left tasks)

next_or_done : (tasks : List Task) (free : ℕ) → 0 < count_running tasks + free → Outlook tasks free
unfolding gathered
next_or_done [] free h = inr (([], refl, refl), refl)
next_or_done (running f ∷ tasks) free h =
    inl (
      done f (err (Error.runtime f)) ∷ tasks,
      suc free,
      release f (err (Error.runtime f)) tasks free,
    )
next_or_done (waiting f ∷ tasks) (suc free) h = inl (running f ∷ tasks, free, acquire f tasks free)
next_or_done (waiting f ∷ tasks) zero h =
    waiting_before f tasks (omega arith) (next_or_done tasks zero (omega arith))
next_or_done (done f r ∷ tasks) free h =
    done_before f r tasks free (next_or_done tasks free (omega arith))

-- The responses of a batch of files, in their order.
abbrev pub Responds : List String → List Task → Type 0
Responds files tasks =
    (outcomes : List (String × Result Response)) × (gathered tasks ≡ some outcomes)
    × (map (λ r. r.filename) (batch_extract outcomes).results ≡ files)

-- Whatever the interleaving and whatever the items end with, a batch under a semaphore that lets an
-- item through comes to its end: of `2 * n` steps for `n` files, either some are left and there is a
-- next one, or none is left and all outcomes are there, with one result for each file in their order.
pub Run-ends :
    (files : List String) (limit steps : ℕ) (tasks : List Task) (free : ℕ)
    → 0 < limit
    → Run (start_tasks files) limit steps tasks free
    → ((steps < 2 * length files) × CanStep tasks free)
      ⊎ ((steps ≡ 2 * length files) × Responds files tasks)
unfolding batch_extract
Run-ends files limit steps tasks free positive run =
    let k = Run-keeps run in
    elim (next_or_done tasks free (omega (arith, k.0, start_running files))) [
      | inl (tasks', free', step) ↦
          inl (omega (arith, k.1, start_left files, (Step-keeps step).1), (tasks', free', step))
      | inr ((outcomes, e, names), left) ↦ inr (
        omega (arith, k.1, start_left files, left),
        (outcomes, e, batch_items_filenames outcomes ∙ names ∙ k.2 ∙ start_files files),
      )
    ]
