-- ===== src/ThreadPool.antt =====
-- include/pomai_search/thread_pool.h and src/thread_pool.cc: the pool as a state machine. A task is
-- a number. A step is what one thread does under the mutex, or the end of a task that it ran.
pub mod Drain
mod Examples
use pomaisearch.Base.{
  ℕ, zero, suc, ◌+◌, ◌≤◌, ◌≡◌, ◌≢◌, ◌⊎◌, refl, Bool, true, false, ◌&&◌, ◌||◌, not, List, [], ◌∷◌,
  ◌++◌, Option, none, some, arith, ltb, leb, ◌==◌, if◌then◌else◌, length,
}
use pomaisearch.Status.{Status, ok_status, is_ok, status, unavailable, resource_exhausted}

-- The queue with its front first; `idle` counts the workers in their wait, `running` lists the
-- tasks that were taken, `finished` the tasks that have ended, the last one first.
pub record ThreadPool : Type 0 where
  pub tasks : List ℕ
  pub idle : ℕ
  pub running : List ℕ
  pub finished : List ℕ
  pub stop : Bool
  pub max_queue_size : ℕ

pub init : ℕ → ℕ → ThreadPool
init threads max_queue_size = record {
  tasks = [];
  idle = threads;
  running = [];
  finished = [];
  stop = false;
  max_queue_size = max_queue_size;
}

-- `Submit`, without the future.
pub submit : ThreadPool → ℕ → ThreadPool × Status
submit p task =
    if p.stop
    then (p, status unavailable "thread pool stopping")
    else if ltb 0 p.max_queue_size && leb p.max_queue_size (length p.tasks)
    then (p, status resource_exhausted "thread pool saturated")
    else (record p { tasks = p.tasks ++ task ∷ [] }, ok_status)

-- The flag that `Shutdown` sets; it then waits for the workers to return.
pub begin_shutdown : ThreadPool → ThreadPool
begin_shutdown p = record p { stop = true }

-- The steps of the pool. A worker wakes only if `stop_ || !tasks_.empty()`: it takes the front task,
-- or returns when the pool stops and the queue is empty.
pub data Step (p : ThreadPool) : ThreadPool → Type 0 where
  submits : (task : ℕ) → Step p (submit p task).0
  stops : Step p (begin_shutdown p)
  takes :
      (task : ℕ) (rest : List ℕ) (n : ℕ)
      → p.tasks ≡ task ∷ rest
      → p.idle ≡ suc n
      → Step p (record p { tasks = rest; idle = n; running = task ∷ p.running })
  ends :
      (before after : List ℕ) (task : ℕ)
      → p.running ≡ before ++ task ∷ after
      → Step p
          (record p { running = before ++ after; idle = p.idle + 1; finished = task ∷ p.finished })
  returns : (n : ℕ) → p.stop ≡ true → p.tasks ≡ [] → p.idle ≡ suc n → Step p (record p { idle = n })

pub data Reach (p : ThreadPool) : ThreadPool → Type 0 where
  here : Reach p p
  next : {q r : ThreadPool} → Reach p q → Step q r → Reach p r

-- The task that a step accepts: the one of a submission that returns OK.
pub accepted_by : {p q : ThreadPool} → Step p q → List ℕ
unfolding submit
accepted_by {p} (submits task) = if is_ok (submit p task).1 then task ∷ [] else []
accepted_by stops = []
accepted_by (takes task rest n e f) = []
accepted_by (ends before after task e) = []
accepted_by (returns n e f g) = []

-- The tasks that a history accepts, the last one first.
pub accepted : {p q : ThreadPool} → Reach p q → List ℕ
unfolding accepted_by
accepted here = []
accepted (next h s) = accepted_by s ++ accepted h

-- The tasks that wait, that run and that have ended.
pub jobs : ThreadPool → List ℕ
jobs p = p.tasks ++ p.running ++ p.finished
