-- ===== src/ThreadPool/Examples.antt =====
-- The theorems on the thread pool at a short history.
use pomaisearch.Base.{◌≤◌, refl, [], ◌∷◌, arith, length, true}
use mathlib.Core.List.{Perm}
use pomaisearch.ThreadPool.{
  ThreadPool, init, submit, begin_shutdown, submits, stops, takes, ends, returns, Reach, here, next,
  accepted, jobs,
}
use pomaisearch.ThreadPool.Drain.{reach-IsBounded, reach-jobs, shutdown-finished}

-- One worker, one task; the pool stops while the task runs.
abbrev at_end : ThreadPool
at_end = record {
  tasks = [];
  idle = 0;
  running = [];
  finished = 7 ∷ [];
  stop = true;
  max_queue_size = 2;
}

abbrev history : Reach (init 1 2) at_end
unfolding init submit begin_shutdown
history =
    next
      (next (next (next (next here (submits 7)) (takes 7 [] 0 refl refl)) stops)
        (ends [] [] 7 refl))
      (returns 0 refl refl refl)

reach-IsBounded_example : length at_end.tasks ≤ 2
reach-IsBounded_example = reach-IsBounded 2 (omega arith) 1 history

reach-jobs_example : Perm (jobs at_end) (accepted history)
reach-jobs_example = reach-jobs 1 2 history

shutdown-finished_example : Perm (7 ∷ []) (accepted history)
shutdown-finished_example = shutdown-finished 1 2 history (omega arith) refl refl
