-- ===== src/ThreadPool/Drain.antt =====
-- What every history of the pool keeps: the queue's bound, and that no accepted task is lost.
use pomaisearch.Base.{
  ℕ, ◌+◌, ◌≤◌, ◌<◌, ◌≡◌, ◌⊎◌, inl, inr, refl, sym, ap, true, false, List, [], ◌∷◌, ◌++◌, arith,
  length, length-append,
}
use mathlib.Core.Logic.{◌≢◌}
use mathlib.Core.List.{Perm, append_assoc, perm_middle, append-nil}
use mathlib.Core.List.Perm
use pomaisearch.Status.{is_ok}
use pomaisearch.ThreadPool.{
  ThreadPool, init, submit, begin_shutdown, Step, submits, stops, takes, ends, returns, Reach, here,
  next, accepted, accepted_by, jobs,
}

module _ (m : ℕ) (bounded : m ≢ 0) where
  -- The queue stays within the bound.
  IsBounded : ThreadPool → Type 0
  IsBounded p = (p.max_queue_size ≡ m) × (length p.tasks ≤ m)

  submit-IsBounded : (p : ThreadPool) (task : ℕ) → IsBounded p → IsBounded (submit p task).0
  unfolding submit IsBounded
  submit-IsBounded p task (same, b) =
      ground (arith, same, b, bounded, length-append p.tasks (task ∷ []))

  Step-IsBounded : {p q : ThreadPool} → Step p q → IsBounded p → IsBounded q
  unfolding IsBounded begin_shutdown
  Step-IsBounded {p} (submits task) b = submit-IsBounded p task b
  Step-IsBounded stops b = b
  Step-IsBounded (takes task rest n e f) b = (b.0, omega (arith, b.1, ap length e))
  Step-IsBounded (ends before after task e) b = b
  Step-IsBounded (returns n e f g) b = b

  -- In every state that a pool with a positive `max_queue_size` reaches from its start, the queue
  -- holds at most that many tasks.
  pub reach-IsBounded : (n : ℕ) {q : ThreadPool} → Reach (init n m) q → length q.tasks ≤ m
  unfolding IsBounded init
  reach-IsBounded n h = (go h).1
    where
      go : {q : ThreadPool} → Reach (init n m) q → IsBounded q
      go here = (refl, omega arith)
      go (next h s) = Step-IsBounded s (go h)

last_perm : (xs : List ℕ) (t : ℕ) → Perm (xs ++ t ∷ []) (t ∷ xs)
last_perm xs t = rw append-nil at (perm_middle {a = t} xs [])

middle_perm :
    (xs before after : List ℕ) (t : ℕ)
    → Perm (xs ++ (before ++ t ∷ after)) (t ∷ (xs ++ (before ++ after)))
middle_perm xs before after t =
    rw (sym (append_assoc xs before (t ∷ after)), sym (append_assoc xs before after))
      (perm_middle {a = t} (xs ++ before) after)

-- A task of the middle of a list, moved into a list behind it.
end_perm :
    (xs before after ys : List ℕ) (t : ℕ)
    → Perm (xs ++ (before ++ after) ++ t ∷ ys) (xs ++ (before ++ t ∷ after) ++ ys)
end_perm xs before after ys t =
    Perm.trans (perm_middle {a = t} (xs ++ (before ++ after)) ys)
      (Perm.symm (Perm.append (middle_perm xs before after t) (Perm.refl ys)))

-- What a submission does: it adds the task and returns OK, or it changes nothing and does not.
submit-cases :
    (p : ThreadPool) (task : ℕ)
    → ((p.stop ≡ false)
        × ((submit p task).0 ≡ record p { tasks = p.tasks ++ task ∷ [] })
        × (is_ok (submit p task).1 ≡ true))
      ⊎ (((submit p task).0 ≡ p) × (is_ok (submit p task).1 ≡ false))
unfolding submit
submit-cases p task = ground arith

submit-perm :
    (p : ThreadPool) (task : ℕ)
    → Perm (jobs (submit p task).0) (accepted_by {p = p} (submits task) ++ jobs p)
unfolding jobs accepted_by
submit-perm p task = elim (submit-cases p task) [
  | inl e ↦
      rw (e.1, e.2)
        (Perm.append (Perm.append (last_perm p.tasks task) (Perm.refl p.running))
          (Perm.refl p.finished))
  | inr e ↦ rw (e.0, e.1) (Perm.refl (jobs p))
]

step-perm : {p q : ThreadPool} (s : Step p q) → Perm (jobs q) (accepted_by s ++ jobs p)
unfolding jobs accepted_by
step-perm {p} (submits task) = submit-perm p task
step-perm {p} stops = unfold begin_shutdown in Perm.refl (jobs p)
step-perm {p} (takes task rest n e f) =
    rw e (Perm.append (perm_middle {a = task} rest p.running) (Perm.refl p.finished))
step-perm {p} (ends before after task e) = rw e (end_perm p.tasks before after p.finished task)
step-perm {p} (returns n e f g) = Perm.refl (jobs p)

-- In every state that the pool reaches from its start, the tasks that wait, that run and that have
-- ended are, up to their order, the tasks that it accepted, each as often as it was accepted.
pub reach-jobs : (n m : ℕ) {q : ThreadPool} (h : Reach (init n m) q) → Perm (jobs q) (accepted h)
unfolding init jobs accepted
reach-jobs n m here = Perm.refl []
reach-jobs n m (next h s) =
    Perm.trans (step-perm s) (Perm.append (Perm.refl (accepted_by s)) (reach-jobs n m h))

-- A worker has returned only if the pool stops and its queue is empty.
IsStaffed : ℕ → ThreadPool → Type 0
IsStaffed n p =
    (p.idle + length p.running ≤ n)
    × (p.idle + length p.running < n → (p.stop ≡ true) × (p.tasks ≡ []))

Step-IsStaffed : (n : ℕ) {p q : ThreadPool} → Step p q → IsStaffed n p → IsStaffed n q
unfolding IsStaffed
Step-IsStaffed n {p} (submits task) h = elim (submit-cases p task) [
  | inl e ↦ rw e.1 (h.0, λ k. absurd (cc (e.0, (h.1 k).0)))
  | inr e ↦ rw e.0 h
]
Step-IsStaffed n stops h = unfold begin_shutdown in (h.0, λ k. (refl, (h.1 k).1))
Step-IsStaffed n {p} (takes task rest m e f) h =
    (omega (arith, h.0), λ k. absurd (cc (e, (h.1 (omega (arith, k))).1)))
Step-IsStaffed n {p} (ends before after task e) h = (
  omega (arith, h.0, ap length e, length-append before after, length-append before (task ∷ after)),
  λ k. h.1 (
      omega
        (arith, k, ap length e, length-append before after, length-append before (task ∷ after))),
)
Step-IsStaffed n {p} (returns m e f g) h = (omega (arith, h.0), λ k. (e, f))

reach-IsStaffed : (n m : ℕ) {q : ThreadPool} → Reach (init n m) q → IsStaffed n q
unfolding init IsStaffed
reach-IsStaffed n m here = (omega arith, λ k. absurd (omega (arith, k)))
reach-IsStaffed n m (next h s) = Step-IsStaffed n s (reach-IsStaffed n m h)

-- When a pool with at least one worker has no worker left, as after the joins of `Shutdown`, every
-- task that it accepted has ended, and each ran as often as it was accepted.
pub shutdown-finished :
    (n m : ℕ) {q : ThreadPool} (h : Reach (init n m) q)
    → 0 < n
    → q.idle ≡ 0
    → q.running ≡ []
    → Perm q.finished (accepted h)
unfolding IsStaffed jobs
shutdown-finished n m {q} h k a b =
    let staffed = reach-IsStaffed n m h in
    rw (b, (staffed.1 (omega (arith, a, ap length b, k))).1) at (reach-jobs n m h)
