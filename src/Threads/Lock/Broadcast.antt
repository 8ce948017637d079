-- ===== src/Threads/Lock/Broadcast.antt =====
-- Which threads the rounds of `Broadcast` of threads/synch.cc wake, whatever the others do.
use mathlib.Core.List.{append-nil}
use cs350project.Prelude.{
  ℕ, ◌≡◌, ◌≤◌, refl, sym, ap, subst, ◌∙◌, true, List, [], ◌∷◌, ◌++◌, length, length-append, Option,
  none, some, arith, ◌⊎◌, inl, inr,
}
use cs350project.Threads.Lock.{Kernel, same_lock, broadcast_starts, Rounds}
use cs350project.Threads.Lock.Woken.{Woken}
use cs350project.Threads.Lock.Progress.{append-empty, run-Progress}

same_lock-eq : (o : Option ℕ) (lock : ℕ) → same_lock (some lock) o ≡ true → o ≡ some lock
same_lock-eq none lock h = absurd (cc)
same_lock-eq (some i) lock h = ground (arith, h)

all_gone : (ts gone left : List ℕ) → ts ≡ gone ++ left → length ts ≤ length gone → left ≡ []
all_gone ts gone [] e le = refl
all_gone ts gone (u ∷ us) e le =
    let l = ap (λ (xs : List ℕ). length xs) e ∙ length-append gone (u ∷ us) in absurd (omega arith)

-- Let a `Broadcast` go on to its loop, and other threads acquire, release, wait, signal and wake others
-- as they like between its rounds. Once it has done as many rounds as threads waited when it began, or has found the queue
-- empty, all of those threads were made ready since, in the order in which they waited.
pub broadcast_wakes_all :
    (lock : ℕ) (k k' : Kernel) (n : ℕ)
    → broadcast_starts (some lock) k ≡ true
    → Rounds lock k n k'
    → (length k.condition.wait_queue ≤ n) ⊎ (k'.condition.wait_queue ≡ [])
    → Woken k.ready k.condition.wait_queue k'.ready
unfolding broadcast_starts
broadcast_wakes_all lock k k' n starts r ends =
    let p = run-Progress lock k (same_lock-eq k.condition.waiting_lock lock starts) r in
    let none_left : p.left ≡ [] = elim p.counted [
      | inl e ↦ e
      | inr le ↦ elim ends [
        | inl enough ↦ all_gone k.condition.wait_queue p.gone p.left p.split (omega arith)
        | inr empty ↦ append-empty p.left p.newer (sym p.queue ∙ empty)
      ]
    ] in
    let all : p.gone ≡ k.condition.wait_queue =
      sym (p.split ∙ (ap (λ xs. p.gone ++ xs) none_left ∙ append-nil p.gone)) in
    subst (λ g. Woken k.ready g k'.ready) all p.woken
