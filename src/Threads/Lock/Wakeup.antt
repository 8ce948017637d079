-- ===== src/Threads/Lock/Wakeup.antt =====
-- When the condition of threads/synch.cc has a lock.
use cs350project.Prelude.{
  ℕ, ◌≡◌, ◌↔◌, ◌≢◌, refl, ◌==◌, List, [], ◌∷◌, ◌++◌, Option, none, some, arith, Bool-cases,
  Option-cases, inl, inr,
}
use cs350project.Threads.Lock.{Kernel, wait, signal, same_lock, waiting_for}

-- A condition remembers a lock exactly while threads wait.
abbrev pub Paired : Option ℕ → List ℕ → Type 0
Paired lock ts = (lock ≡ none) ↔ (ts ≡ [])

snoc-ne_nil : (ts : List ℕ) (t : ℕ) → ts ++ (t ∷ []) ≢ []
snoc-ne_nil [] t h = absurd (cc)
snoc-ne_nil (u ∷ ts) t h = absurd (cc)

Paired-park : (lock t : ℕ) (ts : List ℕ) → Paired (some lock) (ts ++ (t ∷ []))
Paired-park lock t ts = (λ e. absurd (cc), λ e. absurd (snoc-ne_nil ts t e))

-- `Wait` keeps the condition's lock null exactly while no thread waits, on each of its branches.
pub wait-Paired :
    (t : ℕ) (lock : Option ℕ) (k : Kernel)
    → Paired k.condition.waiting_lock k.condition.wait_queue
    → Paired ((wait t lock k).0).condition.waiting_lock ((wait t lock k).0).condition.wait_queue
unfolding wait
wait-Paired t none k h = h
wait-Paired t (some lock) k h = elim (Option-cases k.condition.waiting_lock) [
  | inl new ↦ rw new (Paired-park lock t k.condition.wait_queue)
  | inr (i, other) ↦ rw other (elim (Bool-cases (i == lock)) [
    | inl same ↦ rw same (Paired-park lock t k.condition.wait_queue)
    | inr different ↦ rw different (rw other at h)
  ])
]

Paired-signal : (lock : Option ℕ) (ts : List ℕ) → lock ≢ none → Paired (waiting_for ts lock) ts
Paired-signal lock [] h = (λ e. refl, λ e. refl)
Paired-signal lock (t ∷ ts) h = (λ e. absurd (h e), λ e. absurd (cc))

-- `Signal` keeps the condition's lock null exactly while no thread waits, on each of its branches.
pub signal-Paired :
    (lock : Option ℕ) (k : Kernel)
    → Paired k.condition.waiting_lock k.condition.wait_queue
    → Paired (signal lock k).condition.waiting_lock (signal lock k).condition.wait_queue
unfolding signal
signal-Paired lock k h = go k.condition.wait_queue refl
  where
    go :
        (ts : List ℕ)
        → k.condition.wait_queue ≡ ts
        → Paired (signal lock k).condition.waiting_lock (signal lock k).condition.wait_queue
    go [] q = rw q (rw q at h)
    go (t ∷ ts) q =
        let owned : k.condition.waiting_lock ≢ none = λ e. absurd (ground (arith, q, h.0 e)) in
        rw q (elim (Bool-cases (same_lock k.condition.waiting_lock lock)) [
          | inl same ↦ rw same (Paired-signal k.condition.waiting_lock ts owned)
          | inr different ↦ rw different (rw q at h)
        ])
