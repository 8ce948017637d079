-- ===== src/Threads/Lock/Progress.antt =====
-- How far the rounds of `Broadcast` of threads/synch.cc have come, whatever the other threads do.
use mathlib.Core.List.{append_assoc, append-nil}
use cs350project.Prelude.{
  ℕ, suc, ◌≡◌, ◌≤◌, refl, sym, ap, ◌∙◌, ◌==◌, true, false, List, [], ◌∷◌, ◌++◌, length,
  length-append, Option, none, some, arith, Bool-cases, ◌⊎◌, inl, inr,
}
use cs350project.Threads.Lock.{
  Condition, Kernel, made_ready, release, wait, wait_on, park, signal, signal_queue, same_lock,
  waiting_for, Move, acquires, releases, waits, signals, awakens, Rounds, entered, round, other,
}
use cs350project.Threads.Lock.Woken.{nothing, Woken, Woken-more, Woken-also, Woken-made}

-- Of the threads `ts` that waited at the start, `gone` were woken and `left` are still ahead in the queue.
pub record Progress (lock : ℕ) (before ts : List ℕ) (n : ℕ) (k : Kernel) : Type 0 where
  pub gone : List ℕ
  pub left : List ℕ
  pub newer : List ℕ
  pub split : ts ≡ gone ++ left
  pub queue : k.condition.wait_queue ≡ left ++ newer
  pub woken : Woken before gone k.ready
  pub paired : (left ≡ []) ⊎ (k.condition.waiting_lock ≡ some lock)
  pub counted : (left ≡ []) ⊎ (n ≤ length gone)

-- The kernel after a signal that woke `t`.
abbrev popped : ℕ → List ℕ → Kernel → Kernel
popped t rest k = record k {
  condition = record {
    waiting_lock = waiting_for rest k.condition.waiting_lock;
    wait_queue = rest;
  };
  ready = k.ready ++ (t ∷ []);
}

self_eq : (n : ℕ) → (n == n) ≡ true
self_eq n = ground arith

pub append-empty : (xs ys : List ℕ) → xs ++ ys ≡ [] → xs ≡ []
append-empty [] ys h = refl
append-empty (x ∷ xs) ys h = absurd (cc)

counts : (gone : List ℕ) (t n : ℕ) → n ≤ length gone → suc n ≤ length (gone ++ (t ∷ []))
counts gone t n le = let l = length-append gone (t ∷ []) in omega arith

still_paired :
    {lock : ℕ} (us newer rest : List ℕ) (o : Option ℕ)
    → rest ≡ us ++ newer
    → o ≡ some lock
    → (us ≡ []) ⊎ (waiting_for rest o ≡ some lock)
still_paired [] newer rest o e h = inl refl
still_paired (u ∷ us) newer rest o e h = inr (rw e h)

module _ (lock : ℕ) (before ts : List ℕ) where
  lower : (n : ℕ) (k : Kernel) → Progress lock before ts (suc n) k → Progress lock before ts n k
  lower n k p = record {
    gone = p.gone;
    left = p.left;
    newer = p.newer;
    split = p.split;
    queue = p.queue;
    woken = p.woken;
    paired = p.paired;
    counted = elim p.counted [ inl e ↦ inl e | inr le ↦ inr (omega arith) ];
  }

  -- Locks and further ready threads do not matter.
  beside :
      (n : ℕ) (k k' : Kernel) (o : Option ℕ)
      → k'.condition ≡ k.condition
      → k'.ready ≡ made_ready o k.ready
      → Progress lock before ts n k
      → Progress lock before ts n k'
  beside n k k' o same ready p = record {
    gone = p.gone;
    left = p.left;
    newer = p.newer;
    split = p.split;
    queue = ap (λ (c : Condition). c.wait_queue) same ∙ p.queue;
    woken = rw ready (Woken-made before p.gone k.ready o p.woken);
    paired = elim p.paired [
      | inl e ↦ inl e
      | inr e ↦ inr (ap (λ (c : Condition). c.waiting_lock) same ∙ e)
    ];
    counted = p.counted;
  }

  -- A thread parks behind the others: with the lock that the condition has, or with any when none has to wait.
  parked :
      (n t i : ℕ) (k : Kernel) (p : Progress lock before ts n k)
      → (p.left ≡ []) ⊎ (i ≡ lock)
      → Progress lock before ts n (park t i k)
  parked n t i k p fits = record {
    gone = p.gone;
    left = p.left;
    newer = p.newer ++ (t ∷ []);
    split = p.split;
    queue = ap (λ q. q ++ (t ∷ [])) p.queue ∙ append_assoc p.left p.newer (t ∷ []);
    woken = Woken-made before p.gone k.ready (release t (k.locks i)).1 p.woken;
    paired = elim fits [ inl e ↦ inl e | inr e ↦ inr (ap some e) ];
    counted = p.counted;
  }

  waited_on :
      (n t i : ℕ) (k : Kernel) (o : Option ℕ) (p : Progress lock before ts n k)
      → (p.left ≡ []) ⊎ (o ≡ some lock)
      → Progress lock before ts n (wait_on o t i k).0
  waited_on n t i k none p (inl e) = parked n t i k p (inl e)
  waited_on n t i k none p (inr e) = absurd (cc)
  waited_on n t i k (some j) p fits = elim (Bool-cases (j == i)) [
    | inl here ↦
        rw here
          (parked n t i k p (elim fits [ inl e ↦ inl e | inr e ↦ inr (ground (arith, here, e)) ]))
    | inr apart ↦ rw apart p
  ]

  waited :
      (n t : ℕ) (l : Option ℕ) (k : Kernel)
      → Progress lock before ts n k
      → Progress lock before ts n (wait t l k).0
  unfolding wait
  waited n t none k p = p
  waited n t (some i) k p = waited_on n t i k k.condition.waiting_lock p p.paired

  -- The thread at the head of the queue is woken.
  woke :
      (n : ℕ) (k : Kernel) (t : ℕ) (rest gone left newer : List ℕ)
      → ts ≡ gone ++ left
      → t ∷ rest ≡ left ++ newer
      → Woken before gone k.ready
      → (left ≡ []) ⊎ (k.condition.waiting_lock ≡ some lock)
      → (left ≡ []) ⊎ (n ≤ length gone)
      → Progress lock before ts (suc n) (popped t rest k)
  woke n k t rest gone [] newer split queue w paired counted = record {
    gone = gone;
    left = [];
    newer = rest;
    split = split;
    queue = refl;
    woken = Woken-more before gone k.ready t w;
    paired = inl refl;
    counted = inl refl;
  }
  woke n k t rest gone (u ∷ us) newer split queue w paired counted =
      let head : t ≡ u = cc in
      let tail : rest ≡ us ++ newer = cc in
      record {
        gone = gone ++ (t ∷ []);
        left = us;
        newer = newer;
        split =
            split ∙ (ap (λ v. gone ++ (v ∷ us)) (sym head) ∙ sym (append_assoc gone (t ∷ []) us));
        queue = tail;
        woken = Woken-also before gone k.ready t w;
        paired = still_paired us newer rest k.condition.waiting_lock tail (or_left paired);
        counted = inr (counts gone t n (or_left counted));
      }
    where
      or_left : {P : Type 0} → ((u ∷ us) ≡ []) ⊎ P → P
      or_left (inl e) = absurd (cc)
      or_left (inr h) = h

  -- A signal wakes the head of the queue, or does nothing: with another lock, or on an empty queue.
  by_signal :
      (l : Option ℕ) (k : Kernel) (Q : Kernel → Type 0)
      → ((t : ℕ) (rest : List ℕ)
          → k.condition.wait_queue ≡ t ∷ rest
          → same_lock k.condition.waiting_lock l ≡ true
          → Q (popped t rest k))
      → ((k.condition.wait_queue ≡ []) ⊎ (same_lock k.condition.waiting_lock l ≡ false) → Q k)
      → Q (signal l k)
  unfolding signal
  by_signal l k Q wakes idle = go k.condition.wait_queue refl
    where
      go : (q : List ℕ) → k.condition.wait_queue ≡ q → Q (signal_queue q l k)
      go [] e = idle (inl e)
      go (t ∷ rest) e = elim (Bool-cases (same_lock k.condition.waiting_lock l)) [
        | inl same ↦ rw same (wakes t rest e same)
        | inr different ↦ rw different (idle (inr different))
      ]

  signalled :
      (n : ℕ) (l : Option ℕ) (k : Kernel)
      → Progress lock before ts n k
      → Progress lock before ts n (signal l k)
  signalled n l k p =
      by_signal l k (Progress lock before ts n)
        (λ t rest e same. lower n _ (
          woke n k t rest p.gone p.left p.newer p.split (sym e ∙ p.queue) p.woken p.paired
            p.counted))
        λ idle. p

  -- The signal of a round wakes the first of the threads that are left.
  rounded :
      (n : ℕ) (k : Kernel)
      → Progress lock before ts n k
      → Progress lock before ts (suc n) (signal (some lock) k)
  rounded n k p =
      by_signal (some lock) k (Progress lock before ts (suc n))
        (λ t rest e same.
          woke n k t rest p.gone p.left p.newer p.split (sym e ∙ p.queue) p.woken p.paired
            p.counted)
        λ idle. record {
          gone = p.gone;
          left = p.left;
          newer = p.newer;
          split = p.split;
          queue = p.queue;
          woken = p.woken;
          paired = p.paired;
          counted = inl (nobody_left p idle);
        }
    where
      nobody_left :
          (q : Progress lock before ts n k)
          → (k.condition.wait_queue ≡ []) ⊎ (same_lock k.condition.waiting_lock (some lock) ≡ false)
          → q.left ≡ []
      nobody_left q (inl e) = append-empty q.left q.newer (sym q.queue ∙ e)
      nobody_left q (inr different) = elim q.paired [
        | inl e ↦ e
        | inr e ↦ absurd (ground (arith, rw e at different, self_eq lock))
      ]

  moved :
      (n : ℕ) {k k' : Kernel}
      → Move k k'
      → Progress lock before ts n k
      → Progress lock before ts n k'
  moved n (acquires t i k) p = beside n k _ none refl refl p
  moved n (releases t i k) p = beside n k _ (release t (k.locks i)).1 refl refl p
  moved n (waits t l k) p = waited n t l k p
  moved n (signals l k) p = signalled n l k p
  moved n (awakens t k) p = beside n k _ (some t) refl refl p

pub run-Progress :
    (lock : ℕ) (k : Kernel) {n : ℕ} {k' : Kernel}
    → k.condition.waiting_lock ≡ some lock
    → Rounds lock k n k'
    → Progress lock k.ready k.condition.wait_queue n k'
run-Progress lock k start entered = record {
  gone = [];
  left = k.condition.wait_queue;
  newer = [];
  split = refl;
  queue = sym (append-nil k.condition.wait_queue);
  woken = record { fresh = []; appended = sym (append-nil k.ready); within = nothing };
  paired = inr start;
  counted = inr (omega arith);
}
run-Progress lock k start (round {n} {k'} r) =
    rounded lock k.ready k.condition.wait_queue n k' (run-Progress lock k start r)
run-Progress lock k start (other {n} r m) =
    moved lock k.ready k.condition.wait_queue n m (run-Progress lock k start r)
