-- ===== src/Threads/Semaphore/Steps.antt =====
-- The steps of threads that share a semaphore, in any order.
use cs350project.Prelude.{
  ℕ, ◌+◌, ◌≤◌, ◌<◌, ◌≡◌, ◌≢◌, refl, ap, ◌==◌, Bool, true, false, List, [], ◌∷◌, ◌++◌, length,
  length-append, Option, none, some, arith, Bool-cases, inl, inr,
}
use cs350project.Threads.Semaphore.{Semaphore, try_p, v}

-- The semaphore, the threads that `V` made ready and that have still to repeat their test, and how
-- many calls of `P` and of `V` are complete.
pub record World : Type 0 where
  pub semaphore : Semaphore
  pub woken : List ℕ
  pub passed : ℕ
  pub raised : ℕ

abbrev pub after_try : World → List ℕ → Semaphore × Bool → World
after_try w woken (s, true) = record w { semaphore = s; woken = woken; passed = w.passed + 1 }
after_try w woken (s, false) = record w { semaphore = s; woken = woken }

abbrev pub after_v : World → Semaphore × Option ℕ → World
after_v w (s, none) = record w { semaphore = s; raised = w.raised + 1 }
after_v w (s, some t) = record w {
  semaphore = s;
  woken = w.woken ++ (t ∷ []);
  raised = w.raised + 1;
}

-- A thread that calls `P`, a woken thread that comes to run, and a call of `V`.
pub data Step : World → World → Type 0 where
  enter_p : (w : World) (t : ℕ) → Step w (after_try w w.woken (try_p t w.semaphore))
  repeat_p :
      (w : World) (before after : List ℕ) (t : ℕ)
      → w.woken ≡ before ++ (t ∷ after)
      → Step w (after_try w (before ++ after) (try_p t w.semaphore))
  call_v : (w : World) → Step w (after_v w (v w.semaphore))

pub data Reachable (n : ℕ) : World → Type 0 where
  start :
      Reachable n (record {
        semaphore = record { value = n; queue = [] };
        woken = [];
        passed = 0;
        raised = 0;
      })
  next : {w w' : World} → Reachable n w → Step w w' → Reachable n w'

-- No wake-up is lost: while threads sleep, every unit of the value has a woken thread to take it.
pub record IsSound (n : ℕ) (w : World) : Type 0 where
  pub balance : w.semaphore.value + w.passed ≡ n + w.raised
  pub awake : w.semaphore.queue ≢ [] → w.semaphore.value ≤ length w.woken

try-IsSound :
    (n t : ℕ) (w : World) (woken : List ℕ)
    → IsSound n w
    → length w.woken ≤ length woken + 1
    → IsSound n (after_try w woken (try_p t w.semaphore))
unfolding try_p
try-IsSound n t w woken h enough = elim (Bool-cases (w.semaphore.value == 0)) [
  | inl zero_value ↦
      let none_left : w.semaphore.value ≡ 0 = ground arith in
      rw zero_value (record { balance = h.balance; awake = λ q. omega (arith, none_left) })
  | inr positive ↦
      let some_left : 0 < w.semaphore.value = ground arith in
      rw positive
        (record { balance = omega (arith, h.balance); awake = λ q. omega (arith, h.awake q) })
]

v-IsSound : (n : ℕ) (w : World) → IsSound n w → IsSound n (after_v w (v w.semaphore))
unfolding v
v-IsSound n w h = go w.semaphore.queue refl
  where
    go : (q : List ℕ) → w.semaphore.queue ≡ q → IsSound n (after_v w (v w.semaphore))
    go [] e = rw e (record { balance = omega (arith, h.balance); awake = λ q. absurd (q refl) })
    go (t ∷ ts) e =
        let asleep : w.semaphore.queue ≢ [] = λ nil. absurd (cc) in
        rw e (record {
          balance = omega (arith, h.balance);
          awake = λ q. omega (arith, h.awake asleep, length-append w.woken (t ∷ []));
        })

Step-IsSound : (n : ℕ) (w w' : World) → Step w w' → IsSound n w → IsSound n w'
Step-IsSound n _ _ (enter_p w t) h = try-IsSound n t w w.woken h (omega arith)
Step-IsSound n _ _ (repeat_p w before after t e) h =
    let size = ap length e in
    try-IsSound n t w (before ++ after) h
      (omega (arith, size, length-append before (t ∷ after), length-append before after))
Step-IsSound n _ _ (call_v w) h = v-IsSound n w h

-- Whatever the order of the steps, the value and the completed calls of `P` are together the
-- initial value and the completed calls of `V`, and while threads sleep at least as many woken
-- threads as the value counts have still to repeat their test.
pub reachable-IsSound : (n : ℕ) (w : World) → Reachable n w → IsSound n w
reachable-IsSound n _ start = record { balance = omega arith; awake = λ q. absurd (q refl) }
reachable-IsSound n w (next r step) = Step-IsSound n _ w step (reachable-IsSound n _ r)
