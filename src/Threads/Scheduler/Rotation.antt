-- ===== src/Threads/Scheduler/Rotation.antt =====
-- Round robin: every ready thread gets its turn before a thread that yields runs again.
use mathlib.Core.List.{append-nil, append_assoc}
use cs350project.Prelude.{
  ℕ, zero, suc, ◌≡◌, refl, sym, ◌∙◌, ap, ℤ, List, [], ◌∷◌, ◌++◌, length, map,
}
use cs350project.Threads.Queue.{ListElement}
use cs350project.Threads.Queue.Order.{items}
use cs350project.Threads.Scheduler.{Cpu, run, ready_to_run, yield, yield_to}
use cs350project.Threads.Scheduler.States.{items-append, taken, find_next-cons, find_next-nil}

-- The current thread, then the ready ones.
abbrev pub order : Cpu → List ℤ
order c = c.current ∷ items c.ready_list

abbrev pub rotated : List ℤ → List ℤ
rotated [] = []
rotated (t ∷ ts) = ts ++ (t ∷ [])

abbrev pub yields : ℕ → Cpu → Cpu
yields zero c = c
yields (suc n) c = yields n (yield c)

abbrev rotations : ℕ → List ℤ → List ℤ
rotations zero ts = ts
rotations (suc n) ts = rotations n (rotated ts)

yield-order : (c : Cpu) → order (yield c) ≡ rotated (order c)
unfolding yield run ready_to_run
yield-order c = go c.ready_list.elements refl
  where
    go : (es : List ListElement) → c.ready_list.elements ≡ es → order (yield c) ≡ rotated (order c)
    go [] h =
        ap (λ r. order (yield_to r)) (find_next-nil c h)
        ∙ ap (λ es. map (λ (e : ListElement). e.item) es ++ (c.current ∷ [])) (sym h)
    go (e ∷ es) h =
        let rest = map (λ (e : ListElement). e.item) es in
        ap (λ r. order (yield_to r)) (find_next-cons c e es h)
        ∙ (ap (λ ts. e.item ∷ ts) (items-append c.current (taken es c.ready_list))
            ∙ ap (λ es. map (λ (e : ListElement). e.item) es ++ (c.current ∷ [])) (sym h))

rotations-append : (ts us : List ℤ) → rotations (length ts) (ts ++ us) ≡ us ++ ts
rotations-append [] us = sym (append-nil us)
rotations-append (t ∷ ts) us =
    ap (rotations (length ts)) (append_assoc ts us (t ∷ []))
    ∙ (rotations-append ts (us ++ (t ∷ [])) ∙ append_assoc us (t ∷ []) ts)

yields-order : (n : ℕ) (c : Cpu) → order (yields n c) ≡ rotations n (order c)
yields-order zero c = refl
yields-order (suc n) c = yields-order n (yield c) ∙ ap (rotations n) (yield-order c)

head : ℤ → List ℤ → ℤ
head d [] = d
head d (t ∷ ts) = t

-- When as many threads have yielded as there are, counting the running one, the same thread runs and the
-- ready list holds the same threads in the same order; before that, the threads of the ready list ran
-- in its order.
pub yield_round_robin :
    (c : Cpu) (before : List ℤ) (t : ℤ) (after : List ℤ)
    → items c.ready_list ≡ before ++ (t ∷ after)
    → (order (yields (length (order c)) c) ≡ order c)
      × ((yields (suc (length before)) c).current ≡ t)
unfolding head
yield_round_robin c before t after h =
    let all = c.current ∷ before in
    let split : order c ≡ all ++ (t ∷ after) = ap (◌∷◌ c.current) h in
    (
      yields-order (length (order c)) c
          ∙ (ap (rotations (length (order c))) (sym (append-nil (order c)))
              ∙ rotations-append (order c) []),
      ap (head t) (
          yields-order (length all) c
          ∙ (ap (rotations (length all)) split ∙ rotations-append all (t ∷ after))),
    )
