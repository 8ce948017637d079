-- ===== src/Threads/Scheduler/States.antt =====
-- The status of every thread agrees with the processor and the ready list.
use mathlib.Core.List.{map-append}
use cs350project.Prelude.{
  ℕ, suc, ◌+◌, ◌≤◌, ◌≡◌, refl, sym, ◌∙◌, ap, subst, arith, Bool, true, false, if◌then◌else◌, ℤ, pos,
  ◌-ℤ◌, eqb_ℤ, eqb_ℤ_iff, eqb_ℤ_refl, Option, none, some, List, [], ◌∷◌, ◌++◌, map, Bool-cases, inl,
  inr, and_then,
}
use cs350project.Threads.Queue.{ListElement, Queue, append, remove, sorted_remove}
use cs350project.Threads.Queue.Order.{items}
use cs350project.Threads.Scheduler.{
  ThreadStatus, just_created, running, ready, blocked, Cpu, set_status, ready_to_run,
  find_next_to_run, run, yield, yield_to, run_or, sleep_from, sleep,
}

abbrev pub is_running : ThreadStatus → Bool
is_running running = true
is_running _ = false

-- How often a thread with this status is in the ready list.
abbrev pub weight : ThreadStatus → ℕ
weight ready = 1
weight _ = 0

abbrev pub count : ℤ → List ℤ → ℕ
count t [] = 0
count t (u ∷ us) = (if eqb_ℤ u t then 1 else 0) + count t us

-- The running thread is the current one, and the ready threads are in the ready list, once each.
pub record IsSound (c : Cpu) : Type 0 where
  pub current : (t : ℤ) → is_running (c.statuses t) ≡ eqb_ℤ c.current t
  pub listed : (t : ℤ) → count t (items c.ready_list) ≡ weight (c.statuses t)

pub count-snoc :
    (t u : ℤ) (us : List ℤ) → count t (us ++ (u ∷ [])) ≡ count t us + (if eqb_ℤ u t then 1 else 0)
count-snoc t u [] = ground arith
count-snoc t u (v ∷ us) = omega (arith, count-snoc t u us)

pub items-append : (t : ℤ) (q : Queue) → items (append t q) ≡ items q ++ (t ∷ [])
unfolding append
items-append t q = map-append (λ (e : ListElement). e.item) q.elements _

same : (t u : ℤ) → eqb_ℤ t u ≡ true → t ≡ u
same t u h = (eqb_ℤ_iff t u).0 h

-- A thread that neither runs nor is ready can be made ready.
pub ready_to_run-IsSound :
    (t : ℤ) (c : Cpu)
    → IsSound c
    → is_running (c.statuses t) ≡ false
    → weight (c.statuses t) ≡ 0
    → IsSound (ready_to_run t c)
unfolding ready_to_run
ready_to_run-IsSound t c h idle absent = record {
  current = λ u. elim (Bool-cases (eqb_ℤ t u)) [
    | inl here ↦
        rw here (sym (ap (eqb_ℤ c.current) (sym (same t u here)) ∙ (sym (h.current t) ∙ idle)))
    | inr other ↦ rw other (h.current u)
  ];
  listed = λ u. elim (Bool-cases (eqb_ℤ t u)) [
    | inl here ↦
        let was : count u (items c.ready_list) ≡ 0 =
          ap (λ v. count v (items c.ready_list)) (sym (same t u here)) ∙ (h.listed t ∙ absent) in
        ap (count u) (items-append t c.ready_list)
        ∙ (count-snoc u t (items c.ready_list) ∙ rw here (omega (arith, was)))
    | inr other ↦
        ap (count u) (items-append t c.ready_list)
        ∙ (count-snoc u t (items c.ready_list) ∙ rw other (omega (arith, h.listed u)))
  ];
}

weight-le : (s : ThreadStatus) → weight s ≤ 1
weight-le just_created = omega arith
weight-le running = omega arith
weight-le ready = omega arith
weight-le blocked = omega arith

running-weight : (s : ThreadStatus) → is_running s ≡ true → weight s ≡ 0
running-weight just_created h = refl
running-weight running h = refl
running-weight ready h = absurd (cc)
running-weight blocked h = refl

weight-running : (s : ThreadStatus) → weight s ≡ 1 → is_running s ≡ false
weight-running just_created h = refl
weight-running running h = absurd (omega (arith, h))
weight-running ready h = refl
weight-running blocked h = refl

-- The ready list without its first element.
abbrev pub taken : List ListElement → Queue → Queue
taken es q = record { elements = es; size = q.size -ℤ pos 1 }

remove-cons :
    (q : Queue) (e : ListElement) (es : List ListElement)
    → q.elements ≡ e ∷ es
    → remove q ≡ (taken es q, some e)
unfolding remove sorted_remove
remove-cons q e es h = rw h refl

pub find_next-cons :
    (c : Cpu) (e : ListElement) (es : List ListElement)
    → c.ready_list.elements ≡ e ∷ es
    → find_next_to_run c ≡ (record c { ready_list = taken es c.ready_list }, some e)
unfolding find_next_to_run
find_next-cons c e es h =
    ap (λ r. (record c { ready_list = r.0 }, r.1)) (remove-cons c.ready_list e es h)

-- The list without the thread that is about to run.
listed_after :
    (c : Cpu) (e : ListElement) (es : List ListElement)
    → IsSound c
    → c.ready_list.elements ≡ e ∷ es
    → (u : ℤ)
    → (if eqb_ℤ e.item u then 1 else 0) + count u (items (taken es c.ready_list))
      ≡ weight (c.statuses u)
listed_after c e es h some_ready u =
    ap (λ es. count u (map (λ (e : ListElement). e.item) es)) (sym some_ready) ∙ h.listed u

-- The current thread gets a status in which it does not run, and is put back into the list if that is
-- `ready`; the first thread of the list runs.
abbrev pub switched : ThreadStatus → ListElement → List ListElement → Cpu → Cpu
switched ready e es c =
    run e.item (ready_to_run c.current (record c { ready_list = taken es c.ready_list }))
switched status e es c =
    run e.item (set_status c.current status (record c { ready_list = taken es c.ready_list }))

module _ (c : Cpu) (e : ListElement) (es : List ListElement) (h : IsSound c)
    (some_ready : c.ready_list.elements ≡ e ∷ es) where
  next_was_ready :
      (u : ℤ)
      → eqb_ℤ e.item u ≡ true
      → (count u (items (taken es c.ready_list)) ≡ 0) × (eqb_ℤ c.current u ≡ false)
  next_was_ready u here =
      let l = listed_after c e es h some_ready u in
      let w = weight-le (c.statuses u) in
      let l' : 1 + count u (items (taken es c.ready_list)) ≡ weight (c.statuses u) = rw here at l in
      let one : weight (c.statuses u) ≡ 1 = omega (arith, l', w) in
      (omega (arith, l', w), sym (h.current u) ∙ weight-running (c.statuses u) one)

  running_after :
      (status : ThreadStatus) (u : ℤ)
      → is_running status ≡ false
      → is_running
          (if eqb_ℤ e.item u then running else if eqb_ℤ c.current u then status else c.statuses u)
        ≡ eqb_ℤ e.item u
  running_after status u idle = elim (Bool-cases (eqb_ℤ e.item u)) [
    | inl here ↦ rw here refl
    | inr other ↦ elim (Bool-cases (eqb_ℤ c.current u)) [
      | inl old ↦ rw (other, old) idle
      | inr third ↦ rw (other, third) (h.current u ∙ third)
    ]
  ]

  -- `Yield` with another thread ready.
  yielded-IsSound : IsSound (switched ready e es c)
  unfolding run ready_to_run
  yielded-IsSound = record {
    current = λ u. running_after ready u refl;
    listed = λ u.
        let l = listed_after c e es h some_ready u in
        ap (count u) (items-append c.current (taken es c.ready_list))
        ∙ (count-snoc u c.current (items (taken es c.ready_list))
            ∙ elim (Bool-cases (eqb_ℤ e.item u)) [
              | inl here ↦
                  let (none_left, other) = next_was_ready u here in
                  rw (here, other) (omega (arith, none_left))
              | inr other ↦
                  let l' = rw other at l in
                  elim (Bool-cases (eqb_ℤ c.current u)) [
                    | inl old ↦
                        let idle = running-weight (c.statuses u) (h.current u ∙ old) in
                        rw (other, old) (omega (arith, l', idle))
                    | inr third ↦ rw (other, third) (omega (arith, l'))
                  ]
            ]);
  }

  -- `Sleep` with a thread ready.
  slept-IsSound : IsSound (switched blocked e es c)
  unfolding run
  slept-IsSound = record {
    current = λ u. running_after blocked u refl;
    listed = λ u.
        let l = listed_after c e es h some_ready u in
        elim (Bool-cases (eqb_ℤ e.item u)) [
          | inl here ↦ let (none_left, other) = next_was_ready u here in rw here none_left
          | inr other ↦
              let l' = rw other at l in
              elim (Bool-cases (eqb_ℤ c.current u)) [
                | inl old ↦
                    let idle = running-weight (c.statuses u) (h.current u ∙ old) in
                    rw (other, old) (omega (arith, l', idle))
                | inr third ↦ rw (other, third) (omega (arith, l'))
              ]
        ];
  }

remove-nil : (q : Queue) → q.elements ≡ [] → remove q ≡ (taken [] q, none)
unfolding remove sorted_remove
remove-nil q h =
    let f : List ListElement → Queue × Option ListElement = λ es. (taken es q, none) in
    rw h (ap f h)

pub find_next-nil :
    (c : Cpu)
    → c.ready_list.elements ≡ []
    → find_next_to_run c ≡ (record c { ready_list = taken [] c.ready_list }, none)
unfolding find_next_to_run
find_next-nil c h = ap (λ r. (record c { ready_list = r.0 }, r.1)) (remove-nil c.ready_list h)

emptied-IsSound :
    (c : Cpu)
    → IsSound c
    → c.ready_list.elements ≡ []
    → IsSound (record c { ready_list = taken [] c.ready_list })
emptied-IsSound c h none_ready = record {
  current = h.current;
  listed =
      λ u. ap (λ es. count u (map (λ (e : ListElement). e.item) es)) (sym none_ready) ∙ h.listed u;
}

-- `Yield` keeps the statuses in agreement with the processor and the ready list, whether a thread is
-- ready or not: the running thread is the current one, and the ready ones are listed once each.
pub yield-IsSound : (c : Cpu) → IsSound c → IsSound (yield c)
unfolding yield
yield-IsSound c h = go c.ready_list.elements refl
  where
    go : (es : List ListElement) → c.ready_list.elements ≡ es → IsSound (yield c)
    go [] none_ready =
        subst (λ r. IsSound (yield_to r)) (sym (find_next-nil c none_ready))
          (emptied-IsSound c h none_ready)
    go (e ∷ es) some_ready =
        subst (λ r. IsSound (yield_to r)) (sym (find_next-cons c e es some_ready))
          (yielded-IsSound c e es h some_ready)

-- `Sleep` with a thread ready returns after one look at the ready list: the first ready thread runs,
-- the thread that went to sleep is blocked, and the statuses still agree.
pub sleep-IsSound :
    (idle : Cpu → Option Cpu) (fuel : ℕ) (c : Cpu) (e : ListElement) (es : List ListElement)
    → IsSound c
    → c.ready_list.elements ≡ e ∷ es
    → (c' : Cpu) × (sleep idle (suc fuel) c ≡ some c')
      × IsSound c'
      × (c'.current ≡ e.item)
      × (c'.statuses c.current ≡ blocked)
unfolding sleep sleep_from run
sleep-IsSound idle fuel c e es h some_ready =
    let c0 = set_status c.current blocked c in
    let apart : eqb_ℤ e.item c.current ≡ false = elim (Bool-cases (eqb_ℤ e.item c.current)) [
      | inl here ↦
          let (none_left, other) = next_was_ready c e es h some_ready c.current here in
          absurd (ground (arith, other, eqb_ℤ_refl c.current))
      | inr other ↦ other
    ] in
    (
      switched blocked e es c,
      ap (run_or λ c'. and_then (idle c') (sleep_from idle fuel))
          (find_next-cons c0 e es some_ready),
      slept-IsSound c e es h some_ready,
      refl,
      rw apart (rw (eqb_ℤ_refl c.current) refl),
    )
