-- ===== src/Hardware/Interrupt/Pending.antt =====
-- The list of pending interrupts, by how many of them are due.
use cs350project.Prelude.{
  ℕ, ◌+◌, ◌≡◌, refl, ◌∙◌, arith, Bool, true, not, if◌then◌else◌, ℤ, pos, ◌+ℤ◌, ltb_ℤ, List, [], ◌∷◌,
  Bool-cases, inl, inr, none, some,
}
use cs350project.Threads.Queue.{
  ListElement, Queue, insert_after, insert_sorted, sorted_insert, sorted_remove,
}
use cs350project.Threads.Queue.Order.{Ascending, sorted_insert-Ascending}
use cs350project.Hardware.Interrupt.{Sim, schedule, schedule_all}

abbrev pub is_due : ℕ → ListElement → Bool
is_due now e = not (ltb_ℤ (pos now) e.key)

abbrev pub count_due : ℕ → List ListElement → ℕ
count_due now [] = 0
count_due now (e ∷ es) = (if is_due now e then 1 else 0) + count_due now es

insert_after-count_due :
    (now : ℕ) (e : ListElement) (es : List ListElement)
    → count_due now (insert_after e es) ≡ count_due now (e ∷ es)
insert_after-count_due now e [] = refl
insert_after-count_due now e (f ∷ es) = elim (Bool-cases (ltb_ℤ e.key f.key)) [
  | inl before ↦ rw before refl
  | inr after ↦ rw after (omega (arith, insert_after-count_due now e es))
]

pub sorted_insert-count_due :
    (now : ℕ) (item key : ℤ) (q : Queue)
    → count_due now (sorted_insert item key q).elements
      ≡ count_due now (record { item = item; key = key } ∷ q.elements)
unfolding sorted_insert
sorted_insert-count_due now item key q = go q.elements
  where
    e : ListElement
    e = record { item = item; key = key }

    go : (es : List ListElement) → count_due now (insert_sorted e es) ≡ count_due now (e ∷ es)
    go [] = refl
    go (f ∷ es) = elim (Bool-cases (ltb_ℤ e.key f.key)) [
      | inl before ↦ rw before refl
      | inr after ↦ rw after (omega (arith, insert_after-count_due now e es))
    ]

-- With the keys ascending, nothing is due behind an element that is not.
pub none_due_behind :
    (now : ℕ) (e : ListElement) (es : List ListElement)
    → ltb_ℤ (pos now) e.key ≡ true
    → Ascending (e ∷ es)
    → count_due now (e ∷ es) ≡ 0
none_due_behind now e [] late asc = rw late refl
none_due_behind now e (f ∷ es) late (le, asc) =
    let later : ltb_ℤ (pos now) f.key ≡ true = ground (arith, late, le) in
    rw late (omega (arith, none_due_behind now f es later asc))

pub Ascending-tail : (e : ListElement) (es : List ListElement) → Ascending (e ∷ es) → Ascending es
Ascending-tail e [] asc = tt
Ascending-tail e (f ∷ es) (le, asc) = asc

ahead_late : (t : ℕ) (r : ℤ) → ltb_ℤ (pos 0) r ≡ true → ltb_ℤ (pos t) (pos t +ℤ r) ≡ true
ahead_late t r h = ground (arith, h)

-- Each request lies ahead.
abbrev pub Ahead : List (ℤ × ℤ) → Type 0
Ahead [] = Unit {0}
Ahead ((item, r) ∷ rs) = (ltb_ℤ (pos 0) r ≡ true) × Ahead rs

module _ {σ : Type 0} where
  -- The state but for the queue.
  pub record Scheduled (s s' : Sim σ) : Type 0 where
    pub queue : Queue
    pub same : s' ≡ record s { pending = queue }
    pub ascending : Ascending queue.elements
    pub due : count_due s.total_ticks queue.elements ≡ count_due s.total_ticks s.pending.elements

  pub schedule_all-Scheduled :
      (rs : List (ℤ × ℤ)) (s : Sim σ)
      → Ahead rs
      → Ascending s.pending.elements
      → (s' : Sim σ) × (schedule_all rs s ≡ some s') × Scheduled s s'
  unfolding schedule_all schedule
  schedule_all-Scheduled [] s ahead asc =
      (s, refl, record { queue = s.pending; same = refl; ascending = asc; due = refl })
  schedule_all-Scheduled ((item, r) ∷ rs) s (h, ahead) asc =
      let key = pos s.total_ticks +ℤ r in
      let q = sorted_insert item key s.pending in
      let (s', went, rest) =
        schedule_all-Scheduled rs (record s { pending = q }) ahead
          (sorted_insert-Ascending item key s.pending asc) in
      (
        s',
        rw h went,
        record {
          queue = rest.queue;
          same = rest.same;
          ascending = rest.ascending;
          due =
              rest.due
              ∙ (sorted_insert-count_due s.total_ticks item key s.pending
                  ∙ rw (ahead_late s.total_ticks r h) (omega arith));
        },
      )

pub sorted_remove-nil : (q : Queue) → q.elements ≡ [] → sorted_remove q ≡ (q, none)
unfolding sorted_remove
sorted_remove-nil q h = rw h refl

pub sorted_remove-cons :
    (q : Queue) (e : ListElement) (es : List ListElement)
    → q.elements ≡ e ∷ es
    → sorted_remove q ≡ (record q { elements = es }, some e)
unfolding sorted_remove
sorted_remove-cons q e es h = rw h refl
