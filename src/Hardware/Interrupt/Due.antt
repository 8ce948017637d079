-- ===== src/Hardware/Interrupt/Due.antt =====
-- The loop of `OneTick` over the interrupts that are due: it ends, and leaves none.
use cs350project.Prelude.{
  ℕ, zero, suc, ◌+◌, ◌<◌, ◌≡◌, refl, ◌∙◌, ap, subst, arith, Bool, true, false, ◌||◌, if◌then◌else◌,
  ℤ, pos, ltb_ℤ, List, [], ◌∷◌, Bool-cases, inl, inr, Option, none, some, and_then,
}
use cs350project.Threads.Queue.{ListElement, sorted_insert, sorted_remove}
use cs350project.Threads.Queue.Order.{Ascending, sorted_insert-Ascending}
use cs350project.Hardware.Interrupt.{
  int_off, is_idle, is_off, system_mode, Sim, Devices, invoke, first_due, check_if_due, fire_due,
}
use cs350project.Hardware.Interrupt.Pending.{
  count_due, sorted_insert-count_due, none_due_behind, Ascending-tail, Ahead,
  schedule_all-Scheduled, sorted_remove-nil, sorted_remove-cons,
}

module _ {σ : Type 0} where
  -- Handlers schedule ahead only.
  abbrev pub AllAhead : Devices σ → Type 0
  AllAhead d = (item : ℤ) (w : σ) → Ahead (d.handle item w).requests

  -- What the loop leaves alone.
  pub record Keeps (s s' : Sim σ) : Type 0 where
    pub level : s'.level ≡ s.level
    pub status : s'.status ≡ s.status
    pub total : s'.total_ticks ≡ s.total_ticks
    pub system : s'.system_ticks ≡ s.system_ticks
    pub user : s'.user_ticks ≡ s.user_ticks
    pub idle : s'.idle_ticks ≡ s.idle_ticks

  -- Nothing that is pending is due.
  pub record Settled (s s' : Sim σ) : Type 0 where
    pub kept : Keeps s s'
    pub ascending : Ascending s'.pending.elements
    pub none_due : count_due s'.total_ticks s'.pending.elements ≡ 0

  module _ (d : Devices σ) (ahead : AllAhead d) where
    -- One interrupt that is due.
    record Fired (e : ListElement) (s s' : Sim σ) : Type 0 where
      kept : Keeps s s'
      ascending : Ascending s'.pending.elements
      due :
          count_due s'.total_ticks s'.pending.elements ≡ count_due s.total_ticks s.pending.elements

    invoke-Fired :
        (e : ListElement) (s : Sim σ)
        → Ascending s.pending.elements
        → (s' : Sim σ) × (invoke d e s ≡ some (s', true)) × Fired e s s'
    invoke-Fired e s asc =
        let effect = d.handle e.item (d.delayed_load s.world) in
        let s1 : Sim σ = record s {
          in_handler = true;
          status = system_mode;
          world = effect.world;
          yield_on_return = s.yield_on_return || effect.yields;
        } in
        let (s2, went, sch) =
          schedule_all-Scheduled effect.requests s1 (ahead e.item (d.delayed_load s.world)) asc in
        let s3 : Sim σ = record s1 { pending = sch.queue; in_handler = false; status = s.status } in
        (
          s3,
          ap
                (λ o.
                  and_then o λ s'. some (record s' { in_handler = false; status = s.status }, true))
                went
              ∙ ap
                  (λ (s' : Sim σ). some (record s' { in_handler = false; status = s.status }, true))
                  sch.same,
          record {
            kept = record {
              level = refl;
              status = refl;
              total = refl;
              system = refl;
              user = refl;
              idle = refl;
            };
            ascending = sch.ascending;
            due = sch.due;
          },
        )

    -- The three ways out of `CheckIfDue(FALSE)`, by the elements that are pending.
    check_nil :
        (s : Sim σ)
        → s.level ≡ int_off
        → s.pending.elements ≡ []
        → check_if_due d false s ≡ some (s, false)
    unfolding check_if_due
    check_nil s off empty =
        ap (λ l. if is_off l then first_due d false s (sorted_remove s.pending) else none) off
        ∙ ap (first_due d false s) (sorted_remove-nil s.pending empty)

    check_late :
        (s : Sim σ) (e : ListElement) (es : List ListElement)
        → s.level ≡ int_off
        → s.pending.elements ≡ e ∷ es
        → ltb_ℤ (pos s.total_ticks) e.key ≡ true
        → check_if_due d false s
          ≡ some (
            record s {
              pending = sorted_insert e.item e.key (record (s.pending) { elements = es });
            },
            false,
          )
    unfolding check_if_due
    check_late s e es off some_left late =
        ap (λ l. if is_off l then first_due d false s (sorted_remove s.pending) else none) off
        ∙ (ap (first_due d false s) (sorted_remove-cons s.pending e es some_left) ∙ rw late refl)

    check_due :
        (s : Sim σ) (e : ListElement) (es : List ListElement)
        → s.level ≡ int_off
        → is_idle s.status ≡ false
        → s.pending.elements ≡ e ∷ es
        → ltb_ℤ (pos s.total_ticks) e.key ≡ false
        → check_if_due d false s
          ≡ invoke d e (record s { pending = record (s.pending) { elements = es } })
    unfolding check_if_due
    check_due s e es off busy some_left due =
        ap (λ l. if is_off l then first_due d false s (sorted_remove s.pending) else none) off
        ∙ (ap (first_due d false s) (sorted_remove-cons s.pending e es some_left)
            ∙ rw due (rw busy refl))

    Keeps-self : (s : Sim σ) → Keeps s s
    Keeps-self s = record {
      level = refl;
      status = refl;
      total = refl;
      system = refl;
      user = refl;
      idle = refl;
    }

    Keeps-trans : (a b c : Sim σ) → Keeps a b → Keeps b c → Keeps a c
    Keeps-trans a b c p q = record {
      level = q.level ∙ p.level;
      status = q.status ∙ p.status;
      total = q.total ∙ p.total;
      system = q.system ∙ p.system;
      user = q.user ∙ p.user;
      idle = q.idle ∙ p.idle;
    }

    -- The loop ends settled when it starts with fewer due interrupts than `n`.
    abbrev Settles : ℕ → Sim σ → Type 0
    Settles n s =
        s.level ≡ int_off
        → is_idle s.status ≡ false
        → Ascending s.pending.elements
        → count_due s.total_ticks s.pending.elements < n
        → (s' : Sim σ) × (fire_due d n s ≡ some s') × Settled s s'

    abbrev next_round : ℕ → Sim σ × Bool → Option (Sim σ)
    next_round n (s', fired) = elim fired [ true ↦ fire_due d n s' | false ↦ some s' ]

    step-Settles :
        (n : ℕ) (s : Sim σ) (es : List ListElement)
        → s.pending.elements ≡ es
        → ((s1 : Sim σ) → Settles n s1)
        → Settles (suc n) s
    unfolding fire_due
    step-Settles n s [] empty ih off busy asc lt = (
      s,
      ap (λ o. and_then o (next_round n)) (check_nil s off empty),
      record {
        kept = Keeps-self s;
        ascending = asc;
        none_due = ap (count_due s.total_ticks) empty;
      },
    )
    step-Settles n s (e ∷ es) some_left ih off busy asc lt =
        let asc' : Ascending (e ∷ es) = subst Ascending some_left asc in
        let tail = Ascending-tail e es asc' in
        let s1 : Sim σ = record s { pending = record (s.pending) { elements = es } } in
        elim (Bool-cases (ltb_ℤ (pos s.total_ticks) e.key)) [
          | inl late ↦ (
            record s1 { pending = sorted_insert e.item e.key s1.pending },
            ap (λ o. and_then o (next_round n)) (check_late s e es off some_left late),
            record {
              kept = record {
                level = refl;
                status = refl;
                total = refl;
                system = refl;
                user = refl;
                idle = refl;
              };
              ascending = sorted_insert-Ascending e.item e.key s1.pending tail;
              none_due =
                  sorted_insert-count_due s.total_ticks e.item e.key s1.pending
                  ∙ none_due_behind s.total_ticks e es late asc';
            },
          )
          | inr due ↦
              let (s2, went, f) = invoke-Fired e s1 tail in
              let before : count_due s.total_ticks s.pending.elements
                  ≡ count_due s.total_ticks es + 1 =
                ap (count_due s.total_ticks) some_left ∙ rw due (omega arith) in
              let k = f.kept in
              let (s3, done, settled) =
                ih s2 (k.level ∙ off) (ap is_idle k.status ∙ busy) f.ascending
                  (omega (arith, f.due, before)) in
              (
                s3,
                ap (λ o. and_then o (next_round n)) (check_due s e es off busy some_left due ∙ went)
                    ∙ done,
                record {
                  kept =
                      Keeps-trans s s2 s3
                        (record {
                          level = k.level;
                          status = k.status;
                          total = k.total;
                          system = k.system;
                          user = k.user;
                          idle = k.idle;
                        })
                        settled.kept;
                  ascending = settled.ascending;
                  none_due = settled.none_due;
                },
              )
        ]

    pub fire_due-Settled : (n : ℕ) (s : Sim σ) → Settles n s
    fire_due-Settled zero s = λ off busy asc lt. absurd (omega arith)
    fire_due-Settled (suc n) s = step-Settles n s s.pending.elements refl (fire_due-Settled n)
