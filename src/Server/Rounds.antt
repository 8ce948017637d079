-- ===== src/Server/Rounds.antt =====
-- The loop of `Broadcast_server`, which hands each waiter to `Acquire_server`.
use cs350project.Prelude.{
  ℕ, ◌≡◌, refl, ap, ◌∙◌, ltb, in_range, pos, true, Bool-cases, inl, inr, some, List, [], ◌∷◌, ◌++◌,
  set, get_elem?, get_elem?-set_self, lt_length_of_get, length, arith,
}
use cs350project.Server.State.{
  lit, busy, ServerThread, M, ◌>>=◌, pure, branch, or_crash, by_queue, get_cond,
  send_message_to_client, num_boxes, Waiter, ServerLock, ServerCond, Headers, Env, Server, done,
  halted, crashed, thread_eq, validate_condition_index,
}
use cs350project.Server.Locks.{waiter_of, acquire_server}
use cs350project.Server.Conditions.{
  restore_sender, touch_queue, signal_head, signal_without_send, signal_all,
}
use cs350project.Server.LockSpec.{
  IsHealthy, LockStatus-cases, view, held, request, thread_of, queue_of,
}
use cs350project.Server.Updates.{InUse}
use cs350project.Server.Acquire.{acquire_refines}
use cs350project.Server.Waiting.{CondInUse, CondInUse-valid}

-- The machines of the waiters run a Nachos, and their mailboxes exist.
abbrev pub AllAnswerable : Env → List Waiter → Type 0
AllAnswerable e [] = Unit {0}
AllAnswerable e (w ∷ queue) =
    (e.peer_runs w.machine ≡ true) × (in_range w.box num_boxes ≡ true) × AllAnswerable e queue

abbrev pub queued : ServerCond → List Waiter → ServerCond
queued c queue = record c { wait_queue = some queue }

-- A lock that looks held is busy, and has that owner.
view-held :
    (l : ServerLock) (o : ServerThread) (q : List Waiter)
    → view l ≡ held o q
    → (l.lock_status ≡ busy) × (l.lock_owner ≡ o)
view-held l o q h = elim (LockStatus-cases l.lock_status) [
  | inl f ↦ absurd (ground (arith, f, h))
  | inr b ↦ (b, ground (arith, b, h))
]

-- A request leaves the owner of a lock that is held.
request_keeps :
    (w : Waiter) (l : ServerLock)
    → l.lock_status ≡ busy
    → (q : List Waiter) × ((request w (view l)).0 ≡ held l.lock_owner q)
request_keeps w l b = elim (Bool-cases (thread_eq (thread_of w) l.lock_owner)) [
  | inl own ↦ (queue_of l.wait_queue, rw b (rw own refl))
  | inr stranger ↦ (queue_of l.wait_queue ++ w ∷ [], rw b (rw stranger refl))
]

-- Lock `i` is in use and healthy, and held by `o`, and condition `k` is `c` but for its queue.
pub record Serving (env : Env) (o : ServerThread) (i k : ℕ) (c : ServerCond) (queue : List Waiter)
    (t : Server) : Type 0 where
  pub lock : ServerLock
  pub in_use : InUse t i lock
  pub healthy : IsHealthy lock
  pub is_held : (lock.lock_status ≡ busy) × (lock.lock_owner ≡ o)
  pub cond : CondInUse t k (queued c queue) queue
  pub same_env : t.env ≡ env

pub bind_done :
    {A B : Type 0} (m : M A) (f : A → M B) (t t' : Server) (a : A)
    → m t ≡ done a t'
    → (m >>= f) t ≡ f a t'
bind_done m f t t' a h =
    ap (λ o. elim o [ done b u ↦ f b u | halted u ↦ halted u | crashed ↦ crashed ]) h

module _ (env : Env) (o : ServerThread) (i k : ℕ) (c : ServerCond) where
  abbrev woken : Server → Waiter → List Waiter → Server
  woken t w rest = record t {
    conds = set t.conds k (queued c rest);
    hdr = record t.hdr { pkt_from = w.machine; mail_from = w.box; mail_to = w.from_box };
  }

  abbrev pub back : Headers → ℕ → Server → Server
  back h n t = record t {
    hdr = record t.hdr {
      pkt_from = h.pkt_from;
      mail_from = h.mail_from;
      mail_to = h.mail_to;
      mail_length = n;
    };
  }

  pub read_cond :
      {A : Type 0} (t : Server) (d : ServerCond) (f : ServerCond → M A)
      → get_elem? t.conds k ≡ some d
      → (get_cond (pos k) >>= f) t ≡ f d t
  read_cond t d f h = bind_done (get_cond (pos k)) f t t d (ap (λ o. or_crash o t) h)

  head_goes :
      (t t2 : Server) (w : Waiter) (rest : List Waiter)
      → acquire_server (pos i) (woken t w rest) ≡ done tt t2
      → signal_head (pos i) (pos k) (queued c (w ∷ rest)) w rest t ≡ done tt (back t.hdr 9 t2)
  unfolding signal_head
  head_goes t t2 w rest went =
      bind_done (acquire_server (pos i)) (λ _. restore_sender t.hdr 9) (woken t w rest) t2 tt went

  touched :
      (t : Server) (rest : List Waiter)
      → get_elem? t.conds k ≡ some (queued c rest)
      → touch_queue (pos k) t ≡ done tt t
  touched t rest h = read_cond t (queued c rest) (λ d. or_crash d.wait_queue >>= λ _. pure tt) h

  round_goes :
      (t t2 : Server) (w : Waiter) (rest : List Waiter)
      → validate_condition_index t (pos k) ≡ true
      → get_elem? t.conds k ≡ some (queued c (w ∷ rest))
      → acquire_server (pos i) (woken t w rest) ≡ done tt t2
      → get_elem? t2.conds k ≡ some (queued c rest)
      → signal_without_send (pos i) (pos k) t ≡ done tt (back t.hdr 9 t2)
  unfolding signal_without_send
  round_goes t t2 w rest valid stored went stored' =
      bind_done
        (branch (validate_condition_index t (pos k)) (get_cond (pos k) >>= queue_signal)
          (send_message_to_client (lit "Invalid cond index!")))
        (λ _. touch_queue (pos k)) t (back t.hdr 9 t2) tt
        (rw valid
          (read_cond t (queued c (w ∷ rest)) queue_signal stored ∙ head_goes t t2 w rest went))
      ∙ touched (back t.hdr 9 t2) rest stored'
    where
      queue_signal : ServerCond → M (Unit {0})
      queue_signal d = or_crash d.wait_queue >>= λ queue.
          by_queue queue (send_message_to_client (lit "No thread waiting!"))
            (signal_head (pos i) (pos k) d)

  -- One round of the loop.
  signalled :
      (t : Server) (w : Waiter) (rest : List Waiter)
      → Serving env o i k c (w ∷ rest) t
      → (env.peer_runs w.machine ≡ true) × (in_range w.box num_boxes ≡ true)
      → (t' : Server) × (signal_without_send (pos i) (pos k) t ≡ done tt t')
        × Serving env o i k c rest t'
  signalled t w rest v (runs, boxed) =
      let t1 = woken t w rest in
      let stored = v.cond.stored in
      let put =
        get_elem?-set_self t.conds k (queued c rest) (lt_length_of_get t.conds k _ stored) in
      let same_env = v.same_env in
      let (t2, went, up) =
        acquire_refines t1 i v.lock
          (record { created = v.in_use.created; stored = v.in_use.stored; alive = v.in_use.alive })
          v.healthy (record { runs = rw same_env runs; has_box = boxed }) in
      let conds = up.conds in
      let stored' : get_elem? t2.conds k ≡ some (queued c rest) = rw conds put in
      let valid = CondInUse-valid t k (queued c (w ∷ rest)) (w ∷ rest) v.cond in
      let created = v.cond.created in
      let (q, kept) = request_keeps (waiter_of (pos 0) t1) v.lock v.is_held.0 in
      let still = view-held up.lock v.lock.lock_owner q (up.viewed ∙ kept) in
      (
        back t.hdr 9 t2,
        round_goes t t2 w rest valid stored went stored',
        record {
          lock = up.lock;
          in_use = record {
            created = ap (λ n. ltb i n) up.lock_count ∙ v.in_use.created;
            stored =
                ap (λ ls. get_elem? ls i) up.locks
                ∙ get_elem?-set_self t.locks i up.lock
                    (lt_length_of_get t.locks i _ v.in_use.stored);
            alive = up.alive;
          };
          healthy = up.healthy;
          is_held = (still.0, still.1 ∙ v.is_held.1);
          cond = record {
            created = ap (λ n. ltb k n) up.cond_count ∙ created;
            stored = stored';
            alive = v.cond.alive;
            waiters = refl;
          };
          same_env = up.env ∙ same_env;
        },
      )

  -- The loop, with a round for each waiter.
  pub all_signalled :
      (t : Server) (queue : List Waiter)
      → Serving env o i k c queue t
      → AllAnswerable env queue
      → (t' : Server) × (signal_all (length queue) (pos i) (pos k) t ≡ done tt t')
        × Serving env o i k c [] t'
  unfolding signal_all
  all_signalled t [] v a = (t, refl, v)
  all_signalled t (w ∷ rest) v (runs, boxed, a) =
      let (t1, went, v1) = signalled t w rest v (runs, boxed) in
      let (t2, rounds, v2) = all_signalled t1 rest v1 a in
      let again : M (Unit {0}) =
        signal_without_send (pos i) (pos k) >>= λ _. signal_all (length rest) (pos i) (pos k) in
      (
        t2,
        read_cond t (queued c (w ∷ rest))
              (λ d. or_crash d.wait_queue >>= λ queue. by_queue queue (pure tt) (λ w rest. again))
              v.cond.stored
            ∙ (bind_done (signal_without_send (pos i) (pos k))
                  (λ _. signal_all (length rest) (pos i) (pos k)) t t1 tt went
                ∙ rounds),
        v2,
      )
