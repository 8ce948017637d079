-- ===== src/Server/Conditions.antt =====
-- network/nettest.cc: the condition calls.
use cs350project.Prelude.{
  ℕ, zero, suc, ◌+◌, ℤ, pos, minus_one, eqb_ℤ, leb, if◌then◌else◌, Bool, true, false, none, some,
  List, [], ◌∷◌, ◌++◌, length,
}
use cs350project.Server.State.{
  Waiter, ServerLock, ServerCond, Headers, M, done, pure, crash, ◌>>=◌, ◌>>◌, gets, modify,
  or_crash, max_cond_count, sender, thread_eq, lit, send_message_to_client, validate_lock_index,
  validate_condition_index, branch, by_queue, get_lock, get_cond, put_cond,
}
use cs350project.Server.Tables.{search_name, found, missing, freed}
use cs350project.Server.Locks.{waiter_of, swap_header, acquire_server, server_release_lock}

-- `hasWaitingLock == FALSE` compares; the flag keeps what it had.
abbrev pub fresh_cond : List ℕ → ServerCond → ServerCond
fresh_cond name old = record old {
  delete_flag = false;
  is_deleted = false;
  name = some name;
  waiting_lock_index = minus_one;
}

add_cond : List ℕ → M ℤ
add_cond name = do
  i ← gets (λ s. s.cond_count)
  old ← get_cond (pos i)
  put_cond (pos i) (fresh_cond name old)
  modify (λ s. record s { cond_count = i + 1 })
  pure (pos i)

-- `CreateCondition_server`
unfoldable pub create_condition_server : List ℕ → M ℤ
unfolding add_cond search_name
create_condition_server name s =
    if leb max_cond_count s.cond_count
    then (do send_message_to_client (lit "Too many conds!"); pure minus_one) s
    else elim (search_name (λ (c : ServerCond). c.name) (λ c. c.is_deleted) name s.cond_count 0
        s.conds) [ found i ↦ done (pos i) s | missing ↦ add_cond name s | freed ↦ crash s ]

-- `putMsgCond`
unfoldable pub put_msg_cond : ℤ → M (Unit {0})
put_msg_cond i = do
  w ← gets (waiter_of (pos 1))
  modify swap_header
  c ← get_cond i
  queue ← or_crash c.wait_queue
  put_cond i (record c { wait_queue = some (queue ++ w ∷ []) })

-- The end of `Wait_server`, which its error branches reach as well.
abbrev pub restore_addresses : Headers → M (Unit {0})
restore_addresses h = modify (λ s. record s {
  hdr = record s.hdr { pkt_to = h.pkt_to; mail_to = h.mail_to; mail_from = h.mail_from };
})

unfoldable pub park_and_release : ℤ → ℤ → Headers → M (Unit {0})
park_and_release i k h = do put_msg_cond k; restore_addresses h; server_release_lock i

-- The branch on `hasWaitingLock`: true goes on to park the sender, false returns.
unfoldable pub check_waiting_lock : ℤ → ℤ → ServerLock → ServerCond → M Bool
check_waiting_lock i k l c =
    branch c.has_waiting_lock
      (do
        waiting ← get_lock c.waiting_lock_index
        branch (eqb_ℤ waiting.num l.num) (pure true)
            (do send_message_to_client (lit "No permission to wait!"); pure false))
      (do put_cond k (record c { waiting_lock_index = i; has_waiting_lock = true }); pure true)

-- The chain of tests of `Wait_server`; only the last of them returns.
unfoldable pub wait_checks : ℤ → ℤ → ServerLock → ServerCond → M Bool
unfolding check_waiting_lock
wait_checks i k l c s =
    if validate_lock_index s i
    then (if validate_condition_index s k
        then (if thread_eq l.lock_owner (sender s)
            then (if c.delete_flag
                then (do
                  send_message_to_client (lit "Cond will be destroyed, can't wait!")
                  pure true)
                    s
                else check_waiting_lock i k l c s)
            else (do send_message_to_client (lit "Lock is not acquired!"); pure true) s)
        else (do send_message_to_client (lit "Invalid cond index!"); pure true) s)
    else (do send_message_to_client (lit "Invalid lock index!"); pure true) s

-- `Wait_server`; the two table reads at its head are made before any check.
unfoldable pub wait_server : ℤ → ℤ → M (Unit {0})
wait_server i k = do
  h ← gets (λ s. s.hdr)
  l ← get_lock i
  c ← get_cond k
  go_on ← wait_checks i k l c
  branch go_on (park_and_release i k h) (pure tt)

-- The sender of the request, put back into the header after a call on behalf of a waiter.
abbrev pub restore_sender : Headers → ℕ → M (Unit {0})
restore_sender h n = modify (λ s. record s {
  hdr = record s.hdr {
    pkt_from = h.pkt_from;
    mail_from = h.mail_from;
    mail_to = h.mail_to;
    mail_length = n;
  };
})

abbrev pub impersonate : Waiter → M (Unit {0})
impersonate w = modify (λ s. record s {
  hdr = record s.hdr { pkt_from = w.machine; mail_from = w.box; mail_to = w.from_box };
})

-- The waiter at the head leaves the condition and asks for the lock.
unfoldable pub signal_head : ℤ → ℤ → ServerCond → Waiter → List Waiter → M (Unit {0})
signal_head i k c w rest = do
  h ← gets (λ s. s.hdr)
  put_cond k (record c { wait_queue = some rest })
  impersonate w
  acquire_server i
  restore_sender h 9

-- The last `if` of both signal functions: two comparisons where assignments are meant, so that
-- only the access to the queue is left of it.
abbrev pub touch_queue : ℤ → M (Unit {0})
touch_queue k = do c ← get_cond k; _ ← or_crash c.wait_queue; pure tt

-- `Signal_without_send`
unfoldable pub signal_without_send : ℤ → ℤ → M (Unit {0})
unfolding signal_head
signal_without_send i k s =
    (do
      branch (validate_condition_index s k)
          (do
            c ← get_cond k
            queue ← or_crash c.wait_queue
            by_queue queue (send_message_to_client (lit "No thread waiting!")) (signal_head i k c))
          (send_message_to_client (lit "Invalid cond index!"))
      touch_queue k)
      s

signal_aloud : ℤ → ℤ → ServerCond → Waiter → List Waiter → M (Unit {0})
unfolding signal_head
signal_aloud i k c w rest = do signal_head i k c w rest; send_message_to_client (lit "Signalled")

-- `Signal_server`
unfoldable pub signal_server : ℤ → ℤ → M (Unit {0})
unfolding signal_aloud
signal_server i k s =
    (do
      branch (validate_condition_index s k)
          (do
            c ← get_cond k
            queue ← or_crash c.wait_queue
            by_queue queue (send_message_to_client (lit "No thread waiting!")) (signal_aloud i k c))
          (send_message_to_client (lit "Invalid cond index!"))
      touch_queue k)
      s

-- while (!waitQueue->IsEmpty()) Signal_without_send(...), with one round of fuel for each waiter.
unfoldable pub signal_all : ℕ → ℤ → ℤ → M (Unit {0})
signal_all zero i k = pure tt
signal_all (suc fuel) i k =
    let again : M (Unit {0}) = (do signal_without_send i k; signal_all fuel i k) in
    (do c ← get_cond k; queue ← or_crash c.wait_queue; by_queue queue (pure tt) (λ w rest. again))

unfoldable pub broadcast_valid : ℤ → ℤ → M (Unit {0})
unfolding signal_all
broadcast_valid i k = do
  c ← get_cond k
  queue ← or_crash c.wait_queue
  signal_all (length queue) i k
  after ← get_cond k
  put_cond k (record after { waiting_lock_index = minus_one })

unfoldable pub broadcast_checks : ℤ → ℤ → ServerLock → ServerCond → M (Unit {0})
unfolding broadcast_valid
broadcast_checks i k l c s =
    if validate_lock_index s i
    then (if validate_condition_index s k
        then (do
          waiting ← get_lock c.waiting_lock_index
          branch (eqb_ℤ waiting.num l.num) (broadcast_valid i k)
              (send_message_to_client (lit "No permission to broadcast!")))
            s
        else send_message_to_client (lit "Invalid cond index!") s)
    else send_message_to_client (lit "Invalid lock index!") s

-- `Broadcast_server`
unfoldable pub broadcast_server : ℤ → ℤ → M (Unit {0})
unfolding broadcast_checks
broadcast_server i k = do
  h ← gets (λ s. s.hdr)
  l ← get_lock i
  c ← get_cond k
  broadcast_checks i k l c
  restore_sender h 12
  send_message_to_client (lit "Broadcasted!")

destroy_unused_cond : ℤ → ServerCond → M (Unit {0})
destroy_unused_cond k c = do
  put_cond k (record c { is_deleted = true; wait_queue = none })
  send_message_to_client (lit "Condition is destroyed.")

destroy_cond_later : ℤ → ServerCond → M (Unit {0})
destroy_cond_later k c = do
  put_cond k (record c { delete_flag = true })
  send_message_to_client (lit "Cond in use, destroy later.")

-- `DestroyCondition_server`
unfoldable pub destroy_condition_server : ℤ → M (Unit {0})
unfolding destroy_unused_cond destroy_cond_later
destroy_condition_server k s =
    if validate_condition_index s k
    then (do
      c ← get_cond k
      queue ← or_crash c.wait_queue
      by_queue queue (destroy_unused_cond k c) (λ w rest. destroy_cond_later k c))
        s
    else send_message_to_client (lit "Invalid cond index!") s
