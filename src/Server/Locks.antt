-- ===== src/Server/Locks.antt =====
-- network/nettest.cc: the four lock calls, and the two helpers that a wait uses.
use cs350project.Prelude.{
  ℕ, ◌+◌, ℤ, pos, minus_one, ◌-ℤ◌, leb, if◌then◌else◌, true, false, none, some, List, [], ◌∷◌, ◌++◌,
}
use cs350project.Server.State.{
  text_length, free, busy, Waiter, ServerLock, Server, M, done, pure, crash, ◌>>=◌, ◌>>◌, gets,
  modify, or_crash, max_lock_count, null_thread, sender, thread_eq, send, lit,
  send_message_to_client, string_arr, validate_lock_index, branch, by_status, by_queue, get_lock,
  put_lock,
}
use cs350project.Server.Tables.{search_name, found, missing, freed}

-- What `CreateLock_server` stores; the wait queue is the one that `Server` allocated at the start.
abbrev pub fresh_lock : List ℕ → ℕ → ServerLock → ServerLock
fresh_lock name i old = record old {
  num = pos i;
  delete_flag = false;
  is_deleted = false;
  lock_status = free;
  name = some name;
  lock_owner = null_thread;
}

add_lock : List ℕ → M ℤ
add_lock name = do
  i ← gets (λ s. s.lock_count)
  old ← get_lock (pos i)
  put_lock (pos i) (fresh_lock name i old)
  modify (λ s. record s { lock_count = i + 1 })
  pure (pos i)

-- `CreateLock_server`
unfoldable pub create_lock_server : List ℕ → M ℤ
unfolding add_lock search_name
create_lock_server name s =
    if leb max_lock_count s.lock_count
    then (do send_message_to_client (lit "Too many locks!"); pure minus_one) s
    else elim (search_name (λ (l : ServerLock). l.name) (λ l. l.is_deleted) name s.lock_count 0
        s.locks) [ found i ↦ done (pos i) s | missing ↦ add_lock name s | freed ↦ crash s ]

-- The entry of a wait queue for the sender of the request, whose header is swapped for it.
abbrev pub waiter_of : ℤ → Server → Waiter
waiter_of k s = record {
  machine = s.hdr.pkt_from;
  box = s.hdr.mail_from;
  from_box = s.hdr.mail_to;
  string_index = k;
}

abbrev pub swap_header : Server → Server
swap_header s = record s {
  hdr = record s.hdr {
    pkt_to = s.hdr.pkt_from;
    mail_to = s.hdr.mail_from;
    mail_from = s.hdr.mail_to;
  };
}

-- `putMsgLock`
unfoldable pub put_msg_lock : ℤ → M (Unit {0})
put_msg_lock i = do
  w ← gets (waiter_of (pos 0))
  modify swap_header
  l ← get_lock i
  queue ← or_crash l.wait_queue
  put_lock i (record l { wait_queue = some (queue ++ w ∷ []) })

take_lock : ℤ → ServerLock → M (Unit {0})
take_lock i l = do
  me ← gets sender
  put_lock i (record l { lock_status = busy; lock_owner = me })
  send_message_to_client (lit "You got the lock!")

-- `Acquire_server`
unfoldable pub acquire_server : ℤ → M (Unit {0})
unfolding take_lock put_msg_lock
acquire_server i s =
    if validate_lock_index s i
    then (do
      l ← get_lock i
      branch (thread_eq (sender s) l.lock_owner)
          (send_message_to_client (lit "Lock is yours. Done nothing."))
          (by_status l.lock_status (take_lock i l) (put_msg_lock i)))
        s
    else send_message_to_client (lit "Invalid lock index!") s

-- The lock goes to the waiter at the head: its owner, and the header of the message to it.
abbrev pub owned_by : Waiter → ServerLock → ServerLock
owned_by w l = record l { lock_owner = record { machine_id = w.machine; mailbox_num = w.box } }

abbrev pub unowned : ServerLock → ServerLock
unowned l = record l { lock_status = free; lock_owner = null_thread }

abbrev pub address : Waiter → ℕ → M (Unit {0})
address w n = modify (λ s. record s {
  hdr = record s.hdr {
    pkt_to = w.machine;
    mail_to = w.box;
    mail_from = w.from_box;
    mail_length = n;
  };
})

-- The text of the message to the new owner is picked by an uninitialised index.
hand_over_silently : ℤ → ServerLock → Waiter → List Waiter → M (Unit {0})
hand_over_silently i l w rest = do
  put_lock i (owned_by w (record l { wait_queue = some rest }))
  stray ← gets (λ s. s.env.stray_index)
  text ← or_crash (string_arr stray)
  address w (text_length text)
  _ ← send text
  pure tt

-- `serverReleaseLock`, which checks neither the index nor the owner.
unfoldable pub server_release_lock : ℤ → M (Unit {0})
unfolding hand_over_silently
server_release_lock i = do
  l ← get_lock i
  queue ← or_crash l.wait_queue
  by_queue queue (put_lock i (unowned l)) (hand_over_silently i l)

release_to : ℤ → ServerLock → Waiter → List Waiter → M (Unit {0})
release_to i l w rest = do
  send_message_to_client (lit "Released. Another thread took it.")
  put_lock i (owned_by w (record l { wait_queue = some rest; queue_size = l.queue_size -ℤ pos 1 }))
  text ← or_crash (string_arr w.string_index)
  address w (text_length text + 1)
  _ ← send text
  pure tt

release_queue : ℤ → ServerLock → List Waiter → M (Unit {0})
unfolding release_to
release_queue i l queue =
    by_queue queue
      (do put_lock i (unowned l); send_message_to_client (lit "You released the lock!"))
      (release_to i l)

release_owned : ℤ → ServerLock → M (Unit {0})
unfolding release_queue
release_owned i l = do
  modify (λ s. record s {
    hdr = record s.hdr { pkt_to = l.lock_owner.machine_id; mail_to = l.lock_owner.mailbox_num };
  })
  branch l.delete_flag
      (do
        put_lock i (record l { is_deleted = true; wait_queue = none; name = none })
        send_message_to_client (lit "Released, the lock is also deleted."))
      (do queue ← or_crash l.wait_queue; release_queue i l queue)

-- `Release_server`
unfoldable pub release_server : ℤ → M (Unit {0})
unfolding release_owned
release_server i s =
    if validate_lock_index s i
    then (do
      l ← get_lock i
      branch (thread_eq (sender s) l.lock_owner) (release_owned i l)
          (send_message_to_client (lit "No permission to release!")))
        s
    else send_message_to_client (lit "Invalid lock index!") s

destroy_busy : ℤ → ServerLock → M (Unit {0})
destroy_busy i l = do
  put_lock i (record l { delete_flag = true })
  modify (λ s. record s {
    hdr = record s.hdr {
      pkt_to = l.lock_owner.machine_id;
      mail_from = s.hdr.mail_to;
      mail_to = l.lock_owner.mailbox_num;
    };
  })
  send_message_to_client (lit "Lock is in use will be destroyed later.")

destroy_free : ℤ → ServerLock → M (Unit {0})
destroy_free i l = do
  put_lock i (record (unowned l) { is_deleted = true; wait_queue = none })
  send_message_to_client (lit "You destroyed the lock!")

-- `DestroyLock_server`
unfoldable pub destroy_lock_server : ℤ → M (Unit {0})
unfolding destroy_busy destroy_free
destroy_lock_server i s =
    if validate_lock_index s i
    then (do l ← get_lock i; by_status l.lock_status (destroy_free i l) (destroy_busy i l)) s
    else send_message_to_client (lit "Invalid lock index!") s
