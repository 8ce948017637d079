-- ===== src/Server/Destruction.antt =====
-- What becomes of a lock that is destroyed while it is held, and of those who wait for it.
use cs350project.Prelude.{
  ℕ, ◌≡◌, refl, pos, in_range, true, false, none, some, [], ◌∷◌, ◌++◌, set, get_elem?,
  get_elem?-set_self, lt_length_of_get, arith,
}
use cs350project.Server.State.{
  lit, busy, Headers, ServerLock, Mail, Server, done, num_boxes, thread_eq, sender,
  validate_lock_index,
}
use cs350project.Server.Locks.{release_server, destroy_lock_server}
use cs350project.Server.Replies.{Answerable, reply_mail, replied, send_message_to_client_lem}
use cs350project.Server.Updates.{InUse, InUse-valid}
use cs350project.Server.Release.{with_owner, to_owner}

abbrev deleted_lock : ServerLock → ServerLock
deleted_lock l = record l { is_deleted = true; wait_queue = none; name = none }

abbrev deleted : Server → ℕ → ServerLock → Server
deleted s i l = record (with_owner s l) { locks = set s.locks i (deleted_lock l) }

-- No index is valid that leads to a lock marked as deleted.
pub validate_deleted :
    (s : Server) (i : ℕ) (l : ServerLock)
    → get_elem? s.locks i ≡ some l
    → l.is_deleted ≡ true
    → validate_lock_index s (pos i) ≡ false
unfolding validate_lock_index
validate_deleted s i l e d = ground arith

-- The owner's release of a lock in use that is marked to be destroyed deletes it, whoever waits
-- for it: the only message is the reply to the owner, who can be answered, and the index is
-- invalid from then on.
pub release_drops_waiters :
    (s : Server) (i : ℕ) (l : ServerLock)
    → InUse s i l
    → Answerable s.env s.hdr
    → thread_eq (sender s) l.lock_owner ≡ true
    → l.delete_flag ≡ true
    → (s' : Server) × (release_server (pos i) s ≡ done tt s')
      × (s'.outbox
          ≡ s.outbox
            ++ reply_mail (to_owner l.lock_owner s.hdr) (lit "Released, the lock is also deleted.")
              ∷ [])
      × (validate_lock_index s' (pos i) ≡ false)
unfolding release_server
release_drops_waiters s i l u a own d = (
  replied (lit "Released, the lock is also deleted.") (deleted s i l),
  ground (
    arith,
    InUse-valid s i l u,
    send_message_to_client_lem (lit "Released, the lock is also deleted.") (deleted s i l)
        (record { runs = a.runs; has_box = a.has_box }),
  ),
  refl,
  validate_deleted _ i (deleted_lock l)
      (get_elem?-set_self s.locks i (deleted_lock l) (lt_length_of_get s.locks i l u.stored)) refl,
)

abbrev doomed_header : ServerLock → Headers → Headers
doomed_header l h = record h {
  pkt_to = l.lock_owner.machine_id;
  mail_from = h.mail_to;
  mail_to = l.lock_owner.mailbox_num;
}

abbrev doomed : Server → ℕ → ServerLock → Server
doomed s i l = record s {
  locks = set s.locks i (record l { delete_flag = true });
  hdr = doomed_header l s.hdr;
}

-- `DestroyLock_server` on a lock in use that is held marks it, and sends one reply: to the machine
-- of the request, but to the mailbox that the request was addressed to. The machine runs a Nachos,
-- and the mailbox is one of the ten.
pub destroy_reply_box :
    (s : Server) (i : ℕ) (l : ServerLock)
    → InUse s i l
    → l.lock_status ≡ busy
    → s.env.peer_runs s.hdr.pkt_from ≡ true
    → in_range s.hdr.mail_to num_boxes ≡ true
    → (s' : Server) × (mail : Mail) × (destroy_lock_server (pos i) s ≡ done tt s')
      × (s'.outbox ≡ s.outbox ++ mail ∷ [])
      × (mail.machine ≡ s.hdr.pkt_from)
      × (mail.box ≡ s.hdr.mail_to)
      × (s'.locks ≡ set s.locks i (record l { delete_flag = true }))
unfolding destroy_lock_server
destroy_reply_box s i l u b r m = (
  replied (lit "Lock is in use will be destroyed later.") (doomed s i l),
  reply_mail (doomed_header l s.hdr) (lit "Lock is in use will be destroyed later."),
  ground (
    arith,
    InUse-valid s i l u,
    send_message_to_client_lem (lit "Lock is in use will be destroyed later.") (doomed s i l)
        (record { runs = r; has_box = m }) refl,
  ),
  refl,
  refl,
  refl,
  refl,
)
