-- ===== src/Server/State.antt =====
-- network/nettest.cc: the server's tables, the headers that every handler shares, and the replies
-- that it posts. A handler is an action over the whole state.
use Prim.Native.String.{String, len}
use cs350project.Prelude.{
  ℕ, ◌+◌, ℤ, pos, negsuc, minus_one, eqb_ℤ, in_range, at_ℤ, leb, if◌then◌else◌, Bool, true, false,
  ◌&&◌, Option, none, some, List, [], ◌∷◌, ◌++◌, set, replicate, length,
}

pub record ServerThread : Type 0 where
  pub machine_id : ℤ
  pub mailbox_num : ℤ

abbrev pub null_thread : ServerThread
null_thread = record { machine_id = minus_one; mailbox_num = minus_one }

-- `threadIsNull`
unfoldable pub thread_is_null : ServerThread → Bool
thread_is_null t = if eqb_ℤ t.machine_id minus_one then eqb_ℤ t.mailbox_num minus_one else false

-- `operator==` on two threads
unfoldable pub thread_eq : ServerThread → ServerThread → Bool
thread_eq t u = if eqb_ℤ t.machine_id u.machine_id then eqb_ℤ t.mailbox_num u.mailbox_num else false

-- A text that leaves the server: a constant of the source, or bytes that a stream composed.
pub data Text : Type 0 where
  lit : String → Text
  raw : List ℕ → Text

-- `strlen`
abbrev pub text_length : Text → ℕ
text_length (lit s) = len s
text_length (raw bytes) = length bytes

pub data LockStatus : Type 0 where
  free busy : LockStatus

-- A message on a wait queue: the text "machine box from_box string_index" of `putMsgLock` and
-- `putMsgCond`, by its four numbers.
pub record Waiter : Type 0 where
  pub machine : ℤ
  pub box : ℤ
  pub from_box : ℤ
  pub string_index : ℤ

-- `none` stands for a pointer that leads to no object: NULL, or deleted.
pub record ServerLock : Type 0 where
  pub num : ℤ
  pub delete_flag : Bool
  pub is_deleted : Bool
  pub lock_status : LockStatus
  pub name : Option (List ℕ)
  pub wait_queue : Option (List Waiter)
  pub queue_size : ℤ
  pub lock_owner : ServerThread

pub record ServerCond : Type 0 where
  pub delete_flag : Bool
  pub is_deleted : Bool
  pub name : Option (List ℕ)
  pub waiting_lock_index : ℤ
  pub wait_queue : Option (List Waiter)
  pub has_waiting_lock : Bool

pub record ServerMon : Type 0 where
  pub delete_flag : Bool
  pub is_deleted : Bool
  pub values : Option (List ℤ)
  pub name : Option (List ℕ)

-- The `PacketHeader` and `MailHeader` that `Server` hands to each handler by reference.
pub record Headers : Type 0 where
  pub pkt_to : ℤ
  pub pkt_from : ℤ
  pub mail_to : ℤ
  pub mail_from : ℤ
  pub mail_length : ℕ

pub record Mail : Type 0 where
  pub machine : ℤ
  pub box : ℤ
  pub from_box : ℤ
  pub length : ℕ
  pub text : Text

-- What the code does not decide: which machines run a Nachos, and what uninitialised memory holds
-- (`stringIndex` in `serverReleaseLock`, the bytes behind `temp` in `GetMonitor_server`, the
-- elements of a fresh `new int[n]`).
pub record Env : Type 0 where
  pub peer_runs : ℤ → Bool
  pub stray_index : ℤ
  pub stray_bytes : List ℕ
  pub stray_value : ℤ

-- The global tables, and the locals of `Server` that outlive a round of its loop.
pub record Server : Type 0 where
  pub locks : List ServerLock
  pub lock_count : ℕ
  pub mons : List ServerMon
  pub mon_count : ℕ
  pub conds : List ServerCond
  pub cond_count : ℕ
  pub hdr : Headers
  pub outbox : List Mail
  pub sys_code1 : ℕ
  pub sys_code2 : ℕ
  pub name : List ℕ
  pub env : Env

-- `halted` is `interrupt->Halt()`; `crashed` is a failed ASSERT, an access outside of an array, or
-- one through a pointer that leads to no object.
pub data Outcome {ℓ} (A : Type ℓ) : Type ℓ where
  done : A → Server → Outcome A
  halted : Server → Outcome A
  crashed : Outcome A

abbrev pub M : Type 0 → Type 0
M A = Server → Outcome A

abbrev pub pure : {A : Type 0} → A → M A
pure a s = done a s

abbrev pub crash : {A : Type 0} → M A
crash s = crashed

infixl 5 ◌>>=◌ ◌>>◌
abbrev pub ◌>>=◌ : {A B : Type 0} → M A → (A → M B) → M B
◌>>=◌ m f s = elim (m s) [ done a t ↦ f a t | halted t ↦ halted t | crashed ↦ crashed ]

abbrev pub ◌>>◌ : {B : Type 0} → M (Unit {0}) → M B → M B
m >> k = m >>= λ _. k

abbrev pub gets : {A : Type 0} → (Server → A) → M A
gets f s = done (f s) s

abbrev pub modify : (Server → Server) → M (Unit {0})
modify f s = done tt (f s)

abbrev pub or_crash : {A : Type 0} → Option A → M A
or_crash none = crash
or_crash (some a) = pure a

-- `if (b) m else n`
abbrev pub branch : {A : Type 0} → Bool → M A → M A → M A
branch b m n s = if b then m s else n s

-- `if (status == FREE) m else n`
abbrev pub by_status : {A : Type 0} → LockStatus → M A → M A → M A
by_status status m n s = elim status [ free ↦ m s | busy ↦ n s ]

-- `if (queue->IsEmpty()) m else n`, where `n` removes the first entry
abbrev pub by_queue : {A : Type 0} → List Waiter → M A → (Waiter → List Waiter → M A) → M A
by_queue queue m n s = elim queue [ [] ↦ m s | w ∷ rest ↦ n w rest s ]

abbrev pub max_lock_count : ℕ
max_lock_count = 50

abbrev pub max_cond_count : ℕ
max_cond_count = 50

abbrev pub max_mon_count : ℕ
max_mon_count = 50

abbrev pub max_arr_count : ℕ
max_arr_count = 10

-- `postOffice = new PostOffice(netname, rely, 10)`
abbrev pub num_boxes : ℕ
num_boxes = 10

-- 64 bytes on the wire, less the two headers of 12
abbrev pub max_mail_size : ℕ
max_mail_size = 40

-- The calling thread of a request.
abbrev pub sender : Server → ServerThread
sender s = record { machine_id = s.hdr.pkt_from; mailbox_num = s.hdr.mail_from }

-- `postOffice->Send`, up to the network: the two assertions, and the mail as it leaves. The result
-- says whether the addressee runs.
unfoldable pub send : Text → M Bool
send text s =
    if in_range s.hdr.mail_to num_boxes && leb s.hdr.mail_length max_mail_size
    then done (s.env.peer_runs s.hdr.pkt_to) (record s { outbox = s.outbox ++ mail ∷ [] })
    else crashed
  where
    mail : Mail
    mail = record {
      machine = s.hdr.pkt_to;
      box = s.hdr.mail_to;
      from_box = s.hdr.mail_from;
      length = s.hdr.mail_length;
      text = text;
    }

abbrev pub halt_unless : Bool → M (Unit {0})
halt_unless true s = done tt s
halt_unless false s = halted s

-- The header goes back to where the request came from.
abbrev pub swapped : Headers → ℕ → Headers
swapped h n = record h {
  pkt_to = h.pkt_from;
  mail_to = h.mail_from;
  mail_from = h.mail_to;
  mail_length = n;
}

-- `sendMessageToClient`
unfoldable pub send_message_to_client : Text → M (Unit {0})
unfolding send
send_message_to_client text = do
  modify (λ s. record s { hdr = swapped s.hdr (text_length text + 1) })
  success ← send text
  halt_unless success

-- `sendCreateEntityMessage`, on the text that the stream holds
unfoldable pub send_create_entity_message : Text → M (Unit {0})
unfolding send
send_create_entity_message text = do
  modify (λ s. record s { hdr = swapped s.hdr (text_length text + 1) })
  success ← send text
  halt_unless success

-- `stringArr`: ten strings, of which `Server` sets two.
unfoldable pub string_arr : ℤ → Option Text
string_arr i = at_ℤ (lit "You got the lock!" ∷ lit "Finished Waiting!" ∷ replicate 8 (lit "")) i

-- `validateLockIndex`; an entry is only read when the index is in range.
unfoldable pub validate_lock_index : Server → ℤ → Bool
validate_lock_index s i =
    if in_range i s.lock_count
    then elim (at_ℤ s.locks i) [ none ↦ false | some l ↦ if l.is_deleted then false else true ]
    else false

-- `validateMonitorIndex`
unfoldable pub validate_monitor_index : Server → ℤ → Bool
validate_monitor_index s i =
    if in_range i s.mon_count
    then elim (at_ℤ s.mons i) [ none ↦ false | some l ↦ if l.is_deleted then false else true ]
    else false

-- `validateArrayIndex`
unfoldable pub validate_array_index : ℤ → Bool
validate_array_index i = in_range i max_arr_count

-- `validateConditionIndex`
unfoldable pub validate_condition_index : Server → ℤ → Bool
validate_condition_index s i =
    if in_range i s.cond_count
    then elim (at_ℤ s.conds i) [ none ↦ false | some l ↦ if l.is_deleted then false else true ]
    else false

-- A write to an entry that was read through the same index.
abbrev pub put_lock : ℤ → ServerLock → M (Unit {0})
put_lock (pos i) l = modify (λ s. record s { locks = set s.locks i l })
put_lock (negsuc i) l = crash

abbrev pub put_cond : ℤ → ServerCond → M (Unit {0})
put_cond (pos i) c = modify (λ s. record s { conds = set s.conds i c })
put_cond (negsuc i) c = crash

abbrev pub put_mon : ℤ → ServerMon → M (Unit {0})
put_mon (pos i) m = modify (λ s. record s { mons = set s.mons i m })
put_mon (negsuc i) m = crash

abbrev pub get_lock : ℤ → M ServerLock
get_lock i s = or_crash (at_ℤ s.locks i) s

abbrev pub get_cond : ℤ → M ServerCond
get_cond i s = or_crash (at_ℤ s.conds i) s

abbrev pub get_mon : ℤ → M ServerMon
get_mon i s = or_crash (at_ℤ s.mons i) s
