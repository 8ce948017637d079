-- ===== src/Server/Dispatch.antt =====
-- network/nettest.cc, `Server`: its start, and one round of its loop for each packet of mailbox 0.
use cs350project.Prelude.{
  ℕ, ◌==◌, if◌then◌else◌, false, ℤ, pos, minus_one, Option, none, some, List, [], ◌∷◌, replicate,
}
use cs350project.Server.State.{
  raw, free, ServerLock, ServerCond, ServerMon, Headers, Env, Server, M, pure, ◌>>=◌, ◌>>◌, modify,
  max_mon_count, send_create_entity_message,
}
use cs350project.Server.Wire.{show_int, read_char, read_word, read_int}
use cs350project.Server.Locks.{
  create_lock_server, acquire_server, release_server, destroy_lock_server,
}
use cs350project.Server.Conditions.{
  create_condition_server, wait_server, signal_server, broadcast_server, destroy_condition_server,
}
use cs350project.Server.Monitors.{
  create_monitor_server, get_monitor_server, set_monitor_server, destroy_monitor_server,
}

-- Globals start as zeros; then the loop at the head of `Server` allocates the wait queues.
abbrev pub unused_lock : ServerLock
unused_lock = record {
  num = pos 0;
  delete_flag = false;
  is_deleted = false;
  lock_status = free;
  name = none;
  wait_queue = some [];
  queue_size = pos 0;
  lock_owner = record { machine_id = pos 0; mailbox_num = pos 0 };
}

abbrev pub unused_cond : ServerCond
unused_cond = record {
  delete_flag = false;
  is_deleted = false;
  name = none;
  waiting_lock_index = pos 0;
  wait_queue = some [];
  has_waiting_lock = false;
}

abbrev pub unused_mon : ServerMon
unused_mon = record { delete_flag = false; is_deleted = false; values = none; name = none }

abbrev pub no_headers : Headers
no_headers = record {
  pkt_to = pos 0;
  pkt_from = pos 0;
  mail_to = pos 0;
  mail_from = pos 0;
  mail_length = 0;
}

unfoldable pub start : Env → Server
start e = record {
  locks = replicate max_mon_count unused_lock;
  lock_count = 0;
  mons = replicate max_mon_count unused_mon;
  mon_count = 0;
  conds = replicate max_mon_count unused_cond;
  cond_count = 0;
  hdr = no_headers;
  outbox = [];
  sys_code1 = 0;
  sys_code2 = 0;
  name = [];
  env = e;
}

-- The stream is put back to the number alone before it is sent.
abbrev pub reply_entity : M ℤ → M (Unit {0})
reply_entity create = do id ← create; send_create_entity_message (raw (show_int id))

serve_lock : ℕ → List ℕ → ℤ → M (Unit {0})
unfolding create_lock_server acquire_server release_server destroy_lock_server
serve_lock code name i =
    if code == b'C'
    then reply_entity (create_lock_server name)
    else if code == b'A'
    then acquire_server i
    else if code == b'R'
    then release_server i
    else if code == b'D'
    then destroy_lock_server i
    else pure tt

serve_monitor : ℕ → List ℕ → ℤ → Option (List ℕ) → M (Unit {0})
unfolding create_monitor_server get_monitor_server set_monitor_server destroy_monitor_server
serve_monitor code name i rest =
    let (j, rest') = read_int rest in
    let (v, rest'') = read_int rest' in
    if code == b'C'
    then reply_entity (create_monitor_server name j)
    else if code == b'G'
    then (do _ ← get_monitor_server i j; pure tt)
    else if code == b'S'
    then set_monitor_server i j v
    else if code == b'D'
    then destroy_monitor_server i
    else pure tt

serve_condition : ℕ → List ℕ → ℤ → Option (List ℕ) → M (Unit {0})
unfolding create_condition_server wait_server signal_server broadcast_server
    destroy_condition_server
serve_condition code name i rest =
    let (k, rest') = read_int rest in
    if code == b'C'
    then reply_entity (create_condition_server name)
    else if code == b'W'
    then wait_server i k
    else if code == b'S'
    then signal_server i k
    else if code == b'B'
    then broadcast_server i k
    else if code == b'D'
    then destroy_condition_server i
    else pure tt

-- The big switch.
unfoldable pub serve_call : ℕ → ℕ → List ℕ → ℤ → Option (List ℕ) → M (Unit {0})
unfolding serve_lock serve_monitor serve_condition
serve_call code1 code2 name i rest =
    if code1 == b'L'
    then serve_lock code2 name i
    else if code1 == b'M'
    then serve_monitor code2 name i rest
    else if code1 == b'C'
    then serve_condition code2 name i rest
    else pure tt

pub record Packet : Type 0 where
  pub headers : Headers
  pub text : List ℕ

-- What the loop reads from a packet: the letters, and then a name or the first index.
pub record Call : Type 0 where
  pub code1 : ℕ
  pub code2 : ℕ
  pub name : List ℕ
  pub index1 : ℤ
  pub rest : Option (List ℕ)

unfoldable pub read_call : ℕ → ℕ → List ℕ → List ℕ → Call
read_call old1 old2 old_name text =
    let (c1, s1) = read_char old1 text in
    let (c2, s2) = read_char old2 s1 in
    let (word, after_word) = read_word old_name s2 in
    let (i, after_index) = read_int (some s2) in
    if c2 == b'C'
    then record { code1 = c1; code2 = c2; name = word; index1 = minus_one; rest = some after_word }
    else record { code1 = c1; code2 = c2; name = old_name; index1 = i; rest = after_index }

-- One round of the loop.
unfoldable pub serve_packet : Packet → M (Unit {0})
unfolding serve_call read_call
serve_packet p s =
    let c = read_call s.sys_code1 s.sys_code2 s.name p.text in
    (do
      modify (λ t. record t {
        hdr = p.headers;
        sys_code1 = c.code1;
        sys_code2 = c.code2;
        name = c.name;
      })
      serve_call c.code1 c.code2 c.name c.index1 c.rest)
      s

unfoldable pub serve : List Packet → M (Unit {0})
unfolding serve_packet
serve [] = pure tt
serve (p ∷ ps) = do serve_packet p; serve ps
