-- ===== src/Server/MonitorLaws.antt =====
-- The monitor variables: what is set is read back, and what is destroyed stays.
use cs350project.Prelude.{
  ℕ, ◌+◌, ◌≤◌, ◌<◌, ◌≡◌, ◌≢◌, refl, ◌∙◌, ltb, leb, ℤ, pos, true, false, none, some, List, [], ◌∷◌,
  set, get_elem?, get_elem?-set_self, get_elem?-set_ne, get_of_lt, lt_length_of_get, length,
  length-append, take, arith,
}
use cs350project.Server.State.{
  lit, text_length, ServerMon, Server, done, validate_monitor_index, validate_array_index,
}
use cs350project.Server.Wire.{show_int}
use cs350project.Server.Monitors.{
  temp_text, get_monitor_server, set_monitor_server, destroy_monitor_server,
}
use cs350project.Server.Replies.{Answerable, replied, send_message_to_client_lem}

pub record MonInUse (s : Server) (i : ℕ) (m : ServerMon) (values : List ℤ) : Type 0 where
  pub created : ltb i s.mon_count ≡ true
  pub stored : get_elem? s.mons i ≡ some m
  pub alive : m.is_deleted ≡ false
  pub array : m.values ≡ some values

pub MonInUse-valid :
    (s : Server) (i : ℕ) (m : ServerMon) (values : List ℤ)
    → MonInUse s i m values
    → validate_monitor_index s (pos i) ≡ true
unfolding validate_monitor_index
MonInUse-valid s i m values u = ground arith

array_valid : (j : ℕ) → j < 10 → validate_array_index (pos j) ≡ true
unfolding validate_array_index
array_valid j h = ground arith

length-take_one : (bytes : List ℕ) → length (take 1 bytes) ≤ 1
length-take_one [] = omega arith
length-take_one (b ∷ bytes) = omega arith

temp_text_fits :
    (v : ℤ) (stray : List ℕ)
    → length stray ≤ 38
    → leb (text_length (temp_text v stray) + 1) 40 ≡ true
unfolding temp_text
temp_text_fits v stray h =
    ground (arith, length-append (take 1 (show_int v)) stray, length-take_one (show_int v))

-- A read of a cell of a monitor returns what is stored there.
pub get_monitor_value :
    (s : Server) (i j : ℕ) (m : ServerMon) (values : List ℤ) (v : ℤ)
    → MonInUse s i m values
    → Answerable s.env s.hdr
    → length s.env.stray_bytes ≤ 38
    → j < 10
    → get_elem? values j ≡ some v
    → get_monitor_server (pos i) (pos j) s ≡ done v (replied (temp_text v s.env.stray_bytes) s)
unfolding get_monitor_server
get_monitor_value s i j m values v u a short lt e = ground (
  arith,
  MonInUse-valid s i m values u,
  array_valid j lt,
  send_message_to_client_lem (temp_text v s.env.stray_bytes) s a (temp_text_fits v _ short),
)

abbrev written : Server → ℕ → ServerMon → List ℤ → ℕ → ℤ → Server
written s i m values j v = record s {
  mons = set s.mons i (record m { values = some (set values j v) });
}

-- A write within the array's own size changes that cell of that monitor, and nothing else.
set_monitor_writes :
    (s : Server) (i j : ℕ) (m : ServerMon) (values : List ℤ) (old v : ℤ)
    → MonInUse s i m values
    → Answerable s.env s.hdr
    → j < 10
    → get_elem? values j ≡ some old
    → set_monitor_server (pos i) (pos j) v s
      ≡ done tt (replied (lit "Set monitor successfully!") (written s i m values j v))
unfolding set_monitor_server
set_monitor_writes s i j m values old v u a lt e = ground (
  arith,
  MonInUse-valid s i m values u,
  array_valid j lt,
  u.array,
  send_message_to_client_lem (lit "Set monitor successfully!") (written s i m values j v) a refl,
)

written-MonInUse :
    (s : Server) (i j : ℕ) (m : ServerMon) (values : List ℤ) (v : ℤ)
    → MonInUse s i m values
    → MonInUse
        (written s i m values j v)
        i
        (record m { values = some (set values j v) })
        (set values j v)
written-MonInUse s i j m values v u = record {
  created = u.created;
  stored = get_elem?-set_self s.mons i _ (lt_length_of_get s.mons i m u.stored);
  alive = u.alive;
  array = refl;
}

-- A write of `v` to one of the first ten cells of a monitor in use succeeds, and a later request
-- that reads the cell from the tables that the write left returns `v`, where both senders can be
-- answered and at most 38 bytes lie behind the character of the reply.
pub get-set_monitor :
    (s t : Server) (i j : ℕ) (m : ServerMon) (values : List ℤ) (old v : ℤ)
    → MonInUse s i m values
    → Answerable s.env s.hdr
    → j < 10
    → get_elem? values j ≡ some old
    → t.mons ≡ (written s i m values j v).mons
    → t.mon_count ≡ s.mon_count
    → Answerable t.env t.hdr
    → length t.env.stray_bytes ≤ 38
    → (set_monitor_server (pos i) (pos j) v s
        ≡ done tt (replied (lit "Set monitor successfully!") (written s i m values j v)))
      × (get_monitor_server (pos i) (pos j) t ≡ done v (replied (temp_text v t.env.stray_bytes) t))
get-set_monitor s t i j m values old v u a lt e mons count b short =
    let w = written-MonInUse s i j m values v u in
    let read =
      get_monitor_value t i j (record m { values = some (set values j v) }) (set values j v) v
        (record {
          created = rw count w.created;
          stored = rw mons w.stored;
          alive = u.alive;
          array = refl;
        })
        b short lt (get_elem?-set_self values j v (lt_length_of_get values j old e)) in
    (set_monitor_writes s i j m values old v u a lt e, read)

-- For two values whose numerals begin with the same character, read from monitors in use by the
-- same request with the same memory behind the reply, the mail that leaves is the same.
pub get_monitor_ambiguous :
    (s t : Server) (i j : ℕ) (m n : ServerMon) (values others : List ℤ) (v w : ℤ)
    → MonInUse s i m values
    → MonInUse t i n others
    → Answerable s.env s.hdr
    → length s.env.stray_bytes ≤ 38
    → t.env ≡ s.env
    → t.hdr ≡ s.hdr
    → t.outbox ≡ s.outbox
    → j < 10
    → get_elem? values j ≡ some v
    → get_elem? others j ≡ some w
    → take 1 (show_int v) ≡ take 1 (show_int w)
    → (s' : Server) × (t' : Server) × (get_monitor_server (pos i) (pos j) s ≡ done v s')
      × (get_monitor_server (pos i) (pos j) t ≡ done w t')
      × (s'.outbox ≡ t'.outbox)
unfolding temp_text
get_monitor_ambiguous s t i j m n values others v w u x a short env hdr out lt e f same = (
  replied (temp_text v s.env.stray_bytes) s,
  replied (temp_text w t.env.stray_bytes) t,
  get_monitor_value s i j m values v u a short lt e,
  get_monitor_value t i j n others w x
      (record { runs = rw (env, hdr) a.runs; has_box = rw hdr a.has_box }) (rw env short) lt f,
  ground arith,
)

-- `DestroyMonitor_server` leaves the monitor in use that it names in use, with its values, if the
-- table has a further entry and the sender can be answered.
pub destroy_monitor_keeps :
    (s : Server) (i : ℕ) (m : ServerMon) (values : List ℤ)
    → MonInUse s i m values
    → Answerable s.env s.hdr
    → s.mon_count < length s.mons
    → (s' : Server) × (destroy_monitor_server (pos i) s ≡ done tt s') × MonInUse s' i m values
unfolding destroy_monitor_server
destroy_monitor_keeps s i m values u a lt = destroyed (get_of_lt s.mons s.mon_count lt)
  where
    marked : ServerMon → Server
    marked n = record s {
      mons = set s.mons s.mon_count (record n { is_deleted = true; values = none });
    }

    other : s.mon_count ≢ i
    other e = let h = u.created in ground arith

    destroyed :
        (n : ServerMon) × (get_elem? s.mons s.mon_count ≡ some n)
        → (s' : Server) × (destroy_monitor_server (pos i) s ≡ done tt s') × MonInUse s' i m values
    destroyed (n, stored) = (
      replied (lit "Deleted monitor successfully!") (marked n),
      ground (
        arith,
        MonInUse-valid s i m values u,
        send_message_to_client_lem (lit "Deleted monitor successfully!") (marked n) a refl,
      ),
      record {
        created = u.created;
        stored = get_elem?-set_ne s.mons _ other ∙ u.stored;
        alive = u.alive;
        array = u.array;
      },
    )
