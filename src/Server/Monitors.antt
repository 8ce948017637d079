-- ===== src/Server/Monitors.antt =====
-- network/nettest.cc: the monitor variables, arrays of integers by name.
use cs350project.Prelude.{
  ℕ, ◌+◌, ℤ, pos, negsuc, minus_one, leb, ltb, at_ℤ, if◌then◌else◌, true, false, Option, none, some,
  List, ◌++◌, ◌&&◌, replicate, set, take,
}
use cs350project.Server.State.{
  Text, raw, ServerMon, M, done, pure, crash, ◌>>=◌, ◌>>◌, gets, modify, or_crash, max_mon_count,
  lit, send_message_to_client, validate_monitor_index, validate_array_index, branch, get_mon,
  put_mon,
}
use cs350project.Server.Wire.{show_int}
use cs350project.Server.Tables.{search_name, found, missing, freed}

add_mon : List ℕ → ℕ → M ℤ
add_mon name size = do
  i ← gets (λ s. s.mon_count)
  stray ← gets (λ s. s.env.stray_value)
  put_mon (pos i) (record {
    delete_flag = false;
    is_deleted = false;
    values = some (replicate size stray);
    name = some name;
  })
  modify (λ s. record s { mon_count = i + 1 })
  pure (pos i)

create_sized_monitor : List ℕ → ℕ → M ℤ
unfolding add_mon search_name
create_sized_monitor name size s =
    if leb max_mon_count s.mon_count
    then (do send_message_to_client (lit "Too many mons!"); pure minus_one) s
    else elim (search_name (λ (m : ServerMon). m.name) (λ m. m.is_deleted) name s.mon_count 0
        s.mons) [ found i ↦ done (pos i) s | missing ↦ add_mon name size s | freed ↦ crash s ]

-- `CreateMonitor_server`: the size is `appendNum`, from 1 to 50.
unfoldable pub create_monitor_server : List ℕ → ℤ → M ℤ
unfolding create_sized_monitor
create_monitor_server name (negsuc n) = do
  send_message_to_client (lit "Array invalid! Enter 1-50")
  pure minus_one
create_monitor_server name (pos size) =
    branch (ltb 0 size && leb size 50) (create_sized_monitor name size)
      (do send_message_to_client (lit "Array invalid! Enter 1-50"); pure minus_one)

-- char temp; ss << value; ss >> temp; then strlen runs from `temp` into what lies behind it.
unfoldable pub temp_text : ℤ → List ℕ → Text
unfolding show_int
temp_text value stray = raw (take 1 (show_int value) ++ stray)

-- `values[arrayIndex]`, which lies outside of the array from the array's own size on.
abbrev pub read_value : ServerMon → ℤ → M ℤ
read_value m j = do values ← or_crash m.values; or_crash (at_ℤ values j)

-- `GetMonitor_server`: the text sent is the one character `temp` and what follows it in memory.
unfoldable pub get_monitor_server : ℤ → ℤ → M ℤ
unfolding temp_text
get_monitor_server i j s =
    if validate_monitor_index s i
    then (if validate_array_index j
        then (do
          m ← get_mon i
          value ← read_value m j
          stray ← gets (λ t. t.env.stray_bytes)
          send_message_to_client (temp_text value stray)
          pure value)
            s
        else (do send_message_to_client (lit "Invalid array index!"); pure minus_one) s)
    else (do send_message_to_client (lit "Invalid monitor index!"); pure minus_one) s

write_value : ServerMon → ℤ → ℤ → Option ServerMon
write_value m (negsuc j) v = none
write_value m (pos j) v = elim m.values [
  | none ↦ none
  | some values ↦ elim (at_ℤ values (pos j)) [
    | none ↦ none
    | some old ↦ some (record m { values = some (set values j v) })
  ]
]

-- `SetMonitor_server`
unfoldable pub set_monitor_server : ℤ → ℤ → ℤ → M (Unit {0})
unfolding write_value
set_monitor_server i j v s =
    if validate_monitor_index s i
    then (if validate_array_index j
        then (do
          m ← get_mon i
          m' ← or_crash (write_value m j v)
          put_mon i m'
          send_message_to_client (lit "Set monitor successfully!"))
            s
        else send_message_to_client (lit "Invalid array index!") s)
    else send_message_to_client (lit "Invalid monitor index!") s

-- `DestroyMonitor_server`: what it marks and deletes is the entry behind the last one in use.
unfoldable pub destroy_monitor_server : ℤ → M (Unit {0})
destroy_monitor_server i s =
    if validate_monitor_index s i
    then (do
      m ← get_mon (pos s.mon_count)
      put_mon (pos s.mon_count) (record m { is_deleted = true; values = none })
      send_message_to_client (lit "Deleted monitor successfully!"))
        s
    else send_message_to_client (lit "Invalid monitor index!") s
