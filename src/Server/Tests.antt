-- ===== src/Server/Tests.antt =====
-- Runs of the server on concrete requests.
use Prim.Native.String.{String}
use Prim.Native.Char.{code}
use cs350project.Prelude.{ℕ, ◌≡◌, refl, ℤ, pos, minus_one, true, List, [], ◌∷◌, map}
use cs350project.Server.State.{
  Text, lit, raw, Env, Mail, Outcome, done, halted, crashed, send_message_to_client,
  send_create_entity_message, validate_lock_index, thread_eq, string_arr,
}
use cs350project.Server.Wire.{
  request_text, show_int, read_char, read_word, read_int, skip_space, is_space, show_digits,
  split_word, read_signed, read_digits, is_digit, digits_value,
}
use cs350project.Server.Dispatch.{Packet, start, serve}

abbrev bytes : String → List ℕ
bytes String.[] = []
bytes (String.◌∷◌ c s) = code c ∷ bytes s

abbrev quiet_env : Env
quiet_env = record {
  peer_runs = λ m. true;
  stray_index = pos 0;
  stray_bytes = [];
  stray_value = pos 0;
}

abbrev from : ℕ → String → Packet
from m text = record {
  headers = record {
    pkt_to = pos 0;
    pkt_from = pos m;
    mail_to = pos 0;
    mail_from = pos 0;
    mail_length = 20;
  };
  text = bytes text;
}

-- The replies of a run: the machine and the text of each.
abbrev replies_of : List Mail → List (ℤ × Text)
replies_of = map λ m. (m.machine, m.text)

abbrev replies : Outcome (Unit {0}) → List (ℤ × Text)
replies (done a s) = replies_of s.outbox
replies (halted s) = (minus_one, lit "halt") ∷ []
replies crashed = (minus_one, lit "crash") ∷ []

-- Two machines contend for a lock; the second gets it when the first releases it.
handover :
    replies (
      serve
        (from 1 "L C door"
          ∷ from 2 "L C door"
          ∷ from 1 "L A 0 -1 -1"
          ∷ from 2 "L A 0 -1 -1"
          ∷ from 1 "L R 0 -1 -1"
          ∷ [])
        (start quiet_env))
    ≡ (pos 1, raw (bytes "0"))
      ∷ (pos 2, raw (bytes "0"))
      ∷ (pos 1, lit "You got the lock!")
      ∷ (pos 1, lit "Released. Another thread took it.")
      ∷ (pos 2, lit "You got the lock!")
      ∷ []
unfolding serve start send_message_to_client send_create_entity_message validate_lock_index
    thread_eq string_arr read_char read_word read_int skip_space is_space show_digits split_word
    read_signed read_digits is_digit digits_value
handover = refl

request_bytes : request_text b'C' b'W' [] (pos 12) (pos 3) minus_one ≡ bytes "C W 12 3 -1"
unfolding request_text show_int show_digits
request_bytes = refl
