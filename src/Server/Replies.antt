-- ===== src/Server/Replies.antt =====
-- What a reply does to the state, when its addressee runs and the box in its header exists.
use cs350project.Prelude.{◌+◌, ◌≡◌, in_range, leb, true, [], ◌∷◌, ◌++◌, arith}
use cs350project.Server.State.{
  Text, text_length, Mail, Headers, Env, Server, done, num_boxes, max_mail_size, swapped, send,
  send_message_to_client,
}

-- The sender of the request runs a Nachos, and its mailbox is one of the ten.
pub record Answerable (e : Env) (h : Headers) : Type 0 where
  pub runs : e.peer_runs h.pkt_from ≡ true
  pub has_box : in_range h.mail_from num_boxes ≡ true

abbrev pub reply_mail : Headers → Text → Mail
reply_mail h text = record {
  machine = h.pkt_from;
  box = h.mail_from;
  from_box = h.mail_to;
  length = text_length text + 1;
  text = text;
}

abbrev pub replied : Text → Server → Server
replied text s = record s {
  hdr = swapped s.hdr (text_length text + 1);
  outbox = s.outbox ++ reply_mail s.hdr text ∷ [];
}

-- A message as the header addresses it.
abbrev pub posted : Headers → Text → Mail
posted h text = record {
  machine = h.pkt_to;
  box = h.mail_to;
  from_box = h.mail_from;
  length = h.mail_length;
  text = text;
}

pub send_lem :
    (text : Text) (s : Server)
    → in_range s.hdr.mail_to num_boxes ≡ true
    → leb s.hdr.mail_length max_mail_size ≡ true
    → send text s
      ≡ done
          (s.env.peer_runs s.hdr.pkt_to)
          (record s { outbox = s.outbox ++ posted s.hdr text ∷ [] })
unfolding send
send_lem text s b h = ground arith

pub send_message_to_client_lem :
    (text : Text) (s : Server)
    → Answerable s.env s.hdr
    → leb (text_length text + 1) max_mail_size ≡ true
    → send_message_to_client text s ≡ done tt (replied text s)
unfolding send_message_to_client
send_message_to_client_lem text s a h = ground arith
