-- ===== src/Fsm/Rfc/Table.antt =====
-- The transition table of RFC 1661, section 4.1, without its options for passive peers and restarts.
-- It is read off the document, not off the code.
use ppp.Prelude.{ℕ, ◌%◌, List, [], ◌∷◌}
use ppp.Fsm.Defs.{
  State, initial, starting, closed, stopped, closing, stopping, req_sent, ack_rcvd, ack_sent,
  opened,
}
use ppp.Fsm.Send.{confreq, confack, termreq, termack, coderej}

-- `rcr_minus k` is a Configure-Request that is answered with code `k`.
pub data Event : Type 0 where
  up down open_layer close_layer timeout_plus timeout_minus rcr_plus : Event
  rcr_minus : ℕ → Event
  rca rcn rtr rta ruc rxj_plus rxj_minus : Event

-- This-Layer-Up, -Down, -Started, -Finished.
pub data Layer : Type 0 where
  tlu tld tls tlf : Layer

-- A cell: the notices to other layers and the codes of the packets sent, each the last first, and
-- the next state.
pub record Cell : Type 0 where
  pub layers : List Layer
  pub codes : List ℕ
  pub next : State

abbrev pub goes : State → Cell
goes s = record { layers = []; codes = []; next = s }

abbrev pub sends : ℕ → State → Cell
sends k s = record { layers = []; codes = k ∷ []; next = s }

abbrev pub tells : Layer → State → Cell
tells a s = record { layers = a ∷ []; codes = []; next = s }

abbrev pub both : Layer → List ℕ → State → Cell
both a ks s = record { layers = a ∷ []; codes = ks; next = s }

abbrev pub table : Event → State → Cell
table up initial = goes closed
table up starting = sends confreq req_sent
table down closed = goes initial
table down stopped = tells tls starting
table down closing = goes initial
table down stopping = goes starting
table down req_sent = goes starting
table down ack_rcvd = goes starting
table down ack_sent = goes starting
table down opened = tells tld starting
table open_layer initial = tells tls starting
table open_layer closed = sends confreq req_sent
table open_layer closing = goes stopping
table close_layer starting = tells tlf initial
table close_layer stopped = goes closed
table close_layer stopping = goes closing
table close_layer req_sent = sends termreq closing
table close_layer ack_rcvd = sends termreq closing
table close_layer ack_sent = sends termreq closing
table close_layer opened = both tld (termreq ∷ []) closing
table timeout_plus closing = sends termreq closing
table timeout_plus stopping = sends termreq stopping
table timeout_plus req_sent = sends confreq req_sent
table timeout_plus ack_rcvd = sends confreq req_sent
table timeout_plus ack_sent = sends confreq ack_sent
table timeout_minus closing = tells tlf closed
table timeout_minus stopping = tells tlf stopped
table timeout_minus req_sent = tells tlf stopped
table timeout_minus ack_rcvd = tells tlf stopped
table timeout_minus ack_sent = tells tlf stopped
table rcr_plus closed = sends termack closed
table rcr_plus stopped = record { layers = []; codes = confack ∷ confreq ∷ []; next = ack_sent }
table rcr_plus req_sent = sends confack ack_sent
table rcr_plus ack_rcvd = both tlu (confack ∷ []) opened
table rcr_plus ack_sent = sends confack ack_sent
table rcr_plus opened = both tld (confack ∷ confreq ∷ []) ack_sent
table (rcr_minus k) closed = sends termack closed
table (rcr_minus k) stopped = record {
  layers = [];
  codes = (k % 256) ∷ confreq ∷ [];
  next = req_sent;
}
table (rcr_minus k) req_sent = sends (k % 256) req_sent
table (rcr_minus k) ack_rcvd = sends (k % 256) ack_rcvd
table (rcr_minus k) ack_sent = sends (k % 256) req_sent
table (rcr_minus k) opened = both tld ((k % 256) ∷ confreq ∷ []) req_sent
table rca closed = sends termack closed
table rca stopped = sends termack stopped
table rca req_sent = goes ack_rcvd
table rca ack_rcvd = sends confreq req_sent
table rca ack_sent = tells tlu opened
table rca opened = both tld (confreq ∷ []) req_sent
table rcn closed = sends termack closed
table rcn stopped = sends termack stopped
table rcn req_sent = sends confreq req_sent
table rcn ack_rcvd = sends confreq req_sent
table rcn ack_sent = sends confreq ack_sent
table rcn opened = both tld (confreq ∷ []) req_sent
table rtr ack_rcvd = sends termack req_sent
table rtr ack_sent = sends termack req_sent
table rtr opened = both tld (termack ∷ []) stopping
table rtr s = sends termack s
table rta closing = tells tlf closed
table rta stopping = tells tlf stopped
table rta ack_rcvd = goes req_sent
table rta opened = both tld (confreq ∷ []) req_sent
table ruc s = sends coderej s
table rxj_plus ack_rcvd = goes req_sent
table rxj_minus closed = tells tlf closed
table rxj_minus stopped = tells tlf stopped
table rxj_minus closing = tells tlf closed
table rxj_minus stopping = tells tlf stopped
table rxj_minus req_sent = tells tlf stopped
table rxj_minus ack_rcvd = tells tlf stopped
table rxj_minus ack_sent = tells tlf stopped
table rxj_minus opened = both tld (termreq ∷ []) stopping
table _ s = goes s
