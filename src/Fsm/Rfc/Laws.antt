-- ===== src/Fsm/Rfc/Laws.antt =====
-- What the table's notices mean for a client: a log that the four layer callbacks extend and that
-- no other callback touches.
use ppp.Prelude.{ℕ, ◌≡◌, if◌then◌else◌, Bool, List, [], ◌∷◌, ◌++◌, arith}
use ppp.Fsm.Defs.{World, Callbacks, Fsm}
use ppp.Fsm.Send.{
  call, tell, own_options, prepare_request, sconfreq, begin_terminate, is_opened, confreq, termreq,
}
use ppp.Fsm.Input.{reply_to, checked_ack, checked_nak, checked_rej}
use ppp.Fsm.Rfc.Table.{Layer, tlu, tld, tls, tlf, Cell}

-- A notice: the log grows, and the machine and what it sent stay.
pub record Notified {C : Type 0} (log : C → List Layer) (notice : Layer) (w w' : World C)
    : Type 0 where
  pub same_fsm : w'.fsm ≡ w.fsm
  pub same_sent : w'.sent ≡ w.sent
  pub logged : log w'.client ≡ notice ∷ log w.client

-- The callbacks leave the machine and what it sent alone, and write the log as their names say.
pub record Logs {C : Type 0} (cb : Callbacks C) (log : C → List Layer) : Type 0 where
  pub up : (w : World C) → Notified log tlu w (call cb.up w)
  pub starting : (w : World C) → Notified log tls w (call cb.starting w)
  pub finished : (w : World C) → Notified log tlf w (call cb.finished w)
  pub down_log : (w : World C) → log (tell cb.down w).client ≡ tld ∷ log w.client
  pub resetci_log : (w : World C) → log (tell cb.resetci w).client ≡ log w.client
  pub retransmit_log : (w : World C) → log (tell cb.retransmit w).client ≡ log w.client
  pub addci_log : (f : Fsm) (c : C) → log (own_options cb cb.cilen cb.addci f c).1 ≡ log c
  pub reqci_log :
      (f : Fsm) (c : C) (body : List ℕ) → log (reply_to cb.reqci f c body).client ≡ log c
  pub ackci_log : (f : Fsm) (c : C) (body : List ℕ) → log (checked_ack cb.ackci f c body).1 ≡ log c
  pub nakci_log : (f : Fsm) (c : C) (body : List ℕ) → log (checked_nak cb.nakci f c body).1 ≡ log c
  pub rejci_log : (f : Fsm) (c : C) (body : List ℕ) → log (checked_rej cb.rejci f c body).1 ≡ log c

-- The code in a frame that `fsm_sdata` built.
abbrev pub code_of : List ℕ → ℕ
code_of (_ ∷ _ ∷ _ ∷ _ ∷ k ∷ _) = k
code_of _ = 0

abbrev pub codes_of : List (List ℕ) → List ℕ
codes_of [] = []
codes_of (p ∷ ps) = code_of p ∷ codes_of ps

-- The step from `w` to `w'` is the one that a cell of the table describes.
pub record Follows {C : Type 0} (log : C → List Layer) (w w' : World C) (cell : Cell) : Type 0 where
  pub state : w'.fsm.state ≡ cell.next
  pub layers : log w'.client ≡ cell.layers ++ log w.client
  pub codes : codes_of w'.sent ≡ cell.codes ++ codes_of w.sent

module _ {C : Type 0} (cb : Callbacks C) (log : C → List Layer) (laws : Logs cb log) where
  prepare_request_log :
      (b : Bool) (w : World C) → log (prepare_request cb b w).client ≡ log w.client
  unfolding prepare_request
  prepare_request_log b w = ground (arith, laws.resetci_log w)

  pub sconfreq-Follows :
      (b : Bool) (w : World C)
      → Follows log w
          (sconfreq cb b w)
          (record { layers = []; codes = confreq ∷ []; next = w.fsm.state })
  unfolding sconfreq
  sconfreq-Follows b w =
      let w3 = prepare_request cb b w in
      ground (arith, prepare_request_log b w, laws.addci_log w3.fsm w3.client)

  pub begin_terminate_log :
      (w : World C)
      → log (begin_terminate cb w).client
        ≡ (if is_opened w.fsm.state then tld ∷ log w.client else log w.client)
  unfolding begin_terminate
  begin_terminate_log w = ground (arith, laws.down_log w)

  pub begin_terminate_codes :
      (w : World C) → codes_of (begin_terminate cb w).sent ≡ termreq ∷ codes_of w.sent
  unfolding begin_terminate
  begin_terminate_codes w = ground arith

  pub begin_terminate_max :
      (w : World C) → (begin_terminate cb w).fsm.retransmits ≡ w.fsm.maxtermtransmits
  unfolding begin_terminate
  begin_terminate_max w = ground arith
