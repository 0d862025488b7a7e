-- ===== src/Fsm/Defs.antt =====
-- pppd/fsm.h: the link states, `struct fsm`, and `struct fsm_callbacks`.
use ppp.Prelude.{ℕ, ℤ, Bool, Option, List}

pub data State : Type 0 where
  initial starting closed stopped closing stopping req_sent ack_rcvd ack_sent opened : State

pub record Fsm : Type 0 where
  pub protocol : ℕ
  pub state : State
  pub flags : ℕ
  pub id : ℕ  -- unsigned char
  pub reqid : ℕ  -- unsigned char
  pub seen_ack : Bool
  pub timeouttime : ℕ
  pub maxconfreqtransmits : ℤ
  pub retransmits : ℤ
  pub maxtermtransmits : ℤ
  pub nakloops : ℕ
  pub rnakloops : ℕ
  pub maxnakloops : ℤ
  pub term_reason : List ℕ

-- What a handler reads and changes. `timers` counts the pending callouts of `fsm_timeout` for this
-- machine, `sent` holds the frames passed to `output`, the newest first, and `client` is the state
-- of the protocol that owns the machine and of the layers that its callbacks reach.
pub record World (C : Type 0) : Type 0 where
  pub fsm : Fsm
  pub timers : ℕ
  pub sent : List (List ℕ)
  pub client : C

-- What `reqci` leaves: the code of the reply, and the options to be sent back in it.
pub record Reply (C : Type 0) : Type 0 where
  pub code : ℕ
  pub options : List ℕ
  pub client : C

-- The callbacks, `none` for a null pointer. Those that check or build options, `down` and
-- `retransmit` read the machine and change the client alone; the others may call the machine's own
-- entry points again. `peer_mru` reads this unit's entry of the array of that name, which the
-- clients write.
pub record Callbacks (C : Type 0) : Type 0 where
  pub peer_mru : C → ℕ
  pub resetci : Option (Fsm → C → C)
  pub cilen : Option (Fsm → C → ℕ)
  pub addci : Option (Fsm → C → ℕ → List ℕ × C)
  pub ackci : Option (Fsm → C → List ℕ → Bool × C)
  pub nakci : Option (Fsm → C → List ℕ → Bool → ℤ × C)
  pub rejci : Option (Fsm → C → List ℕ → ℤ × C)
  pub reqci : Option (Fsm → C → List ℕ → Bool → Reply C)
  pub up : Option (World C → World C)
  pub down : Option (Fsm → C → C)
  pub starting : Option (World C → World C)
  pub finished : Option (World C → World C)
  pub retransmit : Option (Fsm → C → C)
  pub extcode : Option (ℕ → ℕ → List ℕ → World C → Bool × World C)
