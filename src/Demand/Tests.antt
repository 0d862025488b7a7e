-- ===== src/Demand/Tests.antt =====
-- A loopback with one network protocol, and the theorems at frames for it.
use ppp.Prelude.{ℕ, ◌≡◌, refl, Bool, true, none, List, [], ◌∷◌, arith}
use ppp.Hdlc.Defs.{opened, line, in_tx_map}
use ppp.Demand.Defs.{
  Protent, Demand, configured, loop_chars, loop_frame, active_packet, wanted, find_active, rexmit,
}
use ppp.Demand.Reads.{IsIdle, loop_chars-line}
use ppp.Demand.Queue.{IsBounded, loop_chars-IsBounded}

abbrev ip : List Protent
ip = record { protocol = 0x8021; enabled = true; active_pkt = none } ∷ []

abbrev packet : List ℕ
packet = 0xff ∷ 0x03 ∷ 0x00 ∷ 0x21 ∷ 0x45 ∷ []

abbrev passes : List ℕ → Bool
passes p = true

packet_wanted :
    loop_frame ip passes true packet configured
    ≡ (let d = configured in (true, record d { pend_q = packet ∷ [] }))
unfolding loop_frame wanted active_packet find_active
packet_wanted = refl

configured-IsIdle : IsIdle ip passes true configured
configured-IsIdle = record { frame = refl; escape_flag = refl; flush_flag = refl; fcs = refl }

loop_chars-line_example :
    loop_chars ip passes true (line true opened.xaccm packet) configured
    ≡ loop_frame ip passes true packet configured
loop_chars-line_example =
    loop_chars-line ip passes true true opened.xaccm packet configured
      (unfold in_tx_map in (refl, refl, refl, refl))
      (omega arith, (omega arith, (omega arith, (omega arith, (omega arith, tt))))) (omega arith)
      (omega arith) configured-IsIdle

loop_chars-IsBounded_example :
    IsBounded (loop_chars ip passes true (1 ∷ 2 ∷ 0x7d ∷ []) configured).1
loop_chars-IsBounded_example =
    loop_chars-IsBounded ip passes true (1 ∷ 2 ∷ 0x7d ∷ []) configured (omega arith)

abbrev waiting : Demand
waiting =
    let d = configured in record d { pend_q = packet ∷ (0xff ∷ 3 ∷ 0 ∷ 0x57 ∷ []) ∷ packet ∷ [] }

waiting_sent : rexmit 0x21 waiting ≡ (
    let d = configured in
    record d { pend_q = (0xff ∷ 3 ∷ 0 ∷ 0x57 ∷ []) ∷ []; sent = packet ∷ packet ∷ [] })
unfolding rexmit
waiting_sent = refl
