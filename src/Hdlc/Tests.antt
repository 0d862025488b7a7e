-- ===== src/Hdlc/Tests.antt =====
-- A message on the line between two streams, and the theorems at it.
use ppp.Prelude.{ℕ, ◌≡◌, refl, true, some, List, [], ◌∷◌, arith, bit_xor}
use ppp.Hdlc.Fcs.{fcs_all, fcs_low, fcs_high, ppp_fcs}
use ppp.Hdlc.Defs.{
  Ahdlc, Rx, frame, written, opened, encode, decode, in_tx_map, stuff, stuff_all, line, tx_map,
  decode_all, flag, escape, trans,
}
use ppp.Hdlc.Stuffing.{Suits}
use ppp.Hdlc.Maps.{opened-Suits}
use ppp.Hdlc.RoundTrip.{IsReady, decode-encode}
use ppp.Hdlc.Faults.{escape_survives}

-- A Configure-Request with no options.
abbrev message : List ℕ
message = 0xff ∷ 0x03 ∷ 0xc0 ∷ 0x21 ∷ 1 ∷ 1 ∷ 0 ∷ 4 ∷ []

message_line :
    line true opened.xaccm message
    ≡ 0x7e ∷ 0xff ∷ 0x7d ∷ 0x23 ∷ 0xc0 ∷ 0x21 ∷ 0x7d ∷ 0x21 ∷ 0x7d ∷ 0x21 ∷ 0x7d ∷ 0x20 ∷ 0x7d
      ∷ 0x24 ∷ 0xd1 ∷ 0xb5 ∷ 0x7e ∷ []
unfolding line tx_map stuff_all stuff in_tx_map fcs_all fcs_low fcs_high ppp_fcs
message_line = refl

abbrev idle : Rx
idle = record { state = opened; up = [] }

idle-IsReady : IsReady idle
idle-IsReady = record { rx_buf = refl; iflush = refl }

opened-Suits_example : Suits (tx_map opened.xaccm message) 0xffffffff
opened-Suits_example = opened-Suits 0xffffffff message

decode-encode_example :
    (out : List ℕ) × ((encode true true opened message).1 ≡ written out)
    × ((decode true out idle).up ≡ frame message ∷ [])
    × IsReady (decode true out idle)
decode-encode_example =
    decode-encode true opened message idle (opened-Suits 0 message) idle-IsReady
      (
        omega arith,
        (
          omega arith,
          (
            omega arith,
            (omega arith, (omega arith, (omega arith, (omega arith, (omega arith, tt))))),
          ),
        ),
      )
      (omega arith) (omega arith)

-- The request asks for 0x5d and 0x5e to be escaped, and for nothing else.
abbrev asked : Ahdlc
asked =
    let st = opened in record st { xaccm = 0 ∷ 0 ∷ 0x20000000 ∷ 0x60000000 ∷ 0 ∷ 0 ∷ 0 ∷ 0 ∷ [] }

escape_survives_example :
    (decode_all true (escape ∷ flag ∷ 0xff ∷ []) idle).state.rx_buf ≡ some (bit_xor 0xff trans ∷ [])
escape_survives_example = escape_survives 0xff idle idle-IsReady refl refl

abbrev begun : Rx
begun =
    let st = opened in
    record { state = record st { rx_buf = some (0xff ∷ []); rx_buf_size = 1532 }; up = [] }
