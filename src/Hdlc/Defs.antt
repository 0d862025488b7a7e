-- ===== src/Hdlc/Defs.antt =====
-- modules/ppp_ahdlc.c: byte stuffing and its reverse, on the state of one stream.
use ppp.Prelude.{
  ℕ, ◌+◌, ◌-◌, ◌/◌, ◌%◌, ◌^◌, Bool, true, false, not, ◌&&◌, ◌||◌, Option, none, some, List, [], ◌∷◌,
  ◌++◌, length, take, drop, ltb, leb, ◌==◌, if◌then◌else◌, bit_and, bit_or, bit_xor,
}
use ppp.Hdlc.Fcs.{entry, init_fcs, good_fcs, ppp_fcs, fcs_all, fcs_low, fcs_high}

-- `PPP_FLAG`, `PPP_ESCAPE`, `PPP_TRANS`, `PPP_FCSLEN` and `PPP_MRU`.
abbrev pub flag : ℕ
flag = 0x7e

abbrev pub escape : ℕ
escape = 0x7d

abbrev pub trans : ℕ
trans = 0x20

abbrev pub fcslen : ℕ
fcslen = 2

abbrev pub default_mru : ℕ
default_mru = 1500

-- The counters of `struct pppstat`.
pub record Stats : Type 0 where
  pub ibytes : ℕ
  pub ipackets : ℕ
  pub ierrors : ℕ
  pub obytes : ℕ
  pub opackets : ℕ
  pub oerrors : ℕ

-- `ahdlc_state_t`, with each bit of `flags` for itself. The buffer holds the bytes so far.
pub record Ahdlc : Type 0 where
  pub b7_1 : Bool
  pub b7_0 : Bool
  pub oddp : Bool
  pub evnp : Bool
  pub escaped : Bool
  pub iflush : Bool
  pub rx_buf : Option (List ℕ)
  pub rx_buf_size : ℕ
  pub infcs : ℕ
  pub xaccm : List ℕ
  pub raccm : ℕ
  pub mtu : ℕ
  pub mru : ℕ
  pub unit : ℕ
  pub stats : Stats

-- `ahdlc_open`: the cleared structure, and the maps at their defaults.
abbrev pub opened : Ahdlc
opened = record {
  b7_1 = false;
  b7_0 = false;
  oddp = false;
  evnp = false;
  escaped = false;
  iflush = false;
  rx_buf = none;
  rx_buf_size = 0;
  infcs = 0;
  xaccm = 0xffffffff ∷ 0 ∷ 0 ∷ 0x60000000 ∷ 0 ∷ 0 ∷ 0 ∷ 0 ∷ [];
  raccm = 0;
  mtu = 0;
  mru = default_mru;
  unit = 0;
  stats = record { ibytes = 0; ipackets = 0; ierrors = 0; obytes = 0; opackets = 0; oerrors = 0 };
}

-- `IN_TX_MAP` and `IN_RX_MAP`.
unfoldable pub in_tx_map : ℕ → List ℕ → Bool
in_tx_map c m = not (bit_and (entry m (c / 32)) (2 ^ (c % 32)) == 0)

unfoldable pub in_rx_map : ℕ → ℕ → Bool
in_rx_map c m = ltb c 0x20 && not (bit_and m (2 ^ c) == 0)

-- `LCP_USE_DFLT`, on the bytes behind the protocol.
abbrev pub lcp_use_dflt : List ℕ → Bool
lcp_use_dflt [] = false
lcp_use_dflt (code ∷ rest) = leb 1 code && leb code 7

abbrev pub is_lcp : List ℕ → Bool
is_lcp (a ∷ b ∷ c ∷ d ∷ rest) =
    a == 0xff && b == 0x03 && c == 0xc0 && d == 0x21 && lcp_use_dflt rest
is_lcp _ = false

-- The map that `ahdlc_encode` uses for a message.
unfoldable pub tx_map : List ℕ → List ℕ → List ℕ
tx_map xaccm msg = if is_lcp msg then 0xffffffff ∷ drop 1 xaccm else xaccm

-- One byte on the line.
unfoldable pub stuff : List ℕ → ℕ → List ℕ
stuff m b = if in_tx_map b m then escape ∷ bit_xor b trans ∷ [] else b ∷ []

unfoldable pub stuff_all : List ℕ → List ℕ → List ℕ
stuff_all m [] = []
stuff_all m (b ∷ bs) = stuff m b ++ stuff_all m bs

-- What `ahdlc_encode` does with a message: too short, no buffer for it (`PPPCTL_OERROR`), or written.
pub data Encoded : Type 0 where
  dropped oerror : Encoded
  written : List ℕ → Encoded

-- The bytes for a message; `flag_first` is what the driver's queue, or the clock, asks for.
unfoldable pub line : Bool → List ℕ → List ℕ → List ℕ
line flag_first xaccm msg =
    let m = tx_map xaccm msg in
    let fcs = fcs_all init_fcs msg in
    (if flag_first then flag ∷ [] else [])
    ++ (stuff_all m msg ++ (stuff m (fcs_low fcs) ++ (stuff m (fcs_high fcs) ++ (flag ∷ []))))

-- `ahdlc_encode`; `room` is whether `allocb` gives a buffer.
unfoldable pub encode : Bool → Bool → Ahdlc → List ℕ → Ahdlc × Encoded
encode room flag_first st msg =
    let s = st.stats in
    let out = line flag_first st.xaccm msg in
    if ltb (length msg) 4
    then (st, dropped)
    else if not room
    then (record st { stats = record s { oerrors = s.oerrors + 1 } }, oerror)
    else (
      record st { stats = record s { obytes = s.obytes + length out; opackets = s.opackets + 1 } },
      written out,
    )

-- What goes up the stream: a frame, or the word that one was bad (`PPPCTL_IERROR`).
pub data Up : Type 0 where
  frame : List ℕ → Up
  ierror : Up

-- The state, and what has gone up, the last first.
pub record Rx : Type 0 where
  pub state : Ahdlc
  pub up : List Up

abbrev pub paritytab : List ℕ
paritytab =
    0x96696996 ∷ 0x69969669 ∷ 0x69969669 ∷ 0x96696996 ∷ 0x69969669 ∷ 0x96696996 ∷ 0x96696996
    ∷ 0x69969669 ∷ []

-- The flags about the line's width and parity.
unfoldable pub note_parity : ℕ → Ahdlc → Ahdlc
note_parity b st =
    let odd = in_tx_map b paritytab in
    record st {
      b7_1 = st.b7_1 || leb 0x80 b;
      b7_0 = st.b7_0 || not (leb 0x80 b);
      oddp = st.oddp || odd;
      evnp = st.evnp || not odd;
    }

-- `adjmsg (om, -PPP_FCSLEN)`, which fails on a shorter message.
unfoldable pub strip_fcs : List ℕ → List ℕ
strip_fcs buf = if ltb (length buf) fcslen then buf else take (length buf - fcslen) buf

-- A flag.
unfoldable pub end_frame : Option (List ℕ) → Rx → Rx
end_frame none r = let st = r.state in record r { state = record st { iflush = false } }
end_frame (some []) r = let st = r.state in record r { state = record st { iflush = false } }
end_frame (some (b ∷ bs)) r =
    let st = r.state in
    let s = st.stats in
    if st.iflush
    then record r { state = record st { iflush = false } }
    else if st.infcs == good_fcs
    then record {
      state = record st { rx_buf = none; stats = record s { ipackets = s.ipackets + 1 } };
      up = frame (strip_fcs (b ∷ bs)) ∷ r.up;
    }
    else record {
      state = record st {
        rx_buf = none;
        iflush = false;
        escaped = false;
        stats = record s { ierrors = s.ierrors + 1 };
      };
      up = ierror ∷ r.up;
    }

-- The byte joins the buffer, if that has room.
unfoldable pub store : ℕ → Option (List ℕ) → Ahdlc → Ahdlc
store b none st = st
store b (some buf) st =
    if ltb (length buf) st.rx_buf_size
    then record st { infcs = ppp_fcs st.infcs b; rx_buf = some (buf ++ (b ∷ [])) }
    else record st { rx_buf = none; iflush = true }

-- A byte of a frame whose buffer is there.
unfoldable pub take_byte : ℕ → Ahdlc → Ahdlc
take_byte b st =
    if b == escape
    then record st { escaped = true }
    else if st.escaped
    then store (bit_xor b trans) st.rx_buf (record st { escaped = false })
    else if in_rx_map b st.raccm
    then st
    else store b st.rx_buf st

-- The buffer of a new frame; `room` is whether `allocb` gives one.
unfoldable pub start_frame : Bool → ℕ → Ahdlc → Ahdlc
start_frame room b st =
    let size = (if ltb st.mru default_mru then default_mru else st.mru) + 32 in
    if room
    then take_byte b (record st {
      rx_buf_size = size;
      rx_buf = some [];
      iflush = false;
      escaped = false;
      infcs = init_fcs;
    })
    else record st { rx_buf_size = size; iflush = true }

abbrev pub in_frame : Bool → ℕ → Option (List ℕ) → Ahdlc → Ahdlc
in_frame room b none st = start_frame room b st
in_frame room b (some buf) st = take_byte b st

unfoldable pub decode_byte : Bool → ℕ → Rx → Rx
decode_byte room b r =
    let st = note_parity b r.state in
    if b == flag
    then end_frame st.rx_buf (record r { state = st })
    else if st.iflush
    then record r { state = st }
    else record r { state = in_frame room b st.rx_buf st }

unfoldable pub decode_all : Bool → List ℕ → Rx → Rx
decode_all room [] r = r
decode_all room (b ∷ bs) r = decode_all room bs (decode_byte room b r)

-- `ahdlc_decode` on the bytes of a message; `room` is whether `allocb` gives its buffers.
unfoldable pub decode : Bool → List ℕ → Rx → Rx
decode room bs r =
    let st = r.state in
    let s = st.stats in
    decode_all room bs
      (record r { state = record st { stats = record s { ibytes = s.ibytes + length bs } } })

-- `ahdlc_rput` for a hang-up.
unfoldable pub hangup : Ahdlc → Ahdlc
hangup st = record st {
  rx_buf = none;
  b7_1 = false;
  b7_0 = false;
  oddp = false;
  evnp = false;
  escaped = false;
  iflush = true;
}

-- `bcopy` of the first words.
abbrev pub overlay : List ℕ → List ℕ → List ℕ
overlay [] old = old
overlay (x ∷ xs) [] = []
overlay (x ∷ xs) (o ∷ os) = x ∷ overlay xs os

-- 0x5e is not escaped, and 0x7d and 0x7e are.
abbrev pub adjust : List ℕ → List ℕ
adjust (w0 ∷ w1 ∷ w2 ∷ w3 ∷ ws) = w0 ∷ w1 ∷ bit_and w2 0xbfffffff ∷ bit_or w3 0x60000000 ∷ ws
adjust ws = ws

-- The request `PPPIO_XACCM` of `ahdlc_wput` with whole words; `none` for `EINVAL`.
unfoldable pub set_xaccm : List ℕ → Ahdlc → Option Ahdlc
set_xaccm words st =
    if ltb (length words) 1 || ltb 8 (length words)
    then none
    else some (record st { xaccm = adjust (overlay words st.xaccm) })

-- The request `PPPIO_RACCM`, and the control messages for the MTU, the MRU and the unit.
unfoldable pub set_raccm : ℕ → Ahdlc → Ahdlc
set_raccm word st = record st { raccm = word }

unfoldable pub set_mtu : ℕ → Ahdlc → Ahdlc
set_mtu n st = record st { mtu = n }

unfoldable pub set_mru : ℕ → Ahdlc → Ahdlc
set_mru n st = record st { mru = n }

unfoldable pub set_unit : ℕ → Ahdlc → Ahdlc
set_unit n st = record st { unit = n }
