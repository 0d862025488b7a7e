-- ===== src/Demand/Defs.antt =====
-- pppd/demand.c: the reader of the loopback, and the queue of the frames to send later.
use ppp.Prelude.{
  ℕ, ◌+◌, ◌-◌, ◌*◌, Bool, true, false, not, ◌&&◌, ◌||◌, Option, none, some, List, [], ◌∷◌, ◌++◌,
  length, take, ltb, ◌==◌, if◌then◌else◌, bit_and, bit_xor,
}
use ppp.Hdlc.Fcs.{init_fcs, good_fcs, ppp_fcs}

-- The fields of `struct protent` that decide about a packet.
pub record Protent : Type 0 where
  pub protocol : ℕ
  pub enabled : Bool
  pub active_pkt : Option (List ℕ → Bool)

-- The variables of demand.c; `frame` holds the first `framelen` bytes. `sent` are the calls of
-- `output`, the last first.
pub record Demand : Type 0 where
  pub frame : List ℕ
  pub framemax : ℕ
  pub escape_flag : Bool
  pub flush_flag : Bool
  pub fcs : ℕ
  pub pend_q : List (List ℕ)
  pub sent : List (List ℕ)

-- `PPP_MRU + PPP_HDRLEN + PPP_FCSLEN`.
abbrev pub default_framemax : ℕ
default_framemax = 1506

-- The state that `demand_conf` leaves.
abbrev pub configured : Demand
configured = record {
  frame = [];
  framemax = default_framemax;
  escape_flag = false;
  flush_flag = false;
  fcs = init_fcs;
  pend_q = [];
  sent = [];
}

-- `demand_discard`, after the last of the loopback's output has been read.
unfoldable pub discard : Demand → Demand
discard d = record d {
  pend_q = [];
  frame = [];
  flush_flag = false;
  escape_flag = false;
  fcs = init_fcs;
}

-- `PPP_PROTOCOL`, of a packet with a header.
abbrev pub protocol_of : List ℕ → ℕ
protocol_of (a ∷ c ∷ hi ∷ lo ∷ rest) = hi * 256 + lo
protocol_of _ = 0

-- The packet as the filters see it: the first byte marks it as outbound. The code is modelled as
-- it is compiled with filters.
abbrev pub outbound : List ℕ → List ℕ
outbound [] = []
outbound (a ∷ rest) = 1 ∷ rest

-- The first byte as `active_packet` leaves it.
abbrev pub readdressed : List ℕ → List ℕ
readdressed [] = []
readdressed (a ∷ rest) = 0xff ∷ rest

abbrev pub is_active : Bool → Option (List ℕ → Bool) → List ℕ → Bool
is_active false active_pkt p = false
is_active true none p = true
is_active true (some active_pkt) p = active_pkt p

-- The loop of `active_packet` over the protocols.
unfoldable pub find_active : List Protent → ℕ → List ℕ → Bool
find_active [] proto p = false
find_active (protp ∷ ps) proto p =
    if ltb protp.protocol 0xc000 && bit_and protp.protocol 0x7fff == proto
    then is_active protp.enabled protp.active_pkt p
    else find_active ps proto p

-- The protocols of the program, whether the filters let a packet pass, and whether `malloc` gives a
-- piece of memory.
module _ (protocols : List Protent) (passes : List ℕ → Bool) (room : Bool) where
  -- `active_packet`.
  unfoldable pub active_packet : List ℕ → Bool
  unfolding find_active
  active_packet p =
      not (ltb (length p) 4)
      && passes (outbound p)
      && find_active protocols (protocol_of p) (readdressed p)

  -- The tests of `loop_frame`.
  unfoldable pub wanted : List ℕ → Bool
  unfolding active_packet
  wanted p = not (ltb (length p) 4) && (bit_and (protocol_of p) 0x8000 == 0) && active_packet p

  -- `loop_frame`, with its return value.
  unfoldable pub loop_frame : List ℕ → Demand → Bool × Demand
  loop_frame p d =
      if not (wanted p)
      then (false, d)
      else (true, if room then record d { pend_q = d.pend_q ++ (readdressed p ∷ []) } else d)

  -- The frame's end: what a flag does.
  abbrev pub fresh : Demand → Demand
  fresh d = record d { frame = []; flush_flag = false; escape_flag = false; fcs = init_fcs }

  unfoldable pub loop_flag : Demand → Bool × Demand
  loop_flag d =
      let (rv, d') = loop_frame (take (length d.frame - 2) d.frame) d in
      if not d.escape_flag && not d.flush_flag && ltb 2 (length d.frame) && d.fcs == good_fcs
      then (rv, fresh d')
      else (false, fresh d)

  -- A byte of a frame, after the escape has been undone.
  unfoldable pub loop_store : ℕ → Demand → Demand
  loop_store c d =
      if ltb (length d.frame) d.framemax
      then record d { frame = d.frame ++ (c ∷ []); fcs = ppp_fcs d.fcs c }
      else record d { flush_flag = true }

  -- One round of the loop of `loop_chars`: whether the link is wanted, and the state.
  unfoldable pub loop_char : ℕ → Demand → Bool × Demand
  loop_char c d =
      if c == 0x7e
      then loop_flag d
      else if d.flush_flag
      then (false, d)
      else if d.escape_flag
      then (false, loop_store (bit_xor c 0x20) (record d { escape_flag = false }))
      else if c == 0x7d
      then (false, record d { escape_flag = true })
      else (false, loop_store c d)

  -- `loop_chars`, with its return value.
  unfoldable pub loop_chars : List ℕ → Demand → Bool × Demand
  loop_chars [] d = (false, d)
  loop_chars (c ∷ cs) d =
      let (rv, d') = loop_char c d in let (rv', d'') = loop_chars cs d' in (rv || rv', d'')

-- The loop of `demand_rexmit` over the queue that was taken off: the frames that stay, in their
-- order, and the calls of `output`.
unfoldable pub rexmit_loop :
    ℕ → List (List ℕ) → List (List ℕ) → List (List ℕ) → List (List ℕ) × List (List ℕ)
rexmit_loop proto [] kept sent = (kept, sent)
rexmit_loop proto (p ∷ ps) kept sent =
    let hit = protocol_of p == proto in
    rexmit_loop proto ps (if hit then kept else kept ++ (p ∷ [])) (if hit then p ∷ sent else sent)

-- `demand_rexmit`.
unfoldable pub rexmit : ℕ → Demand → Demand
unfolding rexmit_loop
rexmit proto d =
    let (kept, sent) = rexmit_loop proto d.pend_q [] d.sent in
    record d { pend_q = kept; sent = sent }
