-- ===== src/Upap/Defs.antt =====
-- pppd/upap.h: the states of the two ends, `struct upap_state`, and what upap.c calls elsewhere.
use ppp.Prelude.{ℕ, pos, ℤ, ◌+◌, ◌/◌, ◌%◌, Bool, List, [], ◌∷◌, length, not, nonpos}

pub data ClientState : Type 0 where
  initial closed pending auth_req open' bad_auth : ClientState

pub data ServerState : Type 0 where
  initial closed pending listen open' bad_auth : ServerState

pub record Upap : Type 0 where
  pub user : List ℕ
  pub passwd : List ℕ
  pub clientstate : ClientState
  pub serverstate : ServerState
  pub id : ℕ  -- unsigned char
  pub timeouttime : ℕ
  pub transmits : ℕ
  pub maxtransmits : ℤ
  pub reqtimeout : ℤ

-- `timers` and `req_timers` count the pending callouts of `upap_timeout` and `upap_reqtimeout`, and
-- `sent` holds the frames passed to `output`, the newest first; `client` is the rest of pppd.
pub record World (C : Type 0) : Type 0 where
  pub upap : Upap
  pub timers : ℕ
  pub req_timers : ℕ
  pub sent : List (List ℕ)
  pub client : C

-- What auth.c provides. Its reports may bring the link down, and so call the protocol again.
pub record Auth (C : Type 0) : Type 0 where
  pub check_passwd : C → List ℕ → List ℕ → ℕ × List ℕ × C
  pub auth_number : C → Bool
  pub withpeer_fail : World C → World C
  pub withpeer_success : World C → World C
  pub peer_fail : World C → World C
  pub peer_success : List ℕ → World C → World C

abbrev pub authreq : ℕ
authreq = 1

abbrev pub authack : ℕ
authack = 2

abbrev pub authnak : ℕ
authnak = 3

abbrev pub headerlen : ℕ
headerlen = 4

-- `us_reqtimeout > 0`.
abbrev pub has_reqtimeout : Upap → Bool
has_reqtimeout u = not (nonpos u.reqtimeout)

-- The PPP header for PAP, and the protocol's own header.
abbrev pub packet : ℕ → ℕ → List ℕ → List ℕ
packet code id body =
    let outlen = length body + headerlen in
    0xff
    ∷ 0x03
    ∷ 0xc0
    ∷ 0x23
    ∷ (code % 256)
    ∷ (id % 256)
    ∷ (outlen / 256 % 256)
    ∷ (outlen % 256)
    ∷ body

module _ {C : Type 0} where
  abbrev pub set_client : ClientState → World C → World C
  set_client s w = let u = w.upap in record w { upap = record u { clientstate = s } }

  abbrev pub set_server : ServerState → World C → World C
  set_server s w = let u = w.upap in record w { upap = record u { serverstate = s } }

-- `upap_init`; `us_transmits` keeps what is in the structure.
unfoldable pub init : Upap → Upap
init u = record u {
  user = [];
  passwd = [];
  clientstate = ClientState.initial;
  serverstate = ServerState.initial;
  id = 0;
  timeouttime = 3;
  maxtransmits = pos 10;
  reqtimeout = pos 30;
}
