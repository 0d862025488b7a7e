-- ===== src/Chap/Defs.antt =====
-- pppd/chap.c: the state of the two ends, the digests, and what is called elsewhere.
use ppp.Prelude.{
  ℕ, ℤ, ◌+◌, ◌/◌, ◌%◌, Bool, false, Option, none, some, List, [], ◌∷◌, length, ◌==◌, if◌then◌else◌,
}

-- `struct chap_digest_type`. A challenge and a response are the bytes behind their length byte; the
-- text behind a result is the message for the peer.
pub record Digest (C : Type 0) : Type 0 where
  pub code : ℕ
  pub generate_challenge : C → List ℕ × C
  pub verify_response : C → ℕ → List ℕ → List ℕ → List ℕ → List ℕ → Bool × List ℕ × C
  pub make_response : C → ℕ → List ℕ → List ℕ → List ℕ → List ℕ × C
  pub check_success : Option (C → ℕ → List ℕ → Bool × C)
  pub handle_failure : Option (C → List ℕ → C)

-- The bits of `flags`, the same for both ends; the client uses all but the last.
pub record Flags : Type 0 where
  pub lowerup : Bool
  pub started : Bool
  pub done : Bool
  pub failed : Bool
  pub timeout_pending : Bool
  pub challenge_valid : Bool

abbrev pub no_flags : Flags
no_flags = record {
  lowerup = false;
  started = false;
  done = false;
  failed = false;
  timeout_pending = false;
  challenge_valid = false;
}

pub record ClientState (C : Type 0) : Type 0 where
  pub flags : Flags
  pub name : List ℕ
  pub digest : Digest C

-- `challenge` is the frame of the last Challenge.
pub record ServerState (C : Type 0) : Type 0 where
  pub flags : Flags
  pub id : ℕ
  pub name : List ℕ
  pub digest : Digest C
  pub challenge_xmits : ℕ
  pub challenge : List ℕ
  pub message : List ℕ

-- The two ends, the registered digests, the pending callouts of `chap_client_timeout` and
-- `chap_server_timeout`, the frames passed to `output` (the newest first), and the rest of pppd.
pub record World (C : Type 0) : Type 0 where
  pub client : ClientState C
  pub server : ServerState C
  pub chap_digests : List (Digest C)
  pub client_timers : ℕ
  pub server_timers : ℕ
  pub sent : List (List ℕ)
  pub env : C

-- The options of chap.c, and what it takes from the rest of pppd. `verifier` is `chap_verify_hook`,
-- `clean` is what `slprintf` makes of a name with `%v`, and `get_secret` gives the secret for a
-- client and a server name. The four reports may bring the link down, and so call CHAP again.
pub record Auth (C : Type 0) : Type 0 where
  pub max_transmits : ℤ
  pub rechallenge_time : ℕ
  pub explicit_remote : Bool
  pub remote_name : List ℕ
  pub strip_domain : Bool
  pub session_mgmt : Bool
  pub verifier : Option (C → List ℕ → List ℕ → ℕ → Digest C → List ℕ → List ℕ → Bool × List ℕ × C)
  pub random_byte : C → ℕ × C
  pub clean : List ℕ → List ℕ
  pub get_secret : C → List ℕ → List ℕ → Bool → Option (List ℕ)
  pub auth_number : C → Bool
  pub session_check : C → List ℕ → Bool
  pub withpeer_fail : World C → World C
  pub withpeer_success : ℕ → World C → World C
  pub peer_fail : World C → World C
  pub peer_success : ℕ → List ℕ → World C → World C

-- The codes of chap.h.
abbrev pub challenge_code : ℕ
challenge_code = 1

abbrev pub response_code : ℕ
response_code = 2

abbrev pub success_code : ℕ
success_code = 3

abbrev pub failure_code : ℕ
failure_code = 4

abbrev pub headerlen : ℕ
headerlen = 4

-- The PPP header for CHAP, and the protocol's own.
abbrev pub packet : ℕ → ℕ → List ℕ → List ℕ
packet code id body =
    let len = length body + headerlen in
    0xff ∷ 0x03 ∷ 0xc2 ∷ 0x23 ∷ code ∷ (id % 256) ∷ (len / 256 % 256) ∷ (len % 256) ∷ body

module _ {C : Type 0} where
  -- `chap_register_digest`.
  unfoldable pub register_digest : Digest C → World C → World C
  register_digest dp w = record w { chap_digests = dp ∷ w.chap_digests }

  -- `chap_find_digest`, over the list.
  unfoldable pub find_digest : ℕ → List (Digest C) → Option (Digest C)
  find_digest code [] = none
  find_digest code (dp ∷ ds) = if dp.code == code then some dp else find_digest code ds

  abbrev pub set_client : Flags → World C → World C
  set_client f w = let cs = w.client in record w { client = record cs { flags = f } }

  abbrev pub set_server : Flags → World C → World C
  set_server f w = let ss = w.server in record w { server = record ss { flags = f } }
