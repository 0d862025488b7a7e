-- ===== src/Lcp/Tests.antt =====
-- A request with six options, and the theorems at it.
use ppp.Prelude.{◌+◌, ◌≤◌, ℕ, ◌≡◌, ◌↔◌, refl, true, false, List, [], ◌∷◌, arith, none, pos}
use ppp.Lcp.Options.{put_long, LcpOptions, ack_form}
use ppp.Lcp.Request.{addci, ackci, add_all, ack_all, chap_digest}
use ppp.Lcp.Reject.{rejci, rej_all, rej_form, match_value, clear}
use ppp.Lcp.Shrink.{on_count, after_all, rejects_end}
use ppp.Lcp.Nak.{
  nakci_if, option_at, nak_mru, digest_differs, nak_endpoint, chap_candigest, chap_mdtype,
  chap_mdtype_d, and_not,
}
use ppp.Lcp.Nakci.{nak_rest, instead, is_bad, adopt, next_digest, instead_chap, nakci}
use ppp.Lcp.Conceded.{Conceded}
use ppp.Lcp.NakLimits.{nakci-Conceded}
use ppp.Lcp.Kept.{suggestion, own_digest_accepted}
use ppp.Fsm.Defs.{opened, closing, World, Callbacks}
use ppp.Lcp.Echo.{Echo, Settings}
use ppp.Lcp.Alive.{with_requests, Waits, silence, silence_closes, is_answer, replies, replies-Waits}
use ppp.Lcp.Table.{own_table, sent_bytes, Chosen}
use ppp.Lcp.Rejected.{rejci-Chosen}
use ppp.Lcp.Agreement.{IsSane, ackci_iff_addci}

abbrev wanted : LcpOptions
wanted = record {
  neg_mru = true;
  neg_asyncmap = true;
  neg_upap = true;
  neg_chap = true;
  neg_eap = false;
  neg_magicnumber = true;
  neg_pcompression = true;
  neg_accompression = true;
  neg_lqr = false;
  neg_cbcp = false;
  neg_mrru = false;
  neg_ssnhf = false;
  neg_endpoint = true;
  mru = 1492;
  mrru = 0;
  chap_mdtype = 4;
  asyncmap = 0;
  magicnumber = 0x01020304;
  lqr_period = 0;
  endpoint = record { class = 3; value = 10 ∷ 11 ∷ 12 ∷ 13 ∷ 14 ∷ 15 ∷ [] };
}

abbrev request : List ℕ
request =
    1 ∷ 4 ∷ 5 ∷ 212 ∷ 2 ∷ 6 ∷ 0 ∷ 0 ∷ 0 ∷ 0 ∷ 3 ∷ 5 ∷ 0xc2 ∷ 0x23 ∷ 5 ∷ 5 ∷ 6 ∷ 1 ∷ 2 ∷ 3 ∷ 4 ∷ 7
    ∷ 2 ∷ 8 ∷ 2 ∷ 19 ∷ 9 ∷ 3 ∷ 10 ∷ 11 ∷ 12 ∷ 13 ∷ 14 ∷ 15 ∷ []

addci_wanted : addci wanted ≡ request
unfolding addci add_all chap_digest
addci_wanted = refl

ackci_dropped : ackci wanted (1 ∷ 4 ∷ 5 ∷ 212 ∷ []) ≡ false
unfolding ackci ack_all ack_form
ackci_dropped = refl

wanted-IsSane : IsSane wanted
wanted-IsSane = record {
  mru = omega arith;
  mrru = omega arith;
  asyncmap = omega arith;
  magicnumber = omega arith;
  lqr_period = omega arith;
  class = omega arith;
  length_value = omega arith;
}

ackci_iff_addci_example :
    (ackci wanted (1 ∷ 4 ∷ 5 ∷ 212 ∷ []) ≡ true) ↔ (1 ∷ 4 ∷ 5 ∷ 212 ∷ [] ≡ addci wanted)
ackci_iff_addci_example =
    ackci_iff_addci wanted (1 ∷ 4 ∷ 5 ∷ 212 ∷ []) wanted-IsSane
      (omega arith, (omega arith, (omega arith, (omega arith, tt))))

-- The peer wants no compression of the two header fields.
abbrev rejection : List ℕ
rejection = 7 ∷ 2 ∷ 8 ∷ 2 ∷ []

rejection_good : (rejci false wanted rejection).0 ≡ true
unfolding rejci rej_all rej_form match_value
rejection_good = refl

rejection_settled :
    (rejci false wanted rejection).1
    ≡ (let w = wanted in record w { neg_pcompression = false; neg_accompression = false })
unfolding rejci rej_all rej_form match_value clear
rejection_settled = refl

-- Then it wants no magic number.
magic_rejected :
    (rejci false (rejci false wanted rejection).1 (5 ∷ 6 ∷ put_long wanted.magicnumber [])).0 ≡ true
unfolding rejci rej_all rej_form match_value clear
magic_rejected = refl

rejects_end_example :
    let ps = rejection ∷ (5 ∷ 6 ∷ put_long wanted.magicnumber []) ∷ [] in
    (2 + on_count (after_all wanted ps) ≤ on_count wanted) × (2 ≤ 13)
rejects_end_example =
    rejects_end wanted (rejection ∷ (5 ∷ 6 ∷ put_long wanted.magicnumber []) ∷ [])
      (omega arith, (rejection_good, (omega arith, (magic_rejected, tt))))

-- A Nak that suggests another digest, a smaller MRU and short sequence numbers.
abbrev nak : List ℕ
nak = 1 ∷ 4 ∷ 4 ∷ 176 ∷ 3 ∷ 5 ∷ 0xc2 ∷ 0x23 ∷ 0x81 ∷ 18 ∷ 2 ∷ []

nak_taken : (nakci 7 10 false false wanted wanted 3 nak) ≡ record {
  good = true;
  options = record wanted { mru = 1200; neg_chap = false; chap_mdtype = 0; neg_ssnhf = true };
  numloops = 0;
  closes = false;
}
unfolding nakci nak_rest nakci_if option_at nak_mru instead instead_chap digest_differs nak_endpoint
    is_bad adopt chap_candigest next_digest and_not chap_mdtype
nak_taken = refl

-- MD5 is asked for, and the mask loses MS-CHAPv2 when MD5 is refused.
same_again : (next_digest (record wanted { chap_mdtype = 5 })).chap_mdtype ≡ 4
unfolding next_digest and_not chap_mdtype
same_again = refl

nakci-Conceded_example :
    Conceded 0x81 3 wanted wanted (nakci 7 10 false false wanted wanted 3 nak).options
nakci-Conceded_example = nakci-Conceded 0x81 3 wanted wanted 7 10 false false 3 nak (omega arith)

own_digest_accepted_example :
    nakci 7 10 false false wanted wanted 3 (suggestion (chap_digest 4)) ≡ record {
      good = true;
      options = record wanted { chap_mdtype = chap_mdtype_d (chap_digest 4) };
      numloops = 0;
      closes = false;
    }
own_digest_accepted_example =
    own_digest_accepted 7 10 false wanted wanted 3 refl refl (omega arith) (omega arith)

rejci-Chosen_example :
    (sent_bytes (own_table wanted) ≡ addci wanted)
    × Chosen (own_table wanted) rejection wanted (rejci false wanted rejection).1
rejci-Chosen_example =
    rejci-Chosen wanted rejection (omega arith, (omega arith, (omega arith, (omega arith, tt))))
      rejection_good

-- A protocol on pppd/fsm.c without options of its own, in the state `opened`.
abbrev bare : Callbacks (Echo ℕ)
bare = record {
  peer_mru = λ c. 1500;
  resetci = none;
  cilen = none;
  addci = none;
  ackci = none;
  nakci = none;
  rejci = none;
  reqci = none;
  up = none;
  down = none;
  starting = none;
  finished = none;
  retransmit = none;
  extcode = none;
}

abbrev at_start : World (Echo ℕ)
at_start = record {
  fsm = record {
    protocol = 0xc021;
    state = opened;
    flags = 0;
    id = 1;
    reqid = 1;
    seen_ack = true;
    timeouttime = 3;
    maxconfreqtransmits = pos 10;
    retransmits = pos 9;
    maxtermtransmits = pos 2;
    nakloops = 0;
    rnakloops = 0;
    maxnakloops = pos 5;
    term_reason = [];
  };
  timers = 0;
  sent = [];
  client = record {
    pending = 0;
    number = 0;
    running = true;
    timers = 1;
    last_pkts_in = 0;
    other = 7;
  };
}

abbrev twice : Settings
twice = record { fails = 2; interval = 30; adaptive = false }

abbrev our_options : ℕ → LcpOptions
our_options n = wanted

at_start-Waits : Waits bare (λ n. n) (λ n. n) our_options (λ n. none) twice [] 0 7 at_start
at_start-Waits = record {
  open' = refl;
  pending = refl;
  running = refl;
  timed = omega arith;
  same = refl;
  terminates = refl;
  in_time = refl;
}

silence_closes_example :
    Waits bare
      (λ n. n)
      (λ n. n)
      our_options
      (λ n. none)
      twice
      []
      2
      7
      (silence bare (λ n. n) (λ n. n) our_options (λ n. none) twice [] 2 at_start)
    × ((silence bare (λ n. n) (λ n. n) our_options (λ n. none) twice [] 2 at_start).sent
        ≡ with_requests 0xc021 (our_options 7).magicnumber 2 0 [])
    × ((silence bare (λ n. n) (λ n. n) our_options (λ n. none) twice [] 3 at_start).fsm.state
        ≡ closing)
silence_closes_example =
    silence_closes bare (λ n. n) (λ n. n) our_options (λ n. none) twice [] 7 at_start
      (λ c. omega arith) refl (omega arith) at_start-Waits

abbrev two_rounds : List (ℕ × List ℕ)
two_rounds = (2, 9 ∷ 9 ∷ 9 ∷ 9 ∷ []) ∷ (1, 0 ∷ 0 ∷ 0 ∷ 0 ∷ []) ∷ []

replies-Waits_example :
    Waits bare
      (λ n. n)
      (λ n. n)
      our_options
      (λ n. none)
      twice
      []
      0
      7
      (replies bare (λ n. n) (λ n. n) our_options (λ n. none) twice [] two_rounds at_start)
unfolding is_answer
replies-Waits_example =
    replies-Waits bare (λ n. n) (λ n. n) our_options (λ n. none) twice [] 7 two_rounds at_start refl
      (omega arith, (refl, (omega arith, (refl, tt)))) at_start-Waits
