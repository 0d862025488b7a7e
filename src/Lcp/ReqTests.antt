-- ===== src/Lcp/ReqTests.antt =====
-- Configure-Requests of a peer, and the theorems on `lcp_reqci` at them.
use ppp.Prelude.{ℕ, ◌*◌, ◌≤◌, ◌≡◌, refl, true, false, List, [], ◌∷◌, length, arith}
use ppp.Lcp.Options.{LcpOptions}
use ppp.Lcp.Request.{addci, chap_digest}
use ppp.Lcp.Agreement.{IsSane}
use ppp.Lcp.Nak.{zeroed, and_not, chap_candigest}
use ppp.Lcp.Req.{ack, nak, check_pap, hint_chap}
use ppp.Lcp.Reqci.{Policy, reqci}
use ppp.Lcp.Granted.{Granted, reqci-Granted}
use ppp.Lcp.Answer.{paps, length-reqci, reqci-pap_flood}
use ppp.Lcp.Offers.{Allows, remembered}
use ppp.Lcp.Understood.{reqci-addci}

-- We allow CHAP with MD5, a character map, an MRU and a magic number.
abbrev allowed : LcpOptions
allowed = record zeroed {
  neg_mru = true;
  neg_asyncmap = true;
  neg_chap = true;
  neg_magicnumber = true;
  neg_pcompression = true;
  neg_accompression = true;
  neg_endpoint = true;
  chap_mdtype = 4;
}

abbrev ours : Policy
ours = record {
  ao = allowed;
  go = record zeroed { neg_magicnumber = true; magicnumber = 7 };
  multilink = false;
  tough = false;
  magic = λ left. left;
}

-- An MRU of 64, PAP, and an option that there is not.
abbrev bad_request : List ℕ
bad_request = 1 ∷ 4 ∷ 0 ∷ 64 ∷ 3 ∷ 4 ∷ 0xc0 ∷ 0x23 ∷ 5 ∷ 6 ∷ 0 ∷ 0 ∷ 0 ∷ 9 ∷ []

bad_request_nak : (reqci ours bad_request).packet ≡ 1 ∷ 4 ∷ 0 ∷ 128 ∷ 3 ∷ 5 ∷ 0xc2 ∷ 0x23 ∷ 5 ∷ []
unfolding reqci check_pap hint_chap chap_digest
bad_request_nak = refl

bad_request_number : (reqci ours bad_request).ho.magicnumber ≡ 9
unfolding reqci
bad_request_number = refl

-- The same with an unknown option in front: it alone is sent back.
unknown_rejected : (reqci ours (99 ∷ 3 ∷ 1 ∷ bad_request)).packet ≡ 99 ∷ 3 ∷ 1 ∷ []
unfolding reqci check_pap hint_chap chap_digest
unknown_rejected = refl

-- Our own magic number is nak'd with a new one, even when we reject whatever we disagree with.
own_magic : (reqci (record ours { tough = true }) (5 ∷ 6 ∷ 0 ∷ 0 ∷ 0 ∷ 7 ∷ [])).rc ≡ nak
unfolding reqci
own_magic = refl

reqci-Granted_example : Granted ours (reqci ours bad_request).ho
reqci-Granted_example = reqci-Granted ours bad_request

length-reqci_example : 4 * length (reqci ours bad_request).packet ≤ 5 * length bad_request
length-reqci_example = length-reqci ours bad_request

reqci-pap_flood_example :
    (length (paps 374) ≡ 4 * 374) × (length (reqci ours (paps 374)).packet ≡ 5 * 374)
reqci-pap_flood_example = reqci-pap_flood ours refl refl refl refl 374

abbrev theirs : LcpOptions
theirs = record zeroed {
  neg_mru = true;
  neg_asyncmap = true;
  neg_chap = true;
  neg_magicnumber = true;
  neg_endpoint = true;
  mru = 1492;
  asyncmap = 0;
  chap_mdtype = 4;
  magicnumber = 9;
  endpoint = record { class = 3; value = 10 ∷ 11 ∷ 12 ∷ 13 ∷ 14 ∷ 15 ∷ [] };
}

theirs-IsSane : IsSane theirs
theirs-IsSane = record {
  mru = omega arith;
  mrru = omega arith;
  asyncmap = omega arith;
  magicnumber = omega arith;
  lqr_period = omega arith;
  class = omega arith;
  length_value = omega arith;
}

ours-Allows : Allows ours theirs
unfolding and_not chap_candigest chap_digest
ours-Allows = record {
  mru = λ on. refl;
  mru_value = omega arith;
  asyncmap = λ on. refl;
  map = refl;
  upap = λ on. on;
  chap = λ on. refl;
  digest = refl;
  eap = λ on. on;
  lqr = λ on. on;
  cbcp = refl;
  magicnumber = λ on. refl;
  no_loop = refl;
  pcompression = λ on. refl;
  accompression = λ on. refl;
  mrru = λ on. on;
  ssnhf = λ on. on;
  multilink = λ on. on;
  endpoint = λ on. refl;
  length_value = omega arith;
}

reqci-addci_example :
    reqci ours (addci theirs) ≡ record { rc = ack; packet = addci theirs; ho = remembered theirs }
reqci-addci_example = reqci-addci ours theirs ours-Allows theirs-IsSane
