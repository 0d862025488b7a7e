-- ===== src/Lcp/Reqci.antt =====
-- pppd/lcp.c: `lcp_reqci`, the loop over the options of the peer's Configure-Request.
use ppp.Prelude.{
  ℕ, zero, suc, ◌+◌, ◌-◌, Bool, true, false, not, ◌&&◌, ◌||◌, List, [], ◌∷◌, ◌++◌, length, take,
  ltb, ◌==◌, if◌then◌else◌,
}
use ppp.Lcp.Options.{LcpOptions}
use ppp.Lcp.Nak.{zeroed}
use ppp.Lcp.Req.{
  Verdict, ack, nak, rej, Checked, rejects, check_mru, check_asyncmap, check_auth, check_lqr,
  check_magic, check_pcompression, check_accompression, check_mrru, check_ssnhf, check_endpoint,
}

-- What `lcp_reqci` reads: the options that we allow, ours, whether `multilink` is set,
-- `reject_if_disagree`, and the numbers that `magic()` gives, by the bytes that are left.
pub record Policy : Type 0 where
  pub ao : LcpOptions
  pub go : LcpOptions
  pub multilink : Bool
  pub tough : Bool
  pub magic : ℕ → ℕ

-- The variables of the loop: `rc`, the peer's options, the Nak buffer, and the rejected options.
pub record Req : Type 0 where
  pub rc : Verdict
  pub ho : LcpOptions
  pub hints : List ℕ
  pub rejected : List ℕ

-- The `switch`; `left` is the number of bytes behind the option's header.
unfoldable pub check_ci : Policy → ℕ → ℕ → ℕ → List ℕ → LcpOptions → Checked
unfolding check_mru check_asyncmap check_auth check_lqr check_magic check_pcompression
    check_accompression check_mrru check_ssnhf check_endpoint
check_ci c left citype cilen v ho =
    if citype == 1
    then check_mru c.ao cilen v ho
    else if citype == 2
    then check_asyncmap c.ao cilen v ho
    else if citype == 3
    then check_auth c.ao cilen v ho
    else if citype == 4
    then check_lqr c.ao cilen v ho
    else if citype == 5
    then check_magic c.ao c.go (c.magic left) cilen v ho
    else if citype == 7
    then check_pcompression c.ao cilen ho
    else if citype == 8
    then check_accompression c.ao cilen ho
    else if citype == 17
    then check_mrru c.ao c.multilink cilen v ho
    else if citype == 18
    then check_ssnhf c.ao c.multilink cilen ho
    else if citype == 19
    then check_endpoint c.ao cilen v ho
    else rejects ho

abbrev pub is_ack : Verdict → Bool
is_ack ack = true
is_ack _ = false

abbrev pub is_rej : Verdict → Bool
is_rej rej = true
is_rej _ = false

-- A rejected option is moved to the end of the rejected ones.
abbrev pub reject : List ℕ → Req → Req
reject option s = record s { rc = rej; rejected = s.rejected ++ option }

-- Behind the `switch`, by `orc`.
abbrev pub tally : Policy → ℕ → List ℕ → Verdict → Req → Req
tally c citype option ack s = s
tally c citype option nak s =
    if c.tough && not (citype == 5)
    then reject option s
    else if is_rej s.rc
    then s
    else record s { rc = nak }
tally c citype option rej s = reject option s

-- One round of the loop, on an option with its value.
unfoldable pub round_ci : Policy → ℕ → ℕ → ℕ → List ℕ → Req → Req
unfolding check_ci
round_ci c left citype cilen v s =
    let k = check_ci c left citype cilen v s.ho in
    tally c citype (citype ∷ cilen ∷ v) k.orc (record s { ho = k.ho; hints = s.hints ++ k.hint })

-- The loop; the first argument counts the bytes of the last option that are still to be passed
-- over. The value of an option is read from the rest of the packet.
unfoldable pub req_all : Policy → ℕ → List ℕ → Req → Req
unfolding round_ci
req_all c passed [] s = s
req_all c (suc passed) (b ∷ p) s = req_all c passed p s
req_all c zero (b ∷ []) s = reject (b ∷ []) s
req_all c zero (citype ∷ cilen ∷ p) s =
    let v = take (cilen - 2) p in
    let rest = req_all c (cilen - 2) p (round_ci c (length p) citype cilen v s) in
    if ltb cilen 2 || ltb (length p + 2) cilen then reject (citype ∷ cilen ∷ p) s else rest

-- What is returned and left: the code, the packet, and `lcp_hisoptions`.
pub record Reqd : Type 0 where
  pub rc : Verdict
  pub packet : List ℕ
  pub ho : LcpOptions

abbrev pub packet_for : Verdict → List ℕ → Req → List ℕ
packet_for ack p s = p
packet_for nak p s = s.hints
packet_for rej p s = s.rejected

-- `lcp_reqci`.
unfoldable pub reqci : Policy → List ℕ → Reqd
unfolding req_all
reqci c p =
    let s = req_all c 0 p (record { rc = ack; ho = zeroed; hints = []; rejected = [] }) in
    record { rc = s.rc; packet = packet_for s.rc p s; ho = s.ho }
