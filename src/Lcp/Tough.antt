-- ===== src/Lcp/Tough.antt =====
-- `reject_if_disagree` of `lcp_reqci` of pppd/lcp.c.
use ppp.Prelude.{
  ℕ, ◌+◌, ◌≡◌, ◌≢◌, refl, Bool, true, false, List, [], ◌∷◌, ◌++◌, length, ◌==◌, arith, eq_of_==,
}
use ppp.Lcp.Options.{LcpOptions}
use ppp.Lcp.Nak.{zeroed}
use ppp.Lcp.Req.{Verdict, ack, nak, rej, check_magic}
use ppp.Lcp.Cases.{req_all-keeps}
use ppp.Lcp.Reqci.{Policy, Req, check_ci, tally, round_ci, reqci}

abbrev is_nak : Verdict → Bool
is_nak nak = true
is_nak _ = false

module _ (c : Policy) (tough : c.tough ≡ true) (quiet : c.go.neg_magicnumber ≡ false) where
  check_magic-quiet :
      (m l : ℕ) (v : List ℕ) (ho : LcpOptions) → is_nak (check_magic c.ao c.go m l v ho).orc ≡ false
  unfolding check_magic
  check_magic-quiet m l v ho = ground (arith, quiet)

  -- The Nak that is no reason to get tough is one for the magic number.
  check_ci-five :
      (left l : ℕ) (v : List ℕ) (ho : LcpOptions) → is_nak (check_ci c left 5 l v ho).orc ≡ false
  unfolding check_ci
  check_ci-five left l v ho = check_magic-quiet (c.magic left) l v ho

  tally-tough :
      (t : ℕ) (o : List ℕ) (r : Verdict) (s : Req)
      → is_nak s.rc ≡ false
      → ((t == 5) ≡ true → is_nak r ≡ false)
      → is_nak (tally c t o r s).rc ≡ false
  tally-tough t o ack s h k = h
  tally-tough t o nak s h k = ground (arith, tough)
  tally-tough t o rej s h k = refl

  round_ci-tough :
      (t l : ℕ) (v : List ℕ) (left n : ℕ) (s : Req)
      → l ≡ 2 + length v
      → is_nak s.rc ≡ false
      → is_nak (round_ci c left t l v s).rc ≡ false
  unfolding round_ci
  round_ci-tough t l v left n s e h =
      let k = check_ci c left t l v s.ho in
      tally-tough t (t ∷ l ∷ v) k.orc (record s { ho = k.ho; hints = s.hints ++ k.hint }) h
        (λ five. rw (eq_of_== t 5 five) (check_ci-five left l v s.ho))

  -- With `reject_if_disagree` set, and as long as we ask for no magic number ourselves,
  -- `lcp_reqci` answers no Configure-Request with a Nak.
  pub reqci-tough : (p : List ℕ) → (reqci c p).rc ≢ nak
  unfolding reqci
  reqci-tough p e =
      let start : Req = record { rc = ack; ho = zeroed; hints = []; rejected = [] } in
      let fine =
        req_all-keeps (λ n s. is_nak s.rc ≡ false) c round_ci-tough (λ q n s h. refl) 0 p start
          refl in
      cc
