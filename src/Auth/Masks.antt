-- ===== src/Auth/Masks.antt =====
-- pppd/auth.c: the bits of `auth_pending`, and the reports that clear them.
use ppp.Prelude.{
  if-both, ℕ, ◌≡◌, refl, Bool, true, false, not, ◌&&◌, Option, none, some, ◌==◌, if◌then◌else◌,
  bit_or, arith, eq_of_==,
}
use ppp.Lcp.Options.{LcpOptions, ppp_chap}
use ppp.Lcp.Req.{ppp_pap, ppp_eap}
use ppp.Lcp.Nak.{and_not}
use ppp.Auth.Established.{pap_withpeer, pap_peer, chap_withpeer, chap_peer, eap_withpeer, eap_peer}
use ppp.Auth.Reports.{chap_peer_bits, chap_withpeer_bits, withpeer_bits}

pub data Method : Type 0 where
  pap chap eap : Method

-- The method that LCP has agreed on.
abbrev pub agreed : LcpOptions → Option Method
agreed o =
    if o.neg_eap
    then some eap
    else if o.neg_chap
    then some chap
    else if o.neg_upap
    then some pap
    else none

abbrev pub peer_bit : Option Method → ℕ
peer_bit none = 0
peer_bit (some pap) = pap_peer
peer_bit (some chap) = chap_peer
peer_bit (some eap) = eap_peer

abbrev pub withpeer_bit : Option Method → ℕ
withpeer_bit none = 0
withpeer_bit (some pap) = pap_withpeer
withpeer_bit (some chap) = chap_withpeer
withpeer_bit (some eap) = eap_withpeer

-- What is pending: the peer's method and ours.
abbrev pub mask : Option Method → Option Method → ℕ
mask a b = bit_or (peer_bit a) (withpeer_bit b)

-- A report for the protocol `p` clears its method.
abbrev pub protocol_of : Method → ℕ
protocol_of pap = ppp_pap
protocol_of chap = ppp_chap
protocol_of eap = ppp_eap

abbrev pub clear : ℕ → Option Method → Option Method
clear p none = none
clear p (some m) = if protocol_of m == p then none else some m

every_method : (Option Method → Bool) → Bool
every_method f = f none && f (some pap) && f (some chap) && f (some eap)

every_method-test :
    (f : Option Method → Bool) (a : Option Method) → every_method f ≡ true → f a ≡ true
unfolding every_method
every_method-test f none h = ground arith
every_method-test f (some pap) h = ground arith
every_method-test f (some chap) h = ground arith
every_method-test f (some eap) h = ground arith

-- The bits `bit` clear `p` for the peer, or for us.
abbrev clears_peer : ℕ → ℕ → Bool
clears_peer p bit =
    every_method (λ a. every_method (λ b. and_not (mask a b) bit == mask (clear p a) b))

abbrev clears_withpeer : ℕ → ℕ → Bool
clears_withpeer p bit =
    every_method (λ a. every_method (λ b. and_not (mask a b) bit == mask a (clear p b)))

peer_lem :
    (p bit : ℕ) (a b : Option Method)
    → clears_peer p bit ≡ true
    → and_not (mask a b) bit ≡ mask (clear p a) b
peer_lem p bit a b h = eq_of_== _ _ (
    every_method-test _ b (
      every_method-test (λ x. every_method (λ y. and_not (mask x y) bit == mask (clear p x) y)) a
        h))

withpeer_lem :
    (p bit : ℕ) (a b : Option Method)
    → clears_withpeer p bit ≡ true
    → and_not (mask a b) bit ≡ mask a (clear p b)
withpeer_lem p bit a b h = eq_of_== _ _ (
    every_method-test _ b (
      every_method-test (λ x. every_method (λ y. and_not (mask x y) bit == mask x (clear p y))) a
        h))

pub and_not-chap_peer :
    (flavor : ℕ) (a b : Option Method)
    → and_not (mask a b) (chap_peer_bits flavor) ≡ mask (clear ppp_chap a) b
unfolding and_not every_method
and_not-chap_peer flavor a b = peer_lem ppp_chap (chap_peer_bits flavor) a b (
    if-both (λ x. clears_peer ppp_chap x ≡ true) (flavor == 5) _ _ refl
      (if-both (λ x. clears_peer ppp_chap x ≡ true) (flavor == 0x80) _ _ refl
        (if-both (λ x. clears_peer ppp_chap x ≡ true) (flavor == 0x81) _ _ refl refl)))

pub and_not-pap_peer :
    (a b : Option Method) → and_not (mask a b) pap_peer ≡ mask (clear ppp_pap a) b
unfolding and_not every_method
and_not-pap_peer a b = peer_lem ppp_pap pap_peer a b refl

pub and_not-eap_peer :
    (a b : Option Method) → and_not (mask a b) eap_peer ≡ mask (clear ppp_eap a) b
unfolding and_not every_method
and_not-eap_peer a b = peer_lem ppp_eap eap_peer a b refl

chap_withpeer_lem :
    (flavor : ℕ) (a b : Option Method)
    → and_not (mask a b) (chap_withpeer_bits flavor) ≡ mask a (clear ppp_chap b)
unfolding and_not every_method
chap_withpeer_lem flavor a b = withpeer_lem ppp_chap (chap_withpeer_bits flavor) a b (
    if-both (λ x. clears_withpeer ppp_chap x ≡ true) (flavor == 5) _ _ refl
      (if-both (λ x. clears_withpeer ppp_chap x ≡ true) (flavor == 0x80) _ _ refl
        (if-both (λ x. clears_withpeer ppp_chap x ≡ true) (flavor == 0x81) _ _ refl refl)))

pap_withpeer_lem :
    (a b : Option Method) → and_not (mask a b) pap_withpeer ≡ mask a (clear ppp_pap b)
unfolding and_not every_method
pap_withpeer_lem a b = withpeer_lem ppp_pap pap_withpeer a b refl

eap_withpeer_lem :
    (a b : Option Method) → and_not (mask a b) eap_withpeer ≡ mask a (clear ppp_eap b)
unfolding and_not every_method
eap_withpeer_lem a b = withpeer_lem ppp_eap eap_withpeer a b refl

and_not_zero : (a b : Option Method) → and_not (mask a b) 0 ≡ mask a b
unfolding and_not every_method
and_not_zero a b = eq_of_== _ _ (
    every_method-test (λ y. and_not (mask a y) 0 == mask a y) b
      (every_method-test (λ x. every_method (λ y. and_not (mask x y) 0 == mask x y)) a refl))

-- A protocol that is none of the three clears nothing.
pub clear_unknown :
    (p : ℕ) (a : Option Method)
    → (p == ppp_chap) ≡ false
    → (p == ppp_pap) ≡ false
    → (p == ppp_eap) ≡ false
    → clear p a ≡ a
clear_unknown p none h k l = refl
clear_unknown p (some pap) h k l = ground arith
clear_unknown p (some chap) h k l = ground arith
clear_unknown p (some eap) h k l = ground arith

pub and_not-withpeer_bits :
    (p flavor : ℕ) (a b : Option Method)
    → and_not (mask a b) (withpeer_bits p flavor) ≡ mask a (clear p b)
and_not-withpeer_bits p flavor a b = ground (
  arith,
  chap_withpeer_lem flavor a b,
  pap_withpeer_lem a b,
  eap_withpeer_lem a b,
  and_not_zero a b,
  clear_unknown p b,
)

abbrev pub is_none : Option Method → Bool
is_none none = true
is_none (some m) = false

mask_table :
    every_method (λ a.
      every_method
        (λ b. if mask a b == 0 then is_none a && is_none b else not (is_none a && is_none b)))
    ≡ true
unfolding every_method
mask_table = refl

pub mask_zero : (a b : Option Method) → (mask a b == 0) ≡ (is_none a && is_none b)
mask_zero a b =
    let e =
      every_method-test
        (λ y. if mask a y == 0 then is_none a && is_none y else not (is_none a && is_none y)) b
        (every_method-test
          (λ x.
            every_method
              (λ y. if mask x y == 0 then is_none x && is_none y else not (is_none x && is_none y)))
          a mask_table) in
    ground (arith, e)
