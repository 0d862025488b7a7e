-- ===== src/Lcp/Options.antt =====
-- pppd/lcp.h: `lcp_options`, and the forms of the options that the macros of lcp.c write and read.
use ppp.Prelude.{
  ℕ, ◌+◌, ◌*◌, ◌/◌, ◌%◌, Bool, ◌&&◌, Option, none, some, List, [], ◌∷◌, ◌++◌, length, ◌==◌,
  if◌then◌else◌,
}

-- `struct epdisc`: the class, and as many bytes of the value as its length says.
pub record Epdisc : Type 0 where
  pub class : ℕ
  pub value : List ℕ

-- The fields of `lcp_options` that a Configure-Request is made from.
pub record LcpOptions : Type 0 where
  pub neg_mru : Bool
  pub neg_asyncmap : Bool
  pub neg_upap : Bool
  pub neg_chap : Bool
  pub neg_eap : Bool
  pub neg_magicnumber : Bool
  pub neg_pcompression : Bool
  pub neg_accompression : Bool
  pub neg_lqr : Bool
  pub neg_cbcp : Bool
  pub neg_mrru : Bool
  pub neg_ssnhf : Bool
  pub neg_endpoint : Bool
  pub mru : ℕ
  pub mrru : ℕ
  pub chap_mdtype : ℕ
  pub asyncmap : ℕ
  pub magicnumber : ℕ
  pub lqr_period : ℕ
  pub endpoint : Epdisc

-- The forms of an option, one for each of the macros' kinds, with the values that it carries.
pub data Form : Type 0 where
  void : Form
  short chap long lqr char : ℕ → Form
  endp : ℕ → List ℕ → Form

-- An option that is asked for if the condition holds.
pub record Ci : Type 0 where
  pub opt : ℕ
  pub neg : Bool
  pub form : Form

abbrev pub ci : ℕ → Bool → Form → Ci
ci opt neg form = record { opt = opt; neg = neg; form = form }

abbrev pub ppp_chap : ℕ
ppp_chap = 0xc223

abbrev pub ppp_lqr : ℕ
ppp_lqr = 0xc025

-- `PUTSHORT` and `PUTLONG`.
abbrev pub put_short : ℕ → List ℕ → List ℕ
put_short v rest = (v / 256 % 256) ∷ (v % 256) ∷ rest

abbrev pub put_long : ℕ → List ℕ → List ℕ
put_long v rest = (v / 16777216 % 256) ∷ (v / 65536 % 256) ∷ (v / 256 % 256) ∷ (v % 256) ∷ rest

-- The macros `LENCI…`, under a condition that holds.
abbrev pub form_len : Form → ℕ
form_len void = 2
form_len (short v) = 4
form_len (chap v) = 5
form_len (long v) = 6
form_len (lqr v) = 8
form_len (char v) = 3
form_len (endp class value) = 3 + length value

-- The macros `ADDCI…`, under a condition that holds, in front of the rest of the packet.
abbrev pub add_form : ℕ → Form → List ℕ → List ℕ
add_form opt void rest = opt ∷ 2 ∷ rest
add_form opt (short v) rest = opt ∷ 4 ∷ put_short v rest
add_form opt (chap v) rest = opt ∷ 5 ∷ put_short ppp_chap ((v % 256) ∷ rest)
add_form opt (long v) rest = opt ∷ 6 ∷ put_long v rest
add_form opt (lqr v) rest = opt ∷ 8 ∷ put_short ppp_lqr (put_long v rest)
add_form opt (char v) rest = opt ∷ 3 ∷ (v % 256) ∷ rest
add_form opt (endp class value) rest =
    opt ∷ ((3 + length value) % 256) ∷ (class % 256) ∷ (value ++ rest)

-- The loop of `ACKCIENDP` over the bytes of the discriminator.
abbrev pub ack_bytes : List ℕ → List ℕ → Option (List ℕ)
ack_bytes [] p = some p
ack_bytes (v ∷ vs) [] = none
ack_bytes (v ∷ vs) (b ∷ p) = if b == v then ack_bytes vs p else none

-- The macros `ACKCI…`, under a condition that holds: the rest of the packet behind the option, or
-- `none` for a jump to `bad`.
unfoldable pub ack_form : ℕ → Form → List ℕ → Option (List ℕ)
ack_form opt void (t ∷ l ∷ p) = if l == 2 && t == opt then some p else none
ack_form opt (short v) (t ∷ l ∷ hi ∷ lo ∷ p) =
    if l == 4 && t == opt && hi * 256 + lo == v then some p else none
ack_form opt (chap v) (t ∷ l ∷ hi ∷ lo ∷ d ∷ p) =
    if l == 5 && t == opt && hi * 256 + lo == ppp_chap && d == v then some p else none
ack_form opt (long v) (t ∷ l ∷ b3 ∷ b2 ∷ b1 ∷ b0 ∷ p) =
    if l == 6 && t == opt && b3 * 16777216 + b2 * 65536 + b1 * 256 + b0 == v then some p else none
ack_form opt (lqr v) (t ∷ l ∷ hi ∷ lo ∷ b3 ∷ b2 ∷ b1 ∷ b0 ∷ p) =
    if l == 8
      && t == opt
      && hi * 256 + lo == ppp_lqr
      && b3 * 16777216 + b2 * 65536 + b1 * 256 + b0 == v
    then some p
    else none
ack_form opt (char v) (t ∷ l ∷ c ∷ p) = if l == 3 && t == opt && c == v then some p else none
ack_form opt (endp class value) (t ∷ l ∷ c ∷ p) =
    if l == 3 + length value && t == opt && c == class then ack_bytes value p else none
ack_form opt _ _ = none
