-- ===== src/Lcp/Nak.antt =====
-- pppd/lcp.c: `lcp_nakci`, the known options of a Configure-Nak, in our request's order.
use ppp.Prelude.{
  ℕ, ◌+◌, ◌-◌, ◌*◌, Bool, true, false, not, ◌&&◌, ◌||◌, Option, none, some, List, [], ◌∷◌, length,
  take, drop, leb, ◌==◌, if◌then◌else◌, bit_and, bit_or, bit_xor,
}
use ppp.Lcp.Options.{LcpOptions, ppp_lqr}

-- The macros `CHAP_MDTYPE`, `CHAP_MDTYPE_D` and `CHAP_CANDIGEST` of chap.h.
unfoldable pub chap_mdtype : ℕ → ℕ
chap_mdtype mdtype = bit_and (bit_xor mdtype (mdtype - 1)) mdtype

unfoldable pub chap_mdtype_d : ℕ → ℕ
chap_mdtype_d digest =
    if digest == 0x81 then 1 else if digest == 0x80 then 2 else if digest == 5 then 4 else 0

unfoldable pub chap_candigest : ℕ → ℕ → Bool
chap_candigest mdtype digest =
    if digest == 0x81
    then not (bit_and mdtype 1 == 0)
    else if digest == 0x80
    then not (bit_and mdtype 2 == 0)
    else if digest == 5
    then not (bit_and mdtype 4 == 0)
    else false

-- The test `cichar != CHAP_DIGEST(mdtype)`, as the compiler reads it: the macro has no parentheses
-- around it, and so `!=` binds its first operand only.
unfoldable pub digest_differs : ℕ → ℕ → Bool
digest_differs cichar mdtype =
    if not (cichar == bit_and mdtype 4)
    then true
    else if not (bit_and mdtype 1 == 0)
    then true
    else if not (bit_and mdtype 2 == 0)
    then true
    else false

-- `t &= ~m`.
unfoldable pub and_not : ℕ → ℕ → ℕ
and_not t m = bit_xor t (bit_and t m)

-- The variables of `lcp_nakci`: the options with a Nak so far, those to ask for next, the mark of a
-- looped-back line, and the packet that is left.
pub record Nak : Type 0 where
  pub seen : LcpOptions
  pub try : LcpOptions
  pub looped_back : Bool
  pub rest : List ℕ

-- `no` after its `BZERO`, here `seen`.
abbrev pub zeroed : LcpOptions
zeroed = record {
  neg_mru = false;
  neg_asyncmap = false;
  neg_upap = false;
  neg_chap = false;
  neg_eap = false;
  neg_magicnumber = false;
  neg_pcompression = false;
  neg_accompression = false;
  neg_lqr = false;
  neg_cbcp = false;
  neg_mrru = false;
  neg_ssnhf = false;
  neg_endpoint = false;
  mru = 0;
  mrru = 0;
  chap_mdtype = 0;
  asyncmap = 0;
  magicnumber = 0;
  lqr_period = 0;
  endpoint = record { class = 0; value = [] };
}

-- `GETSHORT` and `GETLONG`.
abbrev pub short_of : List ℕ → ℕ
short_of (hi ∷ lo ∷ p) = hi * 256 + lo
short_of _ = 0

abbrev pub long_of : List ℕ → ℕ
long_of (b3 ∷ b2 ∷ b1 ∷ b0 ∷ p) = b3 * 16777216 + b2 * 65536 + b1 * 256 + b0
long_of _ = 0

-- The value of an option of `n` bytes, if the packet goes on with it.
unfoldable pub option_at : ℕ → ℕ → List ℕ → Option (List ℕ)
option_at opt n (t ∷ l ∷ p) =
    if leb n (length p + 2) && l == n && t == opt then some (take (n - 2) p) else none
option_at opt n _ = none

abbrev pub on_value : Option (List ℕ) → Nak → (List ℕ → Nak) → Nak
on_value none s code = s
on_value (some v) s code = code v

-- The macros `NAKCI…`: `code` gets the value, and the packet behind it.
unfoldable pub nakci_if : Bool → ℕ → ℕ → (List ℕ → Nak → Nak) → Nak → Nak
nakci_if neg opt n code s =
    if neg
    then on_value (option_at opt n s.rest) s (λ v. code v (record s { rest = drop n s.rest }))
    else s

-- The bodies of the uses of the macros.
unfoldable pub nak_mru : LcpOptions → List ℕ → Nak → Nak
nak_mru wo v s =
    let seen = s.seen in
    let t = s.try in
    let cishort = short_of v in
    record s {
      seen = record seen { neg_mru = true };
      try = if leb cishort wo.mru || leb cishort 1500 then record t { mru = cishort } else t;
    }

unfoldable pub nak_asyncmap : LcpOptions → List ℕ → Nak → Nak
nak_asyncmap go v s =
    let seen = s.seen in
    let t = s.try in
    record s {
      seen = record seen { neg_asyncmap = true };
      try = record t { asyncmap = bit_or go.asyncmap (long_of v) };
    }

unfoldable pub nak_lqr : List ℕ → Nak → Nak
nak_lqr v s =
    let seen = s.seen in
    let t = s.try in
    record s {
      seen = record seen { neg_lqr = true };
      try =
          if not (short_of v == ppp_lqr)
          then record t { neg_lqr = false }
          else record t { lqr_period = long_of (drop 2 v) };
    }

unfoldable pub nak_cbcp : List ℕ → Nak → Nak
nak_cbcp v s =
    let seen = s.seen in
    let t = s.try in
    record s { seen = record seen { neg_cbcp = true }; try = record t { neg_cbcp = false } }

-- `magic` is what the random generator gives.
unfoldable pub nak_magic : ℕ → List ℕ → Nak → Nak
nak_magic magic v s =
    let seen = s.seen in
    let t = s.try in
    record s {
      seen = record seen { neg_magicnumber = true };
      try = record t { magicnumber = magic };
      looped_back = true;
    }

unfoldable pub nak_pcompression : List ℕ → Nak → Nak
nak_pcompression v s =
    let seen = s.seen in
    let t = s.try in
    record s {
      seen = record seen { neg_pcompression = true };
      try = record t { neg_pcompression = false };
    }

unfoldable pub nak_accompression : List ℕ → Nak → Nak
nak_accompression v s =
    let seen = s.seen in
    let t = s.try in
    record s {
      seen = record seen { neg_accompression = true };
      try = record t { neg_accompression = false };
    }

unfoldable pub nak_mrru : Bool → LcpOptions → List ℕ → Nak → Nak
nak_mrru treat_as_reject wo v s =
    let seen = s.seen in
    let t = s.try in
    let cishort = short_of v in
    record s {
      seen = record seen { neg_mrru = true };
      try =
          if treat_as_reject
          then record t { neg_mrru = false }
          else if leb cishort wo.mrru
          then record t { mrru = cishort }
          else t;
    }

unfoldable pub nak_ssnhf : List ℕ → Nak → Nak
nak_ssnhf v s =
    let seen = s.seen in
    let t = s.try in
    record s { seen = record seen { neg_ssnhf = true }; try = record t { neg_ssnhf = false } }

-- The macro `NAKCIENDP`, under its condition on the option.
unfoldable pub nak_endpoint : LcpOptions → Nak → List ℕ → Nak
nak_endpoint go s (t ∷ l ∷ c ∷ p) =
    let seen = s.seen in
    let y = s.try in
    if go.neg_endpoint && t == 19 && leb 3 l && leb l (length p + 3)
    then record s {
      seen = record seen { neg_endpoint = true };
      try = record y { neg_endpoint = false };
      rest = drop l s.rest;
    }
    else s
nak_endpoint go s _ = s
