-- ===== src/Auth/AddressTests.antt =====
-- A resolver for one host, and the theorems on addresses at it.
use ppp.Prelude.{
  ℕ, ◌-◌, ◌≡◌, ◌≢◌, refl, pos, true, false, none, some, List, [], ◌∷◌, ◌==◌, arith, bit_and,
  drop_bits,
}
use ppp.Auth.Addresses.{
  PermittedIp, Resolver, mask_of, entry_for, permitted, cut_slash, ip_addr_check, AddressPolicy,
  auth_ip_addr, set_allowed_addrs,
}
use ppp.Auth.Access.{ip_addr_check-permitted, entry_for-matches, set_allowed_addrs-forbidden}

-- The name `h` is 10.0.0.7, and every length is 24.
abbrev resolver : Resolver
resolver = record {
  gethostbyname = λ name. some 0x0a000007;
  getnetbyname = λ name. none;
  inet_addr = λ name. 0xffffffff;
  strtol = λ p. (pos 24, []);
}

abbrev policy : AddressPolicy
policy = record {
  hook = none;
  auth_required = true;
  allow_any_ip = false;
  privileged = false;
  have_route_to = λ addr. false;
}

-- `h/24`
abbrev words : List (List ℕ)
words = (104 ∷ 0x2f ∷ 50 ∷ 52 ∷ []) ∷ []

net_made :
    permitted resolver 0 words
    ≡ record { permit = true; base = 0x0a000000; mask = 0xffffff00 }
      ∷ record { permit = false; base = 0; mask = 0 }
      ∷ []
unfolding permitted
net_made = refl

inside : auth_ip_addr policy (some (permitted resolver 0 words)) 0x0a0000c8 ≡ true
unfolding auth_ip_addr permitted
inside = refl

outside : auth_ip_addr policy (some (permitted resolver 0 words)) 0x0a0001c8 ≡ false
unfolding auth_ip_addr permitted
outside = refl

loopback : auth_ip_addr policy (some (permitted resolver 0 ((0x2a ∷ []) ∷ []))) 0x7f000001 ≡ false
unfolding auth_ip_addr
loopback = refl

ip_addr_check-permitted_example : ip_addr_check 0x0a0001c8 (permitted resolver 0 words) ≢ none
ip_addr_check-permitted_example = ip_addr_check-permitted resolver 0 words 0x0a0001c8

abbrev net : PermittedIp
net = record { permit = true; base = 0x0a000000; mask = 0xffffff00 }

net_entry : entry_for true 0x0a000007 (mask_of 24) 0 ≡ some net
unfolding entry_for mask_of
net_entry = refl

entry_for-matches_example :
    (true ≡ true)
    × ((bit_and 0x0a0000c8 0xffffff00 == 0x0a000000)
        ≡ (drop_bits (32 - 24) 0x0a0000c8 == drop_bits (32 - 24) 0x0a000007))
entry_for-matches_example =
    entry_for-matches true 24 0x0a000007 0x0a0000c8 net (omega arith) (omega arith) (omega arith)
      net_entry

plain : cut_slash (104 ∷ []) ≡ (104 ∷ [], none)
unfolding cut_slash
plain = refl

set_allowed_addrs-forbidden_example :
    ((set_allowed_addrs resolver 0 policy ((0x21 ∷ 104 ∷ []) ∷ words) 0 false).hisaddr ≡ 0x0a000007)
    × (auth_ip_addr policy
          (set_allowed_addrs resolver 0 policy ((0x21 ∷ 104 ∷ []) ∷ words) 0 false).addresses
          0x0a000007
        ≡ false)
set_allowed_addrs-forbidden_example =
    set_allowed_addrs-forbidden resolver 0 0x0a000007 policy (104 ∷ []) words false plain refl
      (omega arith) (omega arith) refl
