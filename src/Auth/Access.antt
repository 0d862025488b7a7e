-- ===== src/Auth/Access.antt =====
-- pppd/auth.c: which addresses a peer gets.
use ppp.Prelude.{
  if-both, ℕ, zero, suc, ◌-◌, ◌*◌, ◌/◌, ◌^◌, ◌≤◌, ◌<◌, ◌≡◌, ◌≢◌, refl, sym, ap, ◌∙◌, Bool, true,
  false, Option, none, some, List, [], ◌∷◌, ltb, ◌==◌, arith, Bool-cases, inl, inr, bit_and,
  bit_and-zero, bit_and-shifted, bit_and-ones, drop_bits, drop_bits-lt, every_below,
  every_below-test, eq_of_==,
}
use ppp.Auth.Addresses.{
  PermittedIp, Resolver, all_ones, cut_slash, mask_of, entry_for, parse_entry, parse_word,
  add_entry, is_word, permitted, ip_addr_check, bad_ip_addr, AddressPolicy, auth_ip_addr,
  suggested_ip, set_allowed_addrs,
}

is_none : Option Bool → Bool
is_none none = true
is_none (some b) = false

-- The last entry is for every address.
check-last :
    (addr : ℕ) (b : Bool) (ips : List PermittedIp)
    → ip_addr_check addr (record { permit = b; base = 0; mask = 0 } ∷ ips) ≡ some b
unfolding ip_addr_check
check-last addr b ips = rw (bit_and-zero addr) refl

check-add :
    (addr : ℕ) (e : Option PermittedIp) (ips : List PermittedIp)
    → ip_addr_check addr ips ≢ none
    → ip_addr_check addr (add_entry e ips) ≢ none
unfolding ip_addr_check
check-add addr none ips h = h
check-add addr (some ip) ips h = ground (arith, h)

-- The search in `ip_addr_check`, which tests for no end, comes to a matching entry in every list
-- that `set_allowed_addrs` makes, for every address.
pub ip_addr_check-permitted :
    (r : Resolver) (ifunit : ℕ) (words : List (List ℕ)) (addr : ℕ)
    → ip_addr_check addr (permitted r ifunit words) ≢ none
unfolding permitted
ip_addr_check-permitted r ifunit [] addr = λ e. ground (arith, e, check-last addr false [])
ip_addr_check-permitted r ifunit (word ∷ words) addr =
    let end : PermittedIp = record { permit = false; base = 0; mask = 0 } in
    let any : PermittedIp = record { permit = true; base = 0; mask = 0 } in
    if-both (λ ips. ip_addr_check addr ips ≢ none) (is_word 0x2d word) _ _
      (λ e. ground (arith, e, check-last addr false []))
      (if-both (λ ips. ip_addr_check addr ips ≢ none) (is_word 0x2a word) _ _
        (λ e. ground (arith, e, check-last addr true (end ∷ [])))
        (check-add addr (parse_word r ifunit word) _ (ip_addr_check-permitted r ifunit words addr)))

mask_table : every_below (λ n. mask_of n == (2 ^ n - 1) * 2 ^ (32 - n)) 33 ≡ true
unfolding every_below mask_of
mask_table = refl

split_table : every_below (λ n. 2 ^ n * 2 ^ (32 - n) == 2 ^ 32) 33 ≡ true
unfolding every_below
split_table = refl

split_pow : (n : ℕ) → n ≤ 32 → 2 ^ n * 2 ^ (32 - n) ≡ 2 ^ 32
split_pow n h =
    eq_of_== _ _
      (every_below-test (λ m. 2 ^ m * 2 ^ (32 - m) == 2 ^ 32) 33 n (omega arith) split_table)

positive_table : every_below (λ n. ltb 0 (2 ^ (32 - n))) 33 ≡ true
unfolding every_below
positive_table = refl

pow_pos : (n : ℕ) → n ≤ 32 → 0 < 2 ^ (32 - n)
pow_pos n h =
    ground (arith, every_below-test (λ m. ltb 0 (2 ^ (32 - m))) 33 n (omega arith) positive_table)

scaled_lt : (x y p : ℕ) → 0 < p → x < y → x * p < y * p
scaled_lt x y zero h k = absurd (omega arith)
scaled_lt x y (suc p) h k = grind arith

scaled : (x y p : ℕ) → 0 < p → (x * p == y * p) ≡ (x == y)
scaled x y p h = elim (Bool-cases (x == y)) [
  | inl same ↦ ground (arith, same, ap (λ t. t * p) (eq_of_== x y same))
  | inr differ ↦ ground (arith, differ, scaled_lt x y p h, scaled_lt y x p h)
]

bit_and-mask :
    (n x : ℕ) → n ≤ 32 → x < 2 ^ 32 → bit_and x (mask_of n) ≡ drop_bits (32 - n) x * 2 ^ (32 - n)
bit_and-mask n x h k =
    let table = eq_of_== _ _ (
      every_below-test (λ m. mask_of m == (2 ^ m - 1) * 2 ^ (32 - m)) 33 n (omega arith)
        mask_table) in
    ap (bit_and x) table
    ∙ bit_and-shifted (32 - n) x (2 ^ n - 1)
    ∙ ap (λ y. y * 2 ^ (32 - n))
        (bit_and-ones n (drop_bits (32 - n) x)
          (drop_bits-lt (32 - n) n x (omega (arith, split_pow n h, k))))

-- For a length `n` of up to 32, an address `a` that is not 255.255.255.255, and no `+`, the entry
-- that `set_allowed_addrs` makes permits or forbids as its word does, and it is for exactly the
-- addresses that have the same `n` first bits as `a`.
pub entry_for-matches :
    (permit : Bool) (n a addr : ℕ) (ip : PermittedIp)
    → n ≤ 32
    → a < all_ones
    → addr < 2 ^ 32
    → entry_for permit a (mask_of n) 0 ≡ some ip
    → (ip.permit ≡ permit)
      × ((bit_and addr ip.mask == ip.base) ≡ (drop_bits (32 - n) addr == drop_bits (32 - n) a))
unfolding entry_for
entry_for-matches permit n a addr ip h k l e =
    let one = bit_and a (mask_of n) in
    let made : some ip ≡ some (record { permit = permit; base = one; mask = mask_of n }) =
      sym e ∙ ground arith in
    let same : ip ≡ record { permit = permit; base = one; mask = mask_of n } =
      ground (arith, made) in
    let p = 2 ^ (32 - n) in
    rw same (
      refl,
      ap (λ t. t == one) (bit_and-mask n addr h l)
          ∙ ap (λ t. drop_bits (32 - n) addr * p == t) (bit_and-mask n a h (omega (arith, k)))
          ∙ scaled (drop_bits (32 - n) addr) (drop_bits (32 - n) a) p (pow_pos n h),
    )

-- A peer gets no address of the loopback net and none of the multicast class or above it, whatever
-- the hook, the lists and the options say.
pub auth_ip_addr-good :
    (p : AddressPolicy) (addresses : Option (List PermittedIp)) (addr : ℕ)
    → addr < 2 ^ 32
    → auth_ip_addr p addresses addr ≡ true
    → (addr / 2 ^ 24 ≢ 127) × (addr < 0xe0000000)
unfolding auth_ip_addr bad_ip_addr
auth_ip_addr-good p addresses addr h e = ground (arith, e)

forbidden_entry :
    (r : Resolver) (ifunit a : ℕ) (name : List ℕ)
    → cut_slash name ≡ (name, none)
    → r.gethostbyname name ≡ some a
    → a < all_ones
    → parse_word r ifunit (0x21 ∷ name)
      ≡ some (record { permit = false; base = a; mask = all_ones })
unfolding parse_word parse_entry entry_for
forbidden_entry r ifunit a name plain host small =
    let kept : bit_and a all_ones ≡ a = bit_and-ones 32 a (omega arith) in
    rw (plain, host, kept) (ground arith)

not_dash : (name : List ℕ) → is_word 0x2d (0x21 ∷ name) ≡ false
not_dash [] = refl
not_dash (b ∷ name) = refl

-- The first word of the list forbids a single host, `!name`, whose address is neither 0 nor
-- 255.255.255.255, and pppd has no wish for the peer's address yet. Then `set_allowed_addrs`
-- makes that host's address the one to ask the peer for, and `auth_ip_addr`, without a hook,
-- refuses it.
pub set_allowed_addrs-forbidden :
    (r : Resolver) (ifunit a : ℕ) (p : AddressPolicy) (name : List ℕ) (words : List (List ℕ))
    (b : Bool)
    → cut_slash name ≡ (name, none)
    → r.gethostbyname name ≡ some a
    → a < all_ones
    → 0 < a
    → p.hook ≡ none
    → let done = set_allowed_addrs r ifunit p ((0x21 ∷ name) ∷ words) 0 b in
      (done.hisaddr ≡ a) × (auth_ip_addr p done.addresses a ≡ false)
unfolding set_allowed_addrs permitted suggested_ip auth_ip_addr ip_addr_check
set_allowed_addrs-forbidden r ifunit a p name words b plain host small positive hook =
    let kept : bit_and a all_ones ≡ a = bit_and-ones 32 a (omega arith) in
    let some_host : (a == 0) ≡ false = ground (arith, positive) in
    let same : (a == a) ≡ true = ground arith in
    rw
      (forbidden_entry r ifunit a name plain host small, not_dash name, some_host, hook, kept, same)
      (rw some_host refl, if-both (λ x. x ≡ false) (bad_ip_addr a) _ _ refl refl)
