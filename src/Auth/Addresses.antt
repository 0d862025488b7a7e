-- ===== src/Auth/Addresses.antt =====
-- pppd/auth.c: the addresses that the peer may use. Addresses are in host byte order.
use ppp.Prelude.{
  ℕ, ◌+◌, ◌-◌, ◌*◌, ◌/◌, ◌%◌, ◌^◌, ℤ, pos, negsuc, Bool, true, false, not, ◌&&◌, ◌||◌, Option, none,
  some, List, [], ◌∷◌, leb, ltb, ◌==◌, if◌then◌else◌, bit_and,
}

-- `struct permitted_ip`.
pub record PermittedIp : Type 0 where
  pub permit : Bool
  pub base : ℕ
  pub mask : ℕ

-- The C library: the addresses of hosts and the numbers of nets by their names, for IPv4 alone, and
-- `strtol` with the characters behind the number.
pub record Resolver : Type 0 where
  pub gethostbyname : List ℕ → Option ℕ
  pub getnetbyname : List ℕ → Option ℕ
  pub inet_addr : List ℕ → ℕ
  pub strtol : List ℕ → ℤ × List ℕ

abbrev pub all_ones : ℕ
all_ones = 0xffffffff

-- `strchr` for a slash: what is before it, and what is behind it.
unfoldable pub cut_slash : List ℕ → List ℕ × Option (List ℕ)
cut_slash [] = ([], none)
cut_slash (b ∷ p) =
    let rest = cut_slash p in if b == 0x2f then ([], some p) else (b ∷ rest.0, rest.1)

-- `mask <<= 32 - bit_count`.
unfoldable pub mask_of : ℕ → ℕ
mask_of bit_count = all_ones * 2 ^ (32 - bit_count) % 2 ^ 32

-- The length behind the slash: the mask and the offset, or `none` for a bad one.
abbrev pub length_checked : ℕ → ℕ → List ℕ → Option (ℕ × ℕ)
length_checked ifunit bit_count [] = some (mask_of bit_count, 0)
length_checked ifunit bit_count (b ∷ []) =
    if b == 0x2b then some (mask_of bit_count, ifunit + 1) else none
length_checked ifunit bit_count (b ∷ c ∷ p) = none

-- The conversion of a `long` to an `int` of 32 bits.
abbrev pub to_int : ℤ → ℤ
to_int (pos n) =
    if ltb (n % 2 ^ 32) (2 ^ 31) then pos (n % 2 ^ 32) else negsuc (2 ^ 32 - 1 - n % 2 ^ 32)
to_int (negsuc n) =
    if ltb (n % 2 ^ 32) (2 ^ 31) then negsuc (n % 2 ^ 32) else pos (2 ^ 32 - 1 - n % 2 ^ 32)

abbrev pub length_in_range : ℕ → ℤ → List ℕ → Option (ℕ × ℕ)
length_in_range ifunit (pos n) end =
    if n == 0 || ltb 32 n then none else length_checked ifunit n end
length_in_range ifunit (negsuc n) end = none

abbrev pub length_of : ℕ → ℤ × List ℕ → Option (ℕ × ℕ)
length_of ifunit (n, end) = length_in_range ifunit (to_int n) end

abbrev pub prefix_of : Resolver → ℕ → Option (List ℕ) → Option (ℕ × ℕ)
prefix_of r ifunit none = some (all_ones, 0)
prefix_of r ifunit (some digits) = length_of ifunit (r.strtol digits)

-- The mask of the class of a net.
abbrev pub class_mask : ℕ → ℕ
class_mask a =
    if ltb a 0x80000000
    then 0xff000000
    else if ltb a 0xc0000000
    then 0xffff0000
    else if ltb a 0xe0000000
    then 0xffffff00
    else all_ones

-- The address for a name, and the mask.
abbrev pub net_or_number : Resolver → List ℕ → Bool → ℕ → Option ℕ → ℕ × ℕ
net_or_number r name slash mask (some n) = (n, if slash then mask else class_mask n)
net_or_number r name slash mask none = (r.inet_addr name, mask)

abbrev pub address_of : Resolver → List ℕ → Bool → ℕ → Option ℕ → ℕ × ℕ
address_of r name slash mask (some a) = (a, mask)
address_of r name slash mask none = net_or_number r name slash mask (r.getnetbyname name)

-- The entry for an address, a mask and an offset.
unfoldable pub entry_for : Bool → ℕ → ℕ → ℕ → Option PermittedIp
entry_for permit a mask offset =
    if a == all_ones
    then none
    else if offset == 0
    then some (record { permit = permit; base = bit_and a mask; mask = mask })
    else if leb (all_ones - mask) offset
    then none
    else some
        (record { permit = permit; base = (bit_and a mask + offset) % 2 ^ 32; mask = all_ones })

abbrev pub is_slash : Option (List ℕ) → Bool
is_slash none = false
is_slash (some p) = true

abbrev pub add_entry : Option PermittedIp → List PermittedIp → List PermittedIp
add_entry none ips = ips
add_entry (some ip) ips = ip ∷ ips

abbrev pub is_word : ℕ → List ℕ → Bool
is_word c (b ∷ []) = b == c
is_word c _ = false

module _ (r : Resolver) (ifunit : ℕ) where
  abbrev pub entry_with : Bool → List ℕ × Option (List ℕ) → Option (ℕ × ℕ) → Option PermittedIp
  entry_with permit word none = none
  entry_with permit word (some prefix) =
      let found = address_of r word.0 (is_slash word.1) prefix.0 (r.gethostbyname word.0) in
      entry_for permit found.0 found.1 prefix.1

  -- The body of the loop of `set_allowed_addrs`, behind the tests for `-` and `*`.
  unfoldable pub parse_entry : Bool → List ℕ → Option PermittedIp
  unfolding cut_slash mask_of entry_for
  parse_entry permit p =
      let word = cut_slash p in entry_with permit word (prefix_of r ifunit word.1)

  unfoldable pub parse_word : List ℕ → Option PermittedIp
  unfolding parse_entry
  parse_word [] = parse_entry true []
  parse_word (b ∷ p) = if b == 0x21 then parse_entry false p else parse_entry true (b ∷ p)

  -- The loop, and the entry at the end that forbids everything.
  unfoldable pub permitted : List (List ℕ) → List PermittedIp
  unfolding parse_word
  permitted [] = record { permit = false; base = 0; mask = 0 } ∷ []
  permitted (word ∷ words) =
      let rest = permitted words in
      if is_word 0x2d word
      then record { permit = false; base = 0; mask = 0 } ∷ []
      else if is_word 0x2a word
      then record { permit = true; base = 0; mask = 0 }
        ∷ record { permit = false; base = 0; mask = 0 }
        ∷ []
      else add_entry (parse_word word) rest

-- `ip_addr_check`; `none` for a list that runs out.
unfoldable pub ip_addr_check : ℕ → List PermittedIp → Option Bool
ip_addr_check addr [] = none
ip_addr_check addr (ip ∷ ips) =
    let rest = ip_addr_check addr ips in
    if bit_and addr ip.mask == ip.base then some ip.permit else rest

-- `ppp_bad_ip_addr`: loopback, multicast, and the class above it.
unfoldable pub bad_ip_addr : ℕ → Bool
bad_ip_addr addr = addr / 2 ^ 24 == 127 || addr / 2 ^ 28 == 0xe || addr / 2 ^ 28 == 0xf

-- What `auth_ip_addr` reads.
pub record AddressPolicy : Type 0 where
  pub hook : Option (ℕ → ℤ)
  pub auth_required : Bool
  pub allow_any_ip : Bool
  pub privileged : Bool
  pub have_route_to : ℕ → Bool

-- A test that gives `none` where the C function gives a negative number.
abbrev pub hook_says : Option (ℕ → ℤ) → ℕ → Option Bool
hook_says none addr = none
hook_says (some f) addr = elim (f addr) [ pos n ↦ some (not (n == 0)) | negsuc n ↦ none ]

abbrev pub listed : Option (List PermittedIp) → ℕ → Option Bool
listed none addr = none
listed (some ips) addr = ip_addr_check addr ips

abbrev pub or_else : Option Bool → Bool → Bool
or_else none b = b
or_else (some a) b = a

-- `auth_ip_addr`.
unfoldable pub auth_ip_addr : AddressPolicy → Option (List PermittedIp) → ℕ → Bool
unfolding ip_addr_check bad_ip_addr
auth_ip_addr p addresses addr =
    let last =
      not p.auth_required && (p.allow_any_ip || p.privileged || not (p.have_route_to addr)) in
    if bad_ip_addr addr
    then false
    else or_else (hook_says p.hook addr) (or_else (listed addresses addr) last)

-- The address that `set_allowed_addrs` suggests: the first entry for a single host; 0 for none.
unfoldable pub suggested_ip : List PermittedIp → ℕ
suggested_ip [] = 0
suggested_ip (ip ∷ ips) =
    let rest = suggested_ip ips in
    if ip.mask == all_ones && not (ip.base == 0) then ip.base else rest

-- What `set_allowed_addrs` leaves: `addresses`, and the wish for the peer's address.
pub record Allowed : Type 0 where
  pub addresses : Option (List PermittedIp)
  pub hisaddr : ℕ
  pub accept_remote : Bool

abbrev pub count : List PermittedIp → ℕ
count [] = 0
count (ip ∷ ips) = count ips + 1

abbrev pub no_words : List (List ℕ) → Bool
no_words [] = true
no_words (w ∷ ws) = false

-- `set_allowed_addrs`, for the words of `addrs` and those of `noauth_addrs` behind them.
unfoldable pub set_allowed_addrs : Resolver → ℕ → AddressPolicy → List (List ℕ) → ℕ → Bool → Allowed
unfolding permitted suggested_ip auth_ip_addr
set_allowed_addrs r ifunit p words hisaddr accept_remote =
    let ips = permitted r ifunit words in
    let suggested = suggested_ip ips in
    let wants = not (suggested == 0) && (hisaddr == 0 || not (auth_ip_addr p (some ips) hisaddr)) in
    if no_words words
    then record { addresses = none; hisaddr = hisaddr; accept_remote = accept_remote }
    else record {
      addresses = some ips;
      hisaddr = if wants then suggested else hisaddr;
      accept_remote = accept_remote || (wants && ltb 2 (count ips));
    }
