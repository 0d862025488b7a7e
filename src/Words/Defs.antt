-- ===== src/Words/Defs.antt =====
-- pppd/options.c: `getword`, on the bytes of the file that are still to be read.
use ppp.Prelude.{
  ℕ, zero, suc, ◌+◌, ◌-◌, ◌*◌, ◌%◌, Bool, true, false, not, ◌&&◌, ◌||◌, Option, none, some, List,
  [], ◌∷◌, ◌++◌, length, take, ltb, leb, ◌==◌, if◌then◌else◌, bit_and,
}

-- `MAXWORDLEN`.
abbrev pub maxwordlen : ℕ
maxwordlen = 1024

abbrev pub newline : ℕ
newline = 10

abbrev pub backslash : ℕ
backslash = 92

abbrev pub double_quote : ℕ
double_quote = 34

abbrev pub single_quote : ℕ
single_quote = 39

abbrev pub hash : ℕ
hash = 35

-- `isspace`, in the C locale.
unfoldable pub is_space : ℕ → Bool
is_space c = (leb 9 c && leb c 13) || (c == 32)

unfoldable pub is_octal : ℕ → Bool
is_octal c = leb 48 c && ltb c 56

-- `isxdigit` and `toupper`.
unfoldable pub is_xdigit : ℕ → Bool
is_xdigit c = (leb 48 c && leb c 57) || (leb 65 c && leb c 70) || (leb 97 c && leb c 102)

unfoldable pub to_upper : ℕ → ℕ
to_upper c = if leb 97 c && leb c 122 then c - 32 else c

-- The value of a digit as the code computes it; the `+ '0' + 10 - 'A'` is a `- 7`.
unfoldable pub xdigit_value : ℕ → ℕ
unfolding to_upper
xdigit_value c = let digit = to_upper c - 48 in if ltb 10 digit then digit - 7 else digit

-- What skipping leaves: whether the first character is escaped, the flag for a new line, and the
-- file from that character on.
pub record Skipped : Type 0 where
  pub escape : Bool
  pub newlinep : Bool
  pub rest : List ℕ

-- The first loop: white space and comments.
unfoldable pub skip : Bool → Bool → Bool → List ℕ → Skipped
skip escape comment newlinep [] = record { escape = escape; newlinep = newlinep; rest = [] }
skip escape comment newlinep (c ∷ cs) =
    let stop : Skipped = record { escape = escape; newlinep = newlinep; rest = c ∷ cs } in
    let after_newline = skip false (comment && escape) (newlinep || not escape) cs in
    let commented = skip escape true newlinep cs in
    let escaping = skip true comment newlinep cs in
    let spaced = skip escape comment newlinep cs in
    if c == newline
    then after_newline
    else if comment
    then commented
    else if escape
    then stop
    else if c == backslash
    then escaping
    else if c == hash
    then commented
    else if is_space c
    then spaced
    else stop

-- `\ddd`: up to `n` more octal digits.
unfoldable pub octal : ℕ → ℕ → List ℕ → ℕ × List ℕ
octal zero value cs = (value, cs)
octal (suc n) value [] = (value, [])
octal (suc n) value (c ∷ cs) =
    let more = octal n (value * 8 + bit_and c 7) cs in if is_octal c then more else (value, c ∷ cs)

-- `\x`: up to `n` more hexadecimal digits.
unfoldable pub hex : ℕ → ℕ → List ℕ → ℕ × List ℕ
hex zero value cs = (value, cs)
hex (suc n) value [] = (value, [])
hex (suc n) value (c ∷ cs) =
    let more = hex n (value * 16 + xdigit_value c) cs in
    if is_xdigit c then more else (value, c ∷ cs)

-- The value of an escaped character, and the file behind it.
unfoldable pub escaped_value : ℕ → List ℕ → ℕ × List ℕ
escaped_value c cs =
    if c == 97
    then (7, cs)
    else if c == 98
    then (8, cs)
    else if c == 102
    then (12, cs)
    else if c == 110
    then (10, cs)
    else if c == 114
    then (13, cs)
    else if c == 115
    then (32, cs)
    else if c == 116
    then (9, cs)
    else if is_octal c
    then octal 3 0 (c ∷ cs)
    else if c == 120
    then hex 2 0 cs
    else (c, cs)

-- The variables of the second loop; `quoted` is 0 outside quotes, and `word` holds `len` bytes.
pub record Scan : Type 0 where
  pub escape : Bool
  pub quoted : ℕ
  pub word : List ℕ

-- The byte joins the word, if that has room.
unfoldable pub store : ℕ → Scan → Scan
store value s =
    if ltb (length s.word) maxwordlen then record s { word = s.word ++ ((value % 256) ∷ []) } else s

-- What one round of the second loop does: it ends the word, or goes on with a state and the file.
pub data Round : Type 0 where
  stop : Round
  next : Scan → List ℕ → Round

unfoldable pub escaped_round : Scan → ℕ → List ℕ → Round
escaped_round s c cs =
    let (value, rest) = escaped_value c cs in
    let s' = record s { escape = false } in
    if c == newline then next s' cs else next (store value s') rest

unfoldable pub plain_round : Scan → ℕ → List ℕ → Round
plain_round s c cs =
    if c == backslash
    then next (record s { escape = true }) cs
    else if not (s.quoted == 0)
    then if c == s.quoted then next (record s { quoted = 0 }) cs else next (store c s) cs
    else if c == double_quote || (c == single_quote)
    then next (record s { quoted = c }) cs
    else if is_space c || (c == hash)
    then stop
    else next (store c s) cs

unfoldable pub round : Scan → ℕ → List ℕ → Round
round s c cs = if s.escape then escaped_round s c cs else plain_round s c cs

-- The second loop, from its current character on, with fuel; `none` means that the fuel ran out.
unfoldable pub scan : ℕ → Scan → List ℕ → Option (Scan × List ℕ)
scan fuel s [] = some (s, [])
scan zero s (c ∷ cs) = none
scan (suc fuel) s (c ∷ cs) = elim (round s c cs) [
  | stop ↦ some (s, c ∷ cs)
  | next s' rest ↦ scan fuel s' rest
]

-- What `getword` gives: no word before the end of the file, or a word, the flag and the rest.
pub data Got : Type 0 where
  at_end : Bool → Got
  got : List ℕ → Bool → List ℕ → Got

-- The end of `getword`: a word that is too long loses its tail.
unfoldable pub finish : Bool → Scan × List ℕ → Got
finish newlinep (s, []) =
    if length s.word == 0 then at_end newlinep else got (take (maxwordlen - 1) s.word) newlinep []
finish newlinep (s, c ∷ cs) = got (take (maxwordlen - 1) s.word) newlinep (c ∷ cs)

abbrev pub finished : Bool → Option (Scan × List ℕ) → Option Got
finished newlinep none = none
finished newlinep (some r) = some (finish newlinep r)

-- `getword`, with as much fuel as the file has bytes.
unfoldable pub getword : List ℕ → Option Got
unfolding skip scan
getword f =
    let k = skip false false false f in
    finished k.newlinep
      (scan (length f) (record { escape = k.escape; quoted = 0; word = [] }) k.rest)
