-- ===== src/Words/RoundTrip.antt =====
-- Words written in double quotes, and what `getword` of pppd/options.c reads of them.
use ppp.Prelude.{
  ℕ, zero, suc, ◌+◌, ◌-◌, ◌<◌, ◌≤◌, ◌≡◌, refl, Bool, true, false, not, ◌&&◌, ◌||◌, Option, some,
  List, [], ◌∷◌, ◌++◌, length, length-append, append-nil, append_assoc, take, AllBytes, ◌==◌,
  if◌then◌else◌, arith, Bool-cases, inl, inr, ◌∙◌, ap,
}
use ppp.Words.Defs.{
  maxwordlen, newline, backslash, hash, double_quote, is_space, is_octal, skip, escaped_value, Scan,
  store, next, escaped_round, plain_round, round, scan, got, finish, getword,
}
use ppp.Words.Ends.{scan-next}

-- A word as it stands between double quotes: a quote and a backslash are escaped.
unfoldable pub body : List ℕ → List ℕ
body [] = []
body (b ∷ w) = if b == double_quote || (b == backslash) then backslash ∷ b ∷ body w else b ∷ body w

unfoldable pub quote : List ℕ → List ℕ
unfolding body
quote w = double_quote ∷ (body w ++ (double_quote ∷ []))

-- What may stand before a word: a white-space character, or a comment up to the end of its line.
pub data Piece : Type 0 where
  blank : ℕ → Piece
  comment : List ℕ → Piece

unfoldable pub no_newline : List ℕ → Bool
no_newline [] = true
no_newline (c ∷ cs) = not (c == newline) && no_newline cs

unfoldable pub is_gap : List Piece → Bool
is_gap [] = true
is_gap (blank c ∷ ps) = is_space c && is_gap ps
is_gap (comment cs ∷ ps) = no_newline cs && is_gap ps

unfoldable pub render : List Piece → List ℕ
render [] = []
render (blank c ∷ ps) = c ∷ render ps
render (comment cs ∷ ps) = hash ∷ (cs ++ (newline ∷ render ps))

unfoldable pub has_newline : List Piece → Bool
has_newline [] = false
has_newline (blank c ∷ ps) = (c == newline) || has_newline ps
has_newline (comment cs ∷ ps) = true

skip-comment :
    (n : Bool) (text cs : List ℕ)
    → no_newline text ≡ true
    → skip false true n (text ++ (newline ∷ cs)) ≡ skip false false true cs
unfolding skip no_newline
skip-comment n [] cs h = ground arith
skip-comment n (c ∷ text) cs h = ground (arith, skip-comment true text cs, skip-comment n text cs)

skip-gap :
    (n : Bool) (ps : List Piece) (cs : List ℕ)
    → is_gap ps ≡ true
    → skip false false n (render ps ++ (double_quote ∷ cs))
      ≡ record { escape = false; newlinep = n || has_newline ps; rest = double_quote ∷ cs }
unfolding skip is_gap render has_newline is_space
skip-gap n [] cs h = ground arith
skip-gap n (blank c ∷ ps) cs h = ground (arith, skip-gap true ps cs, skip-gap n ps cs)
skip-gap n (comment text ∷ ps) cs h = ground (
  arith,
  append_assoc text (newline ∷ render ps) (double_quote ∷ cs),
  skip-comment n text (render ps ++ (double_quote ∷ cs)),
  skip-gap true ps cs,
)

-- `k` more than the rounds that the body of a word takes.
rounds : ℕ → List ℕ → ℕ
rounds k [] = k
rounds k (b ∷ w) =
    if b == double_quote || (b == backslash) then suc (suc (rounds k w)) else suc (rounds k w)

rounds-length : (k : ℕ) (w : List ℕ) → rounds k w ≡ length (body w) + k
unfolding rounds body
rounds-length k [] = omega arith
rounds-length k (b ∷ w) = ground (arith, rounds-length k w)

abbrev inside : Bool → List ℕ → Scan
inside escape w = record { escape = escape; quoted = double_quote; word = w }

plain_byte :
    (g cs : List ℕ) (b : ℕ)
    → (b == double_quote || (b == backslash)) ≡ false
    → b < 256
    → length g < maxwordlen
    → round (inside false g) b cs ≡ next (inside false (g ++ (b ∷ []))) cs
unfolding round plain_round store
plain_byte g cs b e h k = ground arith

escaped_byte :
    (g cs : List ℕ) (b : ℕ)
    → (b == double_quote || (b == backslash)) ≡ true
    → length g < maxwordlen
    → round (inside true g) b cs ≡ next (inside false (g ++ (b ∷ []))) cs
unfolding round escaped_round escaped_value is_octal store
escaped_byte g cs b e k = ground arith

starts_escape : (g cs : List ℕ) → round (inside false g) backslash cs ≡ next (inside true g) cs
unfolding round plain_round
starts_escape g cs = refl

-- Inside the quotes the second loop gathers the word.
scan-body :
    (k : ℕ) (gathered w tail : List ℕ)
    → AllBytes w
    → length gathered + length w ≤ maxwordlen
    → scan
        (rounds k w)
        (record { escape = false; quoted = double_quote; word = gathered })
        (body w ++ tail)
      ≡ scan k (record { escape = false; quoted = double_quote; word = gathered ++ w }) tail
unfolding body rounds
scan-body k gathered [] tail all h = rw (append-nil gathered) refl
scan-body k gathered (b ∷ w) tail all h =
    let room : length (gathered ++ (b ∷ [])) + length w ≤ maxwordlen =
      omega (arith, length-append gathered (b ∷ [])) in
    let rest = scan-body k (gathered ++ (b ∷ [])) w tail all.1 room in
    let more = rest ∙ ap (λ v. scan k (inside false v) tail) (append_assoc gathered (b ∷ []) w) in
    elim (Bool-cases (b == double_quote || (b == backslash))) [
      | inl e ↦ rw e (
          scan-next (suc (rounds k w)) (inside false gathered) (inside true gathered) backslash
            (b ∷ (body w ++ tail)) (b ∷ (body w ++ tail))
            (starts_escape gathered (b ∷ (body w ++ tail)))
          ∙ scan-next (rounds k w) (inside true gathered) (inside false (gathered ++ (b ∷ []))) b
              (body w ++ tail) (body w ++ tail)
              (escaped_byte gathered (body w ++ tail) b e (omega arith))
          ∙ more)
      | inr e ↦ rw e (
          scan-next (rounds k w) (inside false gathered) (inside false (gathered ++ (b ∷ []))) b
            (body w ++ tail) (body w ++ tail)
            (plain_byte gathered (body w ++ tail) b e all.0 (omega arith))
          ∙ more)
    ]

-- The character behind a word ends it.
scan-stop :
    (k c : ℕ) (w cs : List ℕ)
    → is_space c || (c == hash) ≡ true
    → scan (suc (suc k)) (inside false w) (double_quote ∷ c ∷ cs)
      ≡ some (record { escape = false; quoted = 0; word = w }, c ∷ cs)
unfolding scan round plain_round is_space
scan-stop k c w cs h = ground arith

-- The closing quote is the last thing in the file.
scan-last :
    (k : ℕ) (w : List ℕ)
    → scan (suc k) (inside false w) (double_quote ∷ [])
      ≡ some (record { escape = false; quoted = 0; word = w }, [])
unfolding scan round plain_round
scan-last k w = refl

take-all : (n : ℕ) (w : List ℕ) → length w ≤ n → take n w ≡ w
take-all zero [] h = refl
take-all zero (b ∷ w) h = absurd (omega arith)
take-all (suc n) [] h = refl
take-all (suc n) (b ∷ w) h = ap (λ v. b ∷ v) (take-all n w (omega arith))

abbrev fresh : Scan
fresh = record { escape = false; quoted = 0; word = [] }

-- The second loop on a word in quotes.
scan-quote :
    (k : ℕ) (w tail : List ℕ) (r : Option (Scan × List ℕ))
    → AllBytes w
    → length w < maxwordlen
    → scan k (inside false w) (double_quote ∷ tail) ≡ r
    → scan (suc (rounds k w)) fresh (double_quote ∷ (body w ++ (double_quote ∷ tail))) ≡ r
unfolding round plain_round
scan-quote k w tail r all h e =
    scan-next (rounds k w) fresh (inside false []) double_quote (body w ++ (double_quote ∷ tail))
      (body w ++ (double_quote ∷ tail)) refl
    ∙ scan-body k [] w (double_quote ∷ tail) all (omega arith)
    ∙ e

-- `getword` up to its two loops.
getword-loops :
    (ps : List Piece) (cs : List ℕ) (fuel : ℕ) (r : Scan × List ℕ)
    → is_gap ps ≡ true
    → length (render ps ++ (double_quote ∷ cs)) ≡ fuel
    → scan fuel fresh (double_quote ∷ cs) ≡ some r
    → getword (render ps ++ (double_quote ∷ cs)) ≡ some (finish (has_newline ps) r)
unfolding getword
getword-loops ps cs fuel r g n e = rw (skip-gap false ps cs g, n, e) refl

quote-append :
    (w tail : List ℕ) → quote w ++ tail ≡ double_quote ∷ (body w ++ (double_quote ∷ tail))
unfolding quote
quote-append w tail = ap (λ v. double_quote ∷ v) (append_assoc (body w) (double_quote ∷ []) tail)

file-length :
    (g w tail : List ℕ)
    → length (g ++ (double_quote ∷ (body w ++ (double_quote ∷ tail))))
      ≡ suc (rounds (suc (length g + length tail)) w)
file-length g w tail = omega (
  arith,
  length-append g (double_quote ∷ (body w ++ (double_quote ∷ tail))),
  length-append (body w) (double_quote ∷ tail),
  rounds-length (suc (length g + length tail)) w,
)

-- Whatever white space and comments stand before it, a word written in quotes is read back, with
-- the flag of a new line and with what is behind it left to read: the word has less than
-- `MAXWORDLEN` bytes, and white space or a comment is behind it.
pub getword-quote :
    (ps : List Piece) (w : List ℕ) (c : ℕ) (cs : List ℕ)
    → is_gap ps ≡ true
    → AllBytes w
    → length w < maxwordlen
    → is_space c || (c == hash) ≡ true
    → getword (render ps ++ (quote w ++ (c ∷ cs))) ≡ some (got w (has_newline ps) (c ∷ cs))
unfolding finish
getword-quote ps w c cs g all h e =
    let tail = c ∷ cs in
    let k = length (render ps) + length cs in
    let loops =
      scan-quote (suc (suc k)) w tail (some (record { escape = false; quoted = 0; word = w }, tail))
        all h (scan-stop k c w cs e) in
    rw (quote-append w tail) (
      getword-loops ps (body w ++ (double_quote ∷ tail)) (suc (rounds (suc (suc k)) w))
        (record { escape = false; quoted = 0; word = w }, tail) g
        (omega (
          arith,
          file-length (render ps) w tail,
          rounds-length (suc (suc k)) w,
          rounds-length (suc (length (render ps) + length tail)) w,
        ))
        loops
      ∙ ap (λ v. some (got v (has_newline ps) tail)) (take-all (maxwordlen - 1) w (omega arith)))
