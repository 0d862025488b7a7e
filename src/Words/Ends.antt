-- ===== src/Words/Ends.antt =====
-- `getword` ends on every file, and each word takes bytes off it.
use ppp.Prelude.{
  ℕ, zero, suc, ◌+◌, ◌*◌, ◌%◌, bit_and, ◌-◌, ◌<◌, ◌≤◌, ◌≡◌, ◌≢◌, refl, Bool, true, false, not, ◌&&◌,
  ◌||◌, Option, none, some, List, [], ◌∷◌, length, length-append, take, length-take, ◌==◌, arith,
  Bool-cases, inl, inr, ◌⊎◌,
}
use ppp.Words.Defs.{
  maxwordlen, hash, is_space, is_octal, xdigit_value, skip, octal, hex, escaped_value, Scan, store,
  Round, stop, next, escaped_round, round, plain_round, scan, Got, at_end, got, finish, finished,
  getword,
}

octal-shrinks : (n value : ℕ) (cs : List ℕ) → length (octal n value cs).1 ≤ length cs
unfolding octal
octal-shrinks zero value cs = omega arith
octal-shrinks (suc n) value [] = omega arith
octal-shrinks (suc n) value (c ∷ cs) = ground (arith, octal-shrinks n (value * 8 + bit_and c 7) cs)

octal-takes :
    (n value c : ℕ) (cs : List ℕ)
    → is_octal c ≡ true
    → length (octal (suc n) value (c ∷ cs)).1 ≤ length cs
unfolding octal
octal-takes n value c cs h = ground (arith, octal-shrinks n (value * 8 + bit_and c 7) cs)

hex-shrinks : (n value : ℕ) (cs : List ℕ) → length (hex n value cs).1 ≤ length cs
unfolding hex
hex-shrinks zero value cs = omega arith
hex-shrinks (suc n) value [] = omega arith
hex-shrinks (suc n) value (c ∷ cs) = ground (arith, hex-shrinks n (value * 16 + xdigit_value c) cs)

escaped_value-shrinks : (c : ℕ) (cs : List ℕ) → length (escaped_value c cs).1 ≤ length cs
unfolding escaped_value
escaped_value-shrinks c cs = ground (arith, octal-takes 2 0 c cs, hex-shrinks 2 0 cs)

skip-shrinks : (e k n : Bool) (cs : List ℕ) → length (skip e k n cs).rest ≤ length cs
unfolding skip
skip-shrinks e k n [] = omega arith
skip-shrinks e k n (c ∷ cs) = ground (
  arith,
  skip-shrinks false (k && e) (n || not e) cs,
  skip-shrinks e true n cs,
  skip-shrinks true k n cs,
  skip-shrinks e k n cs,
)

-- A round that goes on has taken its character, and keeps the word within its bounds.
round-shrinks :
    (s s' : Scan) (c : ℕ) (cs rest : List ℕ)
    → round s c cs ≡ next s' rest
    → length s.word ≤ maxwordlen
    → (length rest ≤ length cs) × (length s'.word ≤ maxwordlen)
unfolding round escaped_round plain_round store
round-shrinks s s' c cs rest e h = ground (
  arith,
  escaped_value-shrinks c cs,
  length-append s.word (((escaped_value c cs).0 % 256) ∷ []),
  length-append s.word ((c % 256) ∷ []),
)

take_bound : (n : ℕ) (w : List ℕ) → length (take n w) < suc n
take_bound n w = omega (arith, length-take n w)

-- A result of the second loop: it ended, took nothing but bytes off `n` of them, and the word has
-- its bound.
Fits : ℕ → Option (Scan × List ℕ) → Type 0
Fits n none = ⊥
Fits n (some r) = (length r.1 ≤ n) × (length r.0.word ≤ maxwordlen)

Round-cases : (r : Round) → (r ≡ stop) ⊎ ((s : Scan) × (cs : List ℕ) × (r ≡ next s cs))
Round-cases stop = inl refl
Round-cases (next s cs) = inr (s, cs, refl)

Fits-mono : {n m : ℕ} (r : Option (Scan × List ℕ)) → n ≤ m → Fits n r → Fits (suc m) r
unfolding Fits
Fits-mono none h f = f
Fits-mono (some r) h f = (ground (arith, f.0), f.1)

-- The second loop follows its rounds.
pub scan-next :
    (fuel : ℕ) (s s' : Scan) (c : ℕ) (cs rest : List ℕ)
    → round s c cs ≡ next s' rest
    → scan (suc fuel) s (c ∷ cs) ≡ scan fuel s' rest
unfolding scan
scan-next fuel s s' c cs rest e = rw (e, scan) refl

-- With as much fuel as there are bytes the second loop ends.
scan-Fits :
    (fuel : ℕ) (s : Scan) (cs : List ℕ)
    → length cs ≤ fuel
    → length s.word ≤ maxwordlen
    → Fits (length cs) (scan fuel s cs)
unfolding scan Fits
scan-Fits fuel s [] h k = (omega arith, k)
scan-Fits zero s (c ∷ cs) h k = elim h [ ]
scan-Fits (suc fuel) s (c ∷ cs) h k = elim (Round-cases (round s c cs)) [
  | inl e ↦ rw (e, scan) (omega arith, k)
  | inr (s', rest, e) ↦
      let b : (length rest ≤ length cs) × (length s'.word ≤ maxwordlen) =
        round-shrinks s s' c cs rest e k in
      let room : length rest ≤ fuel = omega (arith, b.0) in
      rw (e, scan) (Fits-mono (scan fuel s' rest) b.0 (scan-Fits fuel s' rest room b.1))
]

-- A result of `getword` on a file of `n` bytes: there is one; a word has less than `MAXWORDLEN`
-- bytes, and what is left of the file is shorter than the file was.
unfoldable pub Taken : ℕ → Option Got → Type 0
Taken n none = ⊥
Taken n (some (at_end newlinep)) = Unit
Taken n (some (got w newlinep rest)) = (length w < maxwordlen) × (length rest < n)

-- The first character that skipping leaves is escaped, or neither white space nor a comment.
unfoldable starts : Bool → List ℕ → Bool
starts escape [] = true
starts escape (c ∷ cs) = escape || not (is_space c || (c == hash))

skip-starts :
    (e k n : Bool) (cs : List ℕ) → starts (skip e k n cs).escape (skip e k n cs).rest ≡ true
unfolding skip starts
skip-starts e k n [] = refl
skip-starts e k n (c ∷ cs) = ground (
  arith,
  skip-starts false (k && e) (n || not e) cs,
  skip-starts e true n cs,
  skip-starts true k n cs,
  skip-starts e k n cs,
)

-- So the first round of the second loop goes on.
first_round :
    (e : Bool) (c : ℕ) (cs : List ℕ)
    → starts e (c ∷ cs) ≡ true
    → round (record { escape = e; quoted = 0; word = [] }) c cs ≢ stop
unfolding round escaped_round plain_round starts
first_round e c cs h = ground arith

word_bound : (w : List ℕ) → length (take (maxwordlen - 1) w) < maxwordlen
word_bound w = take_bound (maxwordlen - 1) w

finish-Taken :
    (newlinep : Bool) (n m : ℕ) (r : Option (Scan × List ℕ))
    → m < n
    → Fits m r
    → Taken n (finished newlinep r)
unfolding Taken Fits finish
finish-Taken newlinep n m none h f = f
finish-Taken newlinep n m (some (s, [])) h f = elim (Bool-cases (length s.word == 0)) [
  | inl e ↦ rw e tt
  | inr e ↦ rw e (word_bound s.word, ground (arith, f.0))
]
finish-Taken newlinep n m (some (s, c ∷ cs)) h f = (word_bound s.word, ground (arith, f.0))

scan-from :
    (e : Bool) (n fuel c : ℕ) (cs : List ℕ)
    → starts e (c ∷ cs) ≡ true
    → length cs < n
    → length cs ≤ fuel
    → (m : ℕ) × ((m < n)
        × Fits m (scan (suc fuel) (record { escape = e; quoted = 0; word = [] }) (c ∷ cs)))
scan-from e n fuel c cs st h room =
    let s : Scan = record { escape = e; quoted = 0; word = [] } in
    elim (Round-cases (round s c cs)) [
      | inl stopped ↦ elim (first_round e c cs st stopped) [ ]
      | inr (s', rest, e') ↦
          let b : (length rest ≤ length cs) × (length s'.word ≤ maxwordlen) =
            round-shrinks s s' c cs rest e' (omega arith) in
          let more : length rest ≤ fuel = omega (arith, b.0) in
          (
            length rest,
            (
              omega (arith, b.0),
              rw (scan-next fuel s s' c cs rest e') (scan-Fits fuel s' rest more b.1),
            ),
          )
    ]

getword-from :
    (e newlinep : Bool) (rest : List ℕ) (n : ℕ)
    → starts e rest ≡ true
    → length rest ≤ n
    → Taken n (finished newlinep (scan n (record { escape = e; quoted = 0; word = [] }) rest))
unfolding scan Taken finish
getword-from e newlinep [] n st h = tt
getword-from e newlinep (c ∷ cs) zero st h = elim h [ ]
getword-from e newlinep (c ∷ cs) (suc n) st h =
    let r = scan-from e (suc n) n c cs st (omega arith) (omega arith) in
    finish-Taken newlinep (suc n) r.0
      (scan (suc n) (record { escape = e; quoted = 0; word = [] }) (c ∷ cs)) r.1.0 r.1.1

-- `getword` ends on every file: it finds no word, or a word of less than `MAXWORDLEN` bytes, and
-- then what is left of the file is shorter than the file was.
pub getword-Taken : (f : List ℕ) → Taken (length f) (getword f)
unfolding getword scan
getword-Taken f =
    let k = skip false false false f in
    let h : length k.rest ≤ length f = skip-shrinks false false false f in
    getword-from k.escape k.newlinep k.rest (length f) (skip-starts false false false f) h
