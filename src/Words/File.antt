-- ===== src/Words/File.antt =====
-- The words of a whole file, as the loops of pppd/options.c take them: `getword` until the end.
use ppp.Prelude.{
  ℕ, zero, suc, ◌<◌, ◌≡◌, ◌≢◌, refl, Bool, true, Option, none, some, List, [], ◌∷◌, ◌++◌, length,
  AllBytes, arith, ◌⊎◌, inl, inr,
}
use ppp.Words.Defs.{maxwordlen, newline, Got, at_end, got, getword, is_space, finish}
use ppp.Words.Ends.{Taken, getword-Taken}
use ppp.Words.RoundTrip.{Piece, blank, is_gap, render, has_newline, quote, getword-quote}

-- The words of a file with the flags of `getword`, with fuel for the calls; `none` means that the
-- fuel ran out.
unfoldable pub read_all : ℕ → List ℕ → Option (List (List ℕ × Bool))
read_all zero f = none
read_all (suc n) f = elim (getword f) [
  | none ↦ none
  | some (at_end newlinep) ↦ some []
  | some (got w newlinep rest) ↦ elim (read_all n rest) [
    | none ↦ none
    | some words ↦ some ((w, newlinep) ∷ words)
  ]
]

-- A file with one word on each line, after white space and comments.
unfoldable pub print : List (List Piece × List ℕ) → List ℕ
print [] = newline ∷ []
print ((ps, w) ∷ lines) = render (blank newline ∷ ps) ++ (quote w ++ print lines)

unfoldable pub words : List (List Piece × List ℕ) → List (List ℕ × Bool)
words [] = []
words ((ps, w) ∷ lines) = (w, true) ∷ words lines

abbrev pub Fine : List (List Piece × List ℕ) → Type 0
Fine [] = Unit
Fine ((ps, w) ∷ lines) = (is_gap ps ≡ true) × (AllBytes w × ((length w < maxwordlen) × Fine lines))

print_starts : (lines : List (List Piece × List ℕ)) → (cs : List ℕ) × (print lines ≡ newline ∷ cs)
unfolding print render
print_starts [] = ([], refl)
print_starts ((ps, w) ∷ lines) = (render ps ++ (quote w ++ print lines), refl)

-- The next word of a printed file.
getword-print :
    (ps : List Piece) (w : List ℕ) (lines : List (List Piece × List ℕ))
    → is_gap ps ≡ true
    → AllBytes w
    → length w < maxwordlen
    → getword (print ((ps, w) ∷ lines)) ≡ some (got w true (print lines))
unfolding print is_gap is_space has_newline
getword-print ps w lines g all h =
    let s = print_starts lines in
    rw s.1 (getword-quote (blank newline ∷ ps) w newline s.0 g all h refl)

-- A file with one word to a line, written in quotes behind any white space and comments, is read
-- back word for word, each with the flag of a new line, and then the end is found: the comments have
-- no line end in them, and each word consists of bytes and has less than `MAXWORDLEN` of them.
pub read_all-print :
    (lines : List (List Piece × List ℕ))
    → Fine lines
    → read_all (suc (length lines)) (print lines) ≡ some (words lines)
unfolding words getword finish read_all print
read_all-print [] h = refl
read_all-print ((ps, w) ∷ lines) h =
    rw (getword-print ps w lines h.0 h.1.0 h.1.1.0, read_all-print lines h.1.1.1, read_all) refl

read_all-next :
    (n : ℕ) (f w rest : List ℕ) (newlinep : Bool)
    → getword f ≡ some (got w newlinep rest)
    → read_all n rest ≢ none
    → read_all (suc n) f ≢ none
unfolding read_all
read_all-next n f w rest newlinep e h = ground (arith, e)

read_all-end :
    (n : ℕ) (f : List ℕ) (newlinep : Bool)
    → getword f ≡ some (at_end newlinep)
    → read_all (suc n) f ≢ none
unfolding read_all
read_all-end n f newlinep e = rw (e, read_all) (ground arith)

Taken-cases :
    (n : ℕ) (r : Option Got)
    → Taken n r
    → ((newlinep : Bool) × (r ≡ some (at_end newlinep)))
      ⊎ ((w : List ℕ) × (newlinep : Bool) × (rest : List ℕ) × (r ≡ some (got w newlinep rest))
          × (length rest < n))
unfolding Taken
Taken-cases n none h = absurd h
Taken-cases n (some (at_end newlinep)) h = inl (newlinep, refl)
Taken-cases n (some (got w newlinep rest)) h = inr (w, newlinep, rest, refl, h.1)

-- Every file is read to its end: one call of `getword` for each of its bytes, and one more, is
-- enough.
read_all-ne-none : (n : ℕ) (f : List ℕ) → length f < n → read_all n f ≢ none
read_all-ne-none zero f h = elim h [ ]
read_all-ne-none (suc n) f h = elim (Taken-cases (length f) (getword f) (getword-Taken f)) [
  | inl (newlinep, e) ↦ read_all-end n f newlinep e
  | inr (w, newlinep, rest, e, shorter) ↦
      read_all-next n f w rest newlinep e (read_all-ne-none n rest (omega arith))
]
