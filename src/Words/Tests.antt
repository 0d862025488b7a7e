-- ===== src/Words/Tests.antt =====
-- `getword` of pppd/options.c on concrete files.
use ppp.Prelude.{ℕ, ◌≡◌, refl, false, some, List, [], ◌∷◌, arith}
use ppp.Words.Defs.{
  getword, got, at_end, finish, is_space, round, plain_round, store, escaped_round, escaped_value,
  is_octal, hex, is_xdigit, xdigit_value,
}
use ppp.Words.Ends.{Taken, getword-Taken}
use ppp.Words.RoundTrip.{Piece, blank, comment, is_gap, no_newline}
use ppp.Words.File.{read_all-print, read_all, print, words}

-- ` a\x4a"b c"` and a line end.
abbrev mixed : List ℕ
mixed = 32 ∷ 97 ∷ 92 ∷ 120 ∷ 52 ∷ 97 ∷ 34 ∷ 98 ∷ 32 ∷ 99 ∷ 34 ∷ 10 ∷ []

mixed_word : getword mixed ≡ some (got (97 ∷ 74 ∷ 98 ∷ 32 ∷ 99 ∷ []) false (10 ∷ []))
unfolding getword finish is_space round plain_round store escaped_round escaped_value is_octal hex
    is_xdigit xdigit_value
mixed_word = refl

-- `""` at the end of the file is no word, but it is one before a line end.
empty_lost : getword (34 ∷ 34 ∷ []) ≡ some (at_end false)
unfolding getword finish is_space round plain_round store escaped_round escaped_value is_octal hex
    is_xdigit xdigit_value
empty_lost = refl

empty_kept : getword (34 ∷ 34 ∷ 10 ∷ []) ≡ some (got [] false (10 ∷ []))
unfolding getword finish is_space round plain_round store escaped_round escaped_value is_octal hex
    is_xdigit xdigit_value
empty_kept = refl

getword-Taken_example : Taken 12 (getword mixed)
getword-Taken_example = getword-Taken mixed

-- `# x` and an empty line.
abbrev gap : List Piece
gap = comment (32 ∷ 120 ∷ []) ∷ blank 10 ∷ []

abbrev two_lines : List (List Piece × List ℕ)
two_lines = (gap, 97 ∷ []) ∷ (([], 34 ∷ []) ∷ [])

read_all-print_example : read_all 3 (print two_lines) ≡ some (words two_lines)
unfolding is_gap no_newline is_space
read_all-print_example =
    read_all-print two_lines
      (refl, ((omega arith, tt), (omega arith, (refl, ((omega arith, tt), (omega arith, tt))))))
