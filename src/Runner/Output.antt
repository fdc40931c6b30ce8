-- ===== src/Runner/Output.antt =====
-- Reading back what the program wrote: `bufio.ScanLines` and the two loops of `runProject`.
use cars.Base.{
  ℕ, zero, suc, ◌+◌, ◌≤◌, ◌≡◌, refl, true, List, [], ◌∷◌, Text, txt, split, leb, ltb, ◌==◌,
  if◌then◌else◌, ap, length, take, length-take-le, arith,
}

-- `bufio.MaxScanTokenSize`: a line that fills the buffer ends the scan.
abbrev pub max_scan_token_size : ℕ
max_scan_token_size = 65536

-- `bufio.dropCR`: a line without a carriage return at its end.
unfoldable pub drop_cr : Text → Text
drop_cr [] = []
drop_cr (c ∷ []) = if c == b'\r' then [] else c ∷ []
drop_cr (c ∷ d ∷ s) = c ∷ drop_cr (d ∷ s)

-- The tokens of the scanner, from the pieces between the newlines. Behind the last newline an
-- empty piece is no line.
unfoldable pub scan_pieces : List Text → List Text
unfolding drop_cr
scan_pieces [] = []
scan_pieces ([] ∷ []) = []
scan_pieces ((c ∷ s) ∷ []) =
    if leb max_scan_token_size (length (c ∷ s)) then [] else drop_cr (c ∷ s) ∷ []
scan_pieces (p ∷ q ∷ ps) =
    let rest = scan_pieces (q ∷ ps) in
    if leb max_scan_token_size (length p) then [] else drop_cr p ∷ rest

unfoldable pub scan_lines : Text → List Text
unfolding scan_pieces
scan_lines text = scan_pieces (split b'\n' text)

abbrev pub max_lines : ℕ
max_lines = 1000

-- The loops that fill `outputLines` and `outputErrLines`, from the count of lines taken so far.
unfoldable pub collect_lines : ℕ → List Text → List Text
collect_lines count [] = []
collect_lines count (line ∷ rest) =
    let more = collect_lines (count + 1) rest in
    line ∷ (if leb max_lines (count + 1) then [] else more)

collect_lines-take :
    (k count : ℕ) (ls : List Text)
    → count + k ≡ max_lines
    → ltb 0 k ≡ true
    → collect_lines count ls ≡ take k ls
unfolding collect_lines
collect_lines-take zero count ls e h = ground arith
collect_lines-take (suc k) count [] e h = refl
collect_lines-take (suc zero) count (l ∷ ls) e h = ground arith
collect_lines-take (suc (suc k)) count (l ∷ ls) e h =
    ground (arith, collect_lines-take (suc k) (count + 1) ls)

-- The loop keeps the first thousand lines.
pub collect_lines_lem : (ls : List Text) → collect_lines 0 ls ≡ take max_lines ls
collect_lines_lem ls = collect_lines-take max_lines 0 ls refl refl

pub length-collect_lines : (ls : List Text) → length (collect_lines 0 ls) ≤ max_lines
length-collect_lines ls =
    omega (arith, ap length (collect_lines_lem ls), length-take-le max_lines ls)

crlf_lines : scan_lines (txt "a\r\nb\n") ≡ txt "a" ∷ txt "b" ∷ []
unfolding scan_lines split
crlf_lines = refl
