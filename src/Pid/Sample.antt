-- ===== src/Pid/Sample.antt =====
-- Which field of a line of /proc/<pid>/stat the sample is.
use cars.Base.{
  ℕ, suc, ◌+◌, ◌≡◌, ◌≤◌, ◌<◌, ◌∙◌, refl, ap, true, some, List, [], ◌∷◌, ◌++◌, Text, split,
  split-join, join, lacks, length, length-append, get_elem?, All, arith, ◌^◌, ◌*◌,
}
use mathlib.Core.List.{append_assoc}
use cars.Base.Decimal.{format_nat, parse_int_value, parse_int_value-format_nat}
use cars.Base.Int.{ℤ, pos, int64, int64-pos, ◌*ℤ◌}
use cars.Base.Outcome.{ok}
use cars.Pid.{sample_of}

-- Fields as the kernel writes them, with no space inside.
abbrev pub NoSpaces : List Text → Type 0
NoSpaces = All (λ s. lacks b' ' s ≡ true)

get_elem?-middle :
    (p : List Text) (x : Text) (rest : List Text) → get_elem? (p ++ x ∷ rest) (length p) ≡ some x
get_elem?-middle [] x rest = refl
get_elem?-middle (y ∷ p) x rest = get_elem?-middle p x rest

-- The line of some fields.
abbrev pub line : List Text → Text
line fields = join (b' ' ∷ []) fields

split-line :
    (fields : List Text) → NoSpaces fields → 0 < length fields → split b' ' (line fields) ≡ fields
split-line [] h pos_len = absurd (omega arith)
split-line (f ∷ fs) h pos_len = split-join b' ' f fs h

length-middle :
    (p : List Text) (x : Text) (rest : List Text)
    → length (p ++ x ∷ rest) ≡ length p + suc (length rest)
length-middle p x rest = length-append p (x ∷ rest)

sample_of-field :
    (page_size : ℤ) (before : List Text) (x : Text) (rest : List Text)
    → NoSpaces (before ++ x ∷ rest)
    → length before ≡ 23
    → 28 ≤ length rest
    → sample_of page_size (line (before ++ x ∷ rest))
      ≡ ok (record { cpu = pos 0; memory = int64 (parse_int_value x *ℤ page_size) })
unfolding sample_of
sample_of-field page_size before x rest h n m =
    let fields = split-line (before ++ x ∷ rest) h (omega (arith, length-middle before x rest)) in
    let found : get_elem? (before ++ x ∷ rest) 23 ≡ some x =
      rw (← n) (get_elem?-middle before x rest) in
    rw (fields, sample_of) (rw found (ground (arith, length-middle before x rest)))

-- On a line of at least 52 fields without spaces, the 24th of which is a number of pages `rss`, the
-- sample is the memory of that many pages, as long as it is an `int64`.
pub sample_of_rss :
    (page_size rss : ℕ) (before rest : List Text)
    → NoSpaces (before ++ format_nat rss ∷ rest)
    → length before ≡ 23
    → 28 ≤ length rest
    → rss * page_size < 2 ^ 63
    → rss < 2 ^ 63
    → sample_of (pos page_size) (line (before ++ format_nat rss ∷ rest))
      ≡ ok (record { cpu = pos 0; memory = pos (rss * page_size) })
unfolding ◌*ℤ◌
sample_of_rss page_size rss before rest h n m bound small =
    sample_of-field (pos page_size) before (format_nat rss) rest h n m
    ∙ rw (parse_int_value-format_nat rss small) (rw (int64-pos (rss * page_size) bound) refl)

join_spaced : (a b : Text) (r : List Text) → line ((a ++ b' ' ∷ b) ∷ r) ≡ line (a ∷ b ∷ r)
unfolding join
join_spaced a b [] = refl
join_spaced a b (y ∷ r) = append_assoc a (b' ' ∷ b) (b' ' ∷ line (y ∷ r))

line_spaced :
    (pid a b : Text) (r : List Text) → line (pid ∷ (a ++ b' ' ∷ b) ∷ r) ≡ line (pid ∷ a ∷ b ∷ r)
unfolding join
line_spaced pid a b r = ap (λ t. pid ++ b' ' ∷ t) (join_spaced a b r)

-- If the name of the program, the second field of the line, has one space in it, the sample is
-- taken from the 23rd field, the virtual size `vsize`, and multiplies it by the size of a page.
pub sample_of_vsize :
    (page_size vsize : ℕ) (pid a b : Text) (before rest : List Text)
    → NoSpaces (pid ∷ a ∷ b ∷ (before ++ format_nat vsize ∷ rest))
    → length before ≡ 20
    → 28 ≤ length rest
    → vsize * page_size < 2 ^ 63
    → vsize < 2 ^ 63
    → sample_of (pos page_size) (line (pid ∷ (a ++ b' ' ∷ b) ∷ (before ++ format_nat vsize ∷ rest)))
      ≡ ok (record { cpu = pos 0; memory = pos (vsize * page_size) })
sample_of_vsize page_size vsize pid a b before rest h n m bound small =
    ap (sample_of (pos page_size)) (line_spaced pid a b (before ++ format_nat vsize ∷ rest))
    ∙ sample_of_rss page_size vsize (pid ∷ a ∷ b ∷ before) rest h (omega arith) m bound small
