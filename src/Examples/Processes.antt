-- ===== src/Examples/Processes.antt =====
-- Lines of /proc/<pid>/stat of a program with 500 pages, one whose name has no space and one whose
-- name has.
use cars.Pid.Platform.{init, init_proc, stat_type, format_std_out, fields, default_constants}
use cars.Base.Map.{lookup}
use cars.Base.{
  some, same, split, ℕ, zero, suc, All-of_all, ◌≡◌, refl, ◌*◌, List, [], ◌∷◌, ◌++◌, Text, txt,
  lacks, arith,
}
use cars.Base.Decimal.{format_nat, parse_int_value, parse_digits, scan_digits}
use cars.Base.Int.{pos}
use cars.Base.Outcome.{ok}
use cars.Pid.{sample_of}
use cars.Pid.Sample.{NoSpaces, line, sample_of_vsize}

-- Some fields that are zero.
abbrev zeros : ℕ → List Text
zeros zero = []
zeros (suc n) = txt "0" ∷ zeros n

spaced : NoSpaces (txt "7" ∷ txt "(my" ∷ txt "app)" ∷ (zeros 20 ++ format_nat 9000000 ∷ zeros 29))
unfolding lacks format_nat
spaced =
    All-of_all (lacks b' ')
      (txt "7" ∷ txt "(my" ∷ txt "app)" ∷ (zeros 20 ++ format_nat 9000000 ∷ zeros 29)) refl

sample_of_vsize_example :
    sample_of (pos 4096) (
      line
        (txt "7" ∷ (txt "(my" ++ b' ' ∷ txt "app)") ∷ (zeros 20 ++ format_nat 9000000 ∷ zeros 29)))
    ≡ ok (record { cpu = pos 0; memory = pos (9000000 * 4096) })
sample_of_vsize_example =
    sample_of_vsize 4096 9000000 (txt "7") (txt "(my") (txt "app)") (zeros 20) (zeros 29) spaced
      refl (omega arith) (omega arith) (omega arith)

page_size_test :
    init (λ t. []) (λ name. some (txt "16384\n")) (txt "linux") default_constants
    ≡ ok (record { clk_tck = pos 16384; page_size = pos 16384 })
unfolding init init_proc stat_type lookup same format_std_out fields split parse_int_value
    parse_digits scan_digits
page_size_test = refl
