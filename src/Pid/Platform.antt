-- ===== src/Pid/Platform.antt =====
-- internal/pid/pid.go: what depends on the platform, and the reading of its constants.
use cars.Base.{
  ℕ, Bool, ◌||◌, ◌&&◌, leb, ltb, ◌==◌, all, Option, none, some, List, [], ◌∷◌, ◌++◌, Text, txt,
  same, split, if◌then◌else◌, get_elem?,
}
use cars.Base.Decimal.{parse_int_value}
use cars.Base.Int.{ℤ, pos}
use cars.Base.Map.{lookup}
use cars.Base.Outcome.{Outcome, ok, err, panic, ◌>>=◌, external, index_out_of_range}
use cars.Pid.{SysInfo, ReadFile, stat_from_proc}

abbrev stat_type_ps : Text
stat_type_ps = txt "ps"

abbrev pub stat_type_proc : Text
stat_type_proc = txt "proc"

-- `fnMapping`.
abbrev fn_mapping : List (Text × Text)
fn_mapping =
    (txt "aix", stat_type_ps)
    ∷ (txt "darwin", stat_type_ps)
    ∷ (txt "freebsd", stat_type_ps)
    ∷ (txt "sunos", stat_type_ps)
    ∷ (txt "linux", stat_type_proc)
    ∷ (txt "netbsd", stat_type_proc)
    ∷ (txt "openbsd", stat_type_proc)
    ∷ (txt "windows", txt "windows")
    ∷ []

abbrev or_no_type : Option Text → Text
or_no_type none = []
or_no_type (some t) = t

-- `fnMapping[platform]`.
unfoldable pub stat_type : Text → Text
stat_type platform = or_no_type (lookup platform fn_mapping)

-- `stat`; `goos` is `runtime.GOOS`.
unfoldable pub stat : (Text → ReadFile) → ℤ → Text → ℕ → Text → Outcome SysInfo
stat read_file page_size goos pid kind =
    let sampled = stat_from_proc read_file page_size pid in
    if same kind stat_type_proc then sampled else err (external (txt "unsupported OS " ++ goos))

-- `GetStat`.
unfoldable pub get_stat : (Text → ReadFile) → ℤ → Text → ℕ → Outcome SysInfo
unfolding stat
get_stat read_file page_size platform pid =
    stat read_file page_size platform pid (stat_type platform)

-- `unicode.IsSpace` on ASCII.
abbrev is_space : ℕ → Bool
is_space c = (leb 9 c && leb c 13) || (c == 32)

abbrev add_word : Text → List Text → List Text
add_word [] ws = ws
add_word (c ∷ w) ws = (c ∷ w) ∷ ws

-- The word that a text begins with, and the words after it.
split_fields : Text → Text × List Text
split_fields [] = ([], [])
split_fields (c ∷ s) =
    let (w, ws) = split_fields s in if is_space c then ([], add_word w ws) else (c ∷ w, ws)

-- `strings.Fields`; `fields_unicode` is what it gives for a text that is not ASCII.
unfoldable pub fields : (Text → List Text) → Text → List Text
unfolding split_fields
fields fields_unicode s =
    let (w, ws) = split_fields s in
    if all (λ c. ltb c 128) s then add_word w ws else fields_unicode s

abbrev fields_of : (Text → List Text) → Option Text → Outcome (List Text)
fields_of fields_unicode none = panic index_out_of_range
fields_of fields_unicode (some line) = ok (fields fields_unicode line)

-- `formatStdOut`, on the platforms that call it, whose lines end by a newline.
unfoldable pub format_std_out : (Text → List Text) → Text → ℕ → Outcome (List Text)
unfolding fields
format_std_out fields_unicode stdout split_index =
    fields_of fields_unicode (get_elem? (split b'\n' stdout) split_index)

-- The package variables `clkTck` and `PageSize`.
pub record Constants : Type 0 where
  pub clk_tck : ℤ
  pub page_size : ℤ

abbrev pub default_constants : Constants
default_constants = record { clk_tck = pos 100; page_size = pos 4096 }

abbrev first_number : List Text → Outcome ℤ
first_number [] = panic index_out_of_range
first_number (f ∷ fs) = ok (parse_int_value f)

-- The output of a `getconf` that has run, or the variable as it is.
abbrev read_constant : (Text → List Text) → Option Text → ℤ → Outcome ℤ
read_constant fields_unicode none before = ok before
read_constant fields_unicode (some stdout) before =
    format_std_out fields_unicode stdout 0 >>= first_number

-- `initProc`, by the outputs of `getconf`.
unfoldable pub init_proc : (Text → List Text) → (Text → Option Text) → Constants → Outcome Constants
unfolding format_std_out
init_proc fields_unicode getconf k = do
  clk_tck ← read_constant fields_unicode (getconf (txt "CLK_TCK")) k.clk_tck
  page_size ← read_constant fields_unicode (getconf (txt "PAGESIZE")) k.page_size
  ok (record { clk_tck = clk_tck; page_size = page_size })

-- `init`.
unfoldable pub init :
    (Text → List Text) → (Text → Option Text) → Text → Constants → Outcome Constants
unfolding init_proc stat_type
init fields_unicode getconf platform k =
    let initialised = init_proc fields_unicode getconf k in
    if same (stat_type platform) stat_type_proc then initialised else ok k
