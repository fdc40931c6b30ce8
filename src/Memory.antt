-- ===== src/Memory.antt =====
-- internal/memory/memory.go: amounts of memory in bytes, as `int64`.
use cars.Base.{ℕ, ◌*◌}
use cars.Base.Int.{ℤ, pos}

abbrev pub Memory : Type 0
Memory = ℤ

abbrev pub byte : ℕ
byte = 1

abbrev pub kilobyte : ℕ
kilobyte = 1024 * byte

abbrev pub megabyte : ℕ
megabyte = 1024 * kilobyte

abbrev pub gigabyte : ℕ
gigabyte = 1024 * megabyte

-- `Memory.Bytes`.
abbrev pub bytes : Memory → ℤ
bytes d = d

abbrev pub one_byte : Memory
one_byte = pos byte

-- `Memory.Kilobytes`, `Memory.Megabytes` and `Memory.Gigabytes`: a `float64` is given as the
-- quotient that it stands for, exact for amounts below 2^53 bytes.
abbrev pub kilobytes : Memory → ℤ × ℕ
kilobytes d = (d, kilobyte)

abbrev pub megabytes : Memory → ℤ × ℕ
megabytes d = (d, megabyte)

abbrev pub gigabytes : Memory → ℤ × ℕ
gigabytes d = (d, gigabyte)
