-- ===== src/Unix.antt =====
-- internal/sandbox/unix/unix.go: the host side of a bind mount. `absolute` is `filepath.Abs`, and
-- `lower_unicode` what `strings.ToLower` does to a text that is not ASCII.
pub mod Drives
use cars.Base.{
  ℕ, ◌+◌, Bool, ◌&&◌, List, [], ◌∷◌, ◌++◌, map, all, Text, txt, split, join, leb, ltb, ◌==◌, ◌≡◌,
  refl, if◌then◌else◌,
}

abbrev pub lower_byte : ℕ → ℕ
lower_byte c = if leb b'A' c && leb c b'Z' then c + 32 else c

abbrev pub is_ascii : Text → Bool
is_ascii s = all (λ c. ltb c 128) s

-- `strings.ToLower`.
unfoldable pub to_lower : (Text → Text) → Text → Text
to_lower lower_unicode s = if is_ascii s then map lower_byte s else lower_unicode s

abbrev pub to_slash : ℕ → ℕ
to_slash c = if c == b'\\' then b'/' else c

-- From the parts of the path between its colons.
unfoldable pub convert_parts : (Text → Text) → List Text → Text
unfolding to_lower
convert_parts lower_unicode [] = []
convert_parts lower_unicode (drive ∷ directory) =
    map to_slash (b'/' ∷ (to_lower lower_unicode drive ++ join [] directory))

-- `ConvertPathToUnix`.
unfoldable pub convert_path_to_unix : (Text → Text) → (Text → Text) → Text → Text
unfolding convert_parts
convert_path_to_unix absolute lower_unicode path =
    convert_parts lower_unicode (split b':' (absolute path))

drive_test : convert_path_to_unix (λ p. p) (λ p. p) (txt "C:\\a\\b") ≡ txt "/c/a/b"
unfolding convert_path_to_unix split join to_lower
drive_test = refl
