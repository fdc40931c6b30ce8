-- ===== src/Unix/Drives.antt =====
-- Paths with and without a drive letter.
use cars.Base.{
  ℕ, ◌+◌, ◌≤◌, ◌==◌, ◌≡◌, ◌∙◌, refl, sym, ap, inl, inr, Bool-cases, true, List, [], ◌∷◌, ◌++◌, map,
  Text, split, split-cons, split-lacks, split-append, join, join-push_front, lacks, arith,
}
use cars.Unix.{lower_byte, is_ascii, to_lower, to_slash, convert_parts, convert_path_to_unix}

to_slash-lower :
    (s t : Text)
    → lacks b'\\' s ≡ true
    → map to_slash (map lower_byte s ++ t) ≡ map lower_byte s ++ map to_slash t
unfolding lacks
to_slash-lower [] t h = refl
to_slash-lower (c ∷ s) t h = ground (arith, to_slash-lower s t)

convert_parts-drive :
    (lower_unicode : Text → Text) (drive : Text) (rest : List Text)
    → is_ascii drive ≡ true
    → lacks b'\\' drive ≡ true
    → convert_parts lower_unicode (drive ∷ rest)
      ≡ b'/' ∷ (map lower_byte drive ++ map to_slash (join [] rest))
unfolding convert_parts to_lower
convert_parts-drive lower_unicode drive rest a h =
    ground (arith, to_slash-lower drive (join [] rest))

append_nil : (s : Text) → s ++ [] ≡ s
append_nil [] = refl
append_nil (c ∷ s) = ap (◌∷◌ c) (append_nil s)

pub convert_path_to_unix-plain :
    (absolute lower_unicode : Text → Text) (path whole : Text)
    → is_ascii whole ≡ true
    → lacks b'\\' whole ≡ true
    → lacks b':' whole ≡ true
    → absolute path ≡ whole
    → convert_path_to_unix absolute lower_unicode path ≡ b'/' ∷ map lower_byte whole
unfolding convert_path_to_unix join
convert_path_to_unix-plain absolute lower_unicode path whole a h n e =
    rw (e, convert_path_to_unix)
      (rw (split-lacks b':' whole n) (
        convert_parts-drive lower_unicode whole [] a h
        ∙ ap (◌∷◌ b'/') (append_nil (map lower_byte whole))))

-- A slash for every backslash: the parts between the backslashes, joined by slashes.
join-to_slash : (s : Text) → map to_slash s ≡ join (b'/' ∷ []) (split b'\\' s)
unfolding split join
join-to_slash [] = refl
join-to_slash (c ∷ s) =
    let (p, ps, e) = split-cons b'\\' s in
    let ih : map to_slash s ≡ join (b'/' ∷ []) (p ∷ ps) = rw (← e) (join-to_slash s) in
    elim (Bool-cases (c == b'\\')) [
      | inl hit ↦ rw (hit, e) (ap (◌∷◌ b'/') ih)
      | inr miss ↦ rw (miss, e) (ap (◌∷◌ c) ih ∙ sym (join-push_front (b'/' ∷ []) c p ps))
    ]

letter_lower : (c : ℕ) → b'A' ≤ c → c ≤ b'Z' → lower_byte c ≡ c + 32
letter_lower c h k = ground arith

letter-lacks :
    (c : ℕ)
    → b'A' ≤ c
    → c ≤ b'Z'
    → (is_ascii (c ∷ []) ≡ true) × (lacks b'\\' (c ∷ []) ≡ true) × (lacks b':' (c ∷ []) ≡ true)
unfolding lacks
letter-lacks c h k = (ground arith, ground arith, ground arith)

-- Let a path be a drive letter from A to Z, a colon and a directory without a colon when it is made
-- absolute: it becomes a slash, the small letter (32 places after the capital), and the names between
-- the backslashes of the directory with slashes between them. A path that is ASCII, without a colon
-- and without a backslash when it is made absolute becomes a slash and the whole absolute path in
-- lower case.
pub convert_path_to_unix_lem :
    (absolute lower_unicode : Text → Text) (path plain directory whole : Text) (letter : ℕ)
    → b'A' ≤ letter
    → letter ≤ b'Z'
    → lacks b':' directory ≡ true
    → absolute path ≡ letter ∷ b':' ∷ directory
    → is_ascii whole ≡ true
    → lacks b'\\' whole ≡ true
    → lacks b':' whole ≡ true
    → absolute plain ≡ whole
    → (convert_path_to_unix absolute lower_unicode path
        ≡ b'/' ∷ (letter + 32) ∷ join (b'/' ∷ []) (split b'\\' directory))
      × (convert_path_to_unix absolute lower_unicode plain ≡ b'/' ∷ map lower_byte whole)
unfolding convert_path_to_unix join
convert_path_to_unix_lem absolute lower_unicode path plain directory whole letter low high m e a h n
      f =
    let (ascii, slashes, colons) = letter-lacks letter low high in
    (
      rw (e, convert_path_to_unix)
          (rw (split-append b':' (letter ∷ []) directory colons, split-lacks b':' directory m)
            (convert_parts-drive lower_unicode (letter ∷ []) (directory ∷ []) ascii slashes
              ∙ ap (λ c. b'/' ∷ c ∷ map to_slash directory) (letter_lower letter low high)
              ∙ ap (λ t. b'/' ∷ (letter + 32) ∷ t) (join-to_slash directory))),
      convert_path_to_unix-plain absolute lower_unicode plain whole a h n f,
    )
