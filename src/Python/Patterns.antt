-- ===== src/Python/Patterns.antt =====
-- The character classes and the shapes that the program's regular expressions name.
use milhouse_oss.Prelude.{
  ℕ, Bool, true, false, ◌&&◌, ◌||◌, [], ◌∷◌, leb, ◌==◌, if◌then◌else◌, all, length, Text, codes,
}

abbrev pub between : ℕ → ℕ → ℕ → Bool
between low high c = leb low c && leb c high

abbrev pub is_digit : ℕ → Bool
is_digit c = between b'0' b'9' c

abbrev pub is_alphanumeric : ℕ → Bool
is_alphanumeric c = between b'A' b'Z' c || between b'a' b'z' c || is_digit c

abbrev pub is_name_character : ℕ → Bool
is_name_character c = is_alphanumeric c || (c == b'.') || (c == b'_') || (c == b'-')

-- `[A-Za-z0-9][A-Za-z0-9._-]{0,n}`
unfoldable pub is_name : ℕ → Text → Bool
is_name n [] = false
is_name n (c ∷ s) = is_alphanumeric c && leb (length s) n && all is_name_character s

abbrev pub is_hex : ℕ → Bool
is_hex c = is_digit c || between b'a' b'f' c

-- `[0-9a-f]{64}`
unfoldable pub is_sha256_hex : Text → Bool
is_sha256_hex s = (length s == 64) && all is_hex s

-- A text in the shape of a template, in which `d` stands for a digit.
unfoldable pub fits : Text → Text → Bool
fits [] [] = true
fits [] (c ∷ s) = false
fits (p ∷ ps) [] = false
fits (p ∷ ps) (c ∷ s) = let rest = fits ps s in (if p == b'd' then is_digit c else p == c) && rest

-- `[0-9]{4}-[0-9]{2}-[0-9]{2}T[0-9]{2}:[0-9]{2}:[0-9]{2}\.[0-9]{3}Z`
unfoldable pub is_stamp : Text → Bool
unfolding fits
is_stamp s = fits (codes "dddd-dd-ddTdd:dd:dd.dddZ") s
