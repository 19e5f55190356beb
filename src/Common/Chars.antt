-- ===== src/Common/Chars.antt =====
-- Classes of characters in the C locale, for texts of ASCII characters.
use Prim.Native.Nat.{ℕ, ◌+◌}
use mathlib.Core.Bool.{Bool, ◌&&◌, ◌||◌}
use fat_fritz.Common.Tests.{leb, ◌==◌, if◌then◌else◌}

-- isspace.
abbrev pub is_space : ℕ → Bool
is_space c = leb 9 c && leb c 13 || c == 32

-- isdigit.
abbrev pub is_digit : ℕ → Bool
is_digit c = leb b'0' c && leb c b'9'

-- isupper.
abbrev pub is_upper : ℕ → Bool
is_upper c = leb b'A' c && leb c b'Z'

-- islower.
abbrev pub is_lower : ℕ → Bool
is_lower c = leb b'a' c && leb c b'z'

-- tolower.
abbrev pub to_lower : ℕ → ℕ
to_lower c = if is_upper c then c + 32 else c
