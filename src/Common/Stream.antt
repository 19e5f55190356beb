-- ===== src/Common/Stream.antt =====
-- The input string stream of the C++ library, as far as it is used: words and decimal integers.
use Prim.Native.Nat.{ℕ, ◌+◌, ◌-◌, ◌*◌, ◌^◌}
use mathlib.Core.Bool.{Bool, true, false, ◌||◌}
use mathlib.Core.List.{List, [], ◌∷◌}
use fat_fritz.Common.Tests.{ltb, ◌==◌, if◌then◌else◌}
use fat_fritz.Common.Int.{ℤ, pos, neg}
use fat_fritz.Common.Chars.{is_space, is_digit}

-- The characters left, `eofbit` and `failbit`.
pub record Stream : Type 0 where
  pub rest : List ℕ
  pub eof : Bool
  pub fail : Bool

abbrev pub open_text : List ℕ → Stream
open_text cs = record { rest = cs; eof = false; fail = false }

unfoldable pub drop_spaces : List ℕ → List ℕ
drop_spaces [] = []
drop_spaces (c ∷ cs) = let later = drop_spaces cs in if is_space c then later else c ∷ cs

-- The characters up to a space, what follows, and whether the end was met.
unfoldable pub take_word : List ℕ → List ℕ × List ℕ × Bool
take_word [] = ([], [], true)
take_word (c ∷ cs) =
    let (word, rest, ended) = take_word cs in
    if is_space c then ([], c ∷ cs, false) else (c ∷ word, rest, ended)

abbrev is_empty : List ℕ → Bool
is_empty [] = true
is_empty (_ ∷ _) = false

-- `stream >> word`: the word, or `old` where nothing can be read.
unfoldable pub read_word : List ℕ → Stream → List ℕ × Stream
read_word old s =
    let text = drop_spaces s.rest in
    let (word, rest, ended) = take_word text in
    if s.eof || s.fail
    then (old, record s { fail = true })
    else if is_empty text
    then (old, record { rest = []; eof = true; fail = true })
    else (word, record { rest = rest; eof = ended; fail = false })

-- The digits that come next: their value after `n`, their number, and what follows.
unfoldable pub take_digits : List ℕ → ℕ → ℕ → ℕ × ℕ × List ℕ
take_digits [] n count = (n, count, [])
take_digits (c ∷ cs) n count =
    let later = take_digits cs (n * 10 + (c - b'0')) (count + 1) in
    if is_digit c then later else (n, count, c ∷ cs)

-- A sign, if there is one.
unfoldable pub take_sign : List ℕ → Bool × List ℕ
take_sign [] = (false, [])
take_sign (c ∷ cs) =
    if c == b'-' then (true, cs) else if c == b'+' then (false, cs) else (false, c ∷ cs)

-- `stream >> n` of an `int` of 32 bits. Without a digit the value is 0, out of range it is the
-- nearest limit, and both fail.
unfoldable pub read_int : ℤ → Stream → ℤ × Stream
read_int old s =
    let text = drop_spaces s.rest in
    let (negative, unsigned) = take_sign text in
    let (n, count, rest) = take_digits unsigned 0 0 in
    let limit = if negative then 2 ^ 31 else 2 ^ 31 - 1 in
    let bounded = if ltb limit n then limit else n in
    if s.eof || s.fail
    then (old, record s { fail = true })
    else if is_empty text
    then (old, record { rest = []; eof = true; fail = true })
    else (
      if negative then neg (pos bounded) else pos bounded,
      record { rest = rest; eof = is_empty rest; fail = count == 0 || ltb limit n },
    )
