-- ===== src/Chess/Tests/Uci.antt =====
-- Commands on concrete lines.
use Prim.Native.Char.{code}
use Prim.Native.String.{String}
use fat_fritz.Common.{ℕ, List, [], ◌∷◌, ◌≡◌, refl}
use fat_fritz.Common.Result.{ok}
use fat_fritz.Chess.Uci.{
  same_text, find_command, is_keyword, tokens, append_to, parse_tokens, parse_command_tokens,
  parse_line, parse_command,
}
use fat_fritz.Chess.Uci.Accepted.{is_ok, is_wellformed, is_ok-parse_command}

abbrev characters : String → List ℕ
characters String.[] = []
characters (String.◌∷◌ c later) = code c ∷ characters later

go_line :
    parse_command (characters " go  wtime 50 searchmoves e2e4  d2d4")
    ≡ ok (
      characters "go",
      (characters "wtime", characters "50")
          ∷ (characters "searchmoves", characters "e2e4 d2d4")
          ∷ [],
    )
unfolding parse_command parse_line parse_command_tokens parse_tokens append_to tokens is_keyword
    find_command same_text
go_line = refl

is_ok-parse_command_example :
    is_ok (parse_command (characters "go 50 wtime"))
    ≡ is_wellformed (tokens (characters "go 50 wtime"))
is_ok-parse_command_example = is_ok-parse_command (characters "go 50 wtime")
