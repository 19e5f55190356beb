-- ===== src/Chess/Uci.antt =====
-- The reading of a command in src/chess/uciloop.cc.
pub mod Accepted
use Prim.Native.Char.{code}
use Prim.Native.String.{String}
use fat_fritz.Common.{
  ℕ, ◌==◌, Bool, true, false, not, ◌&&◌, ◌||◌, if◌then◌else◌, List, [], ◌∷◌, ◌++◌, Option, none,
  some,
}
use fat_fritz.Common.Chars.{is_space}
use fat_fritz.Common.Result.{Result, ok, err, ◌>>=◌}

-- The characters of a string constant.
abbrev text : String → List ℕ
text String.[] = []
text (String.◌∷◌ c later) = code c ∷ text later

unfoldable pub same_text : List ℕ → List ℕ → Bool
same_text [] [] = true
same_text [] (y ∷ ys) = false
same_text (x ∷ xs) [] = false
same_text (x ∷ xs) (y ∷ ys) = x == y && same_text xs ys

-- The texts of the exceptions.
pub data UciError : Type 0 where
  unknown_command unexpected_token : UciError

-- kKnownCommands: the commands, each with its keywords.
abbrev pub known_commands : List (List ℕ × List (List ℕ))
known_commands =
    (text "uci", [])
    ∷ (text "isready", [])
    ∷ (text "setoption", text "context" ∷ text "name" ∷ text "value" ∷ [])
    ∷ (text "ucinewgame", [])
    ∷ (text "position", text "fen" ∷ text "startpos" ∷ text "moves" ∷ [])
    ∷ (
      text "go",
      text "infinite"
          ∷ text "wtime"
          ∷ text "btime"
          ∷ text "winc"
          ∷ text "binc"
          ∷ text "movestogo"
          ∷ text "depth"
          ∷ text "nodes"
          ∷ text "movetime"
          ∷ text "searchmoves"
          ∷ text "ponder"
          ∷ [],
    )
    ∷ (text "start", [])
    ∷ (text "stop", [])
    ∷ (text "ponderhit", [])
    ∷ (text "quit", [])
    ∷ (text "xyzzy", [])
    ∷ []

-- `find` in the table.
unfoldable pub find_command : List ℕ → List (List ℕ × List (List ℕ)) → Option (List (List ℕ))
find_command token [] = none
find_command token (entry ∷ entries) =
    let rest = find_command token entries in if same_text token entry.0 then some entry.1 else rest

unfoldable pub is_keyword : List ℕ → List (List ℕ) → Bool
is_keyword token [] = false
is_keyword token (k ∷ ks) = same_text token k || is_keyword token ks

abbrev starts_word : List ℕ → Bool
starts_word [] = false
starts_word (c ∷ _) = not (is_space c)

abbrev before_first : ℕ → List (List ℕ) → List (List ℕ)
before_first c [] = (c ∷ []) ∷ []
before_first c (w ∷ ws) = (c ∷ w) ∷ ws

-- The tokens that `iss >> token` reads until it fails.
unfoldable pub tokens : List ℕ → List (List ℕ)
tokens [] = []
tokens (c ∷ cs) =
    let rest = tokens cs in
    if is_space c then rest else if starts_word cs then before_first c rest else (c ∷ []) ∷ rest

-- The parameters, each with its text.
abbrev pub Params : Type 0
Params = List (List ℕ × List ℕ)

-- `params[key]`, with more text behind the old; a key that is not there is added.
unfoldable pub append_to : List ℕ → List ℕ → Params → Params
append_to key more [] = (key, more) ∷ []
append_to key more (p ∷ ps) =
    let rest = append_to key more ps in
    if same_text key p.0 then (p.0, p.1 ++ more) ∷ ps else p ∷ rest

-- The loop over the tokens: `value` is the key that the next text goes to, `whitespace` whether a space
-- comes first.
unfoldable pub parse_tokens :
    List (List ℕ) → List (List ℕ) → Option (List ℕ) → Bool → Params → Result UciError Params
parse_tokens keywords [] value whitespace params = ok params
parse_tokens keywords (token ∷ later) none whitespace params =
    let known = parse_tokens keywords later (some token) false (append_to token [] params) in
    if is_keyword token keywords then known else err unexpected_token
parse_tokens keywords (token ∷ later) (some key) whitespace params =
    let known = parse_tokens keywords later (some token) false (append_to token [] params) in
    let more =
      parse_tokens keywords later (some key) true
        (append_to key (if whitespace then b' ' ∷ token else token) params) in
    if is_keyword token keywords then known else more

unfoldable pub parse_command_tokens :
    List ℕ → List (List ℕ) → Option (List (List ℕ)) → Result UciError (List ℕ × Params)
parse_command_tokens command later none = err unknown_command
parse_command_tokens command later (some keywords) =
    parse_tokens keywords later none false [] >>= λ params. ok (command, params)

unfoldable pub parse_line : List (List ℕ) → Result UciError (List ℕ × Params)
parse_line [] = ok ([], [])
parse_line (command ∷ later) =
    parse_command_tokens command later (find_command command known_commands)

-- ParseCommand(line).
unfoldable pub parse_command : List ℕ → Result UciError (List ℕ × Params)
parse_command line = parse_line (tokens line)

-- GetOrEmpty(params, key).
unfoldable pub get_or_empty : Params → List ℕ → List ℕ
get_or_empty [] key = []
get_or_empty (p ∷ ps) key =
    let rest = get_or_empty ps key in if same_text key p.0 then p.1 else rest

-- ContainsKey(params, key).
unfoldable pub contains_key : Params → List ℕ → Bool
contains_key [] key = false
contains_key (p ∷ ps) key = same_text key p.0 || contains_key ps key
