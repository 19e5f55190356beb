-- ===== src/Chess/Uci/Accepted.antt =====
-- The lines that ParseCommand accepts.
use fat_fritz.Common.{
  ℕ, Bool, true, false, List, [], ◌∷◌, Option, none, some, ◌≡◌, refl, ◌∙◌, Bool-cases, inl, inr,
}
use fat_fritz.Common.Result.{Result, ok, err, ◌>>=◌}
use fat_fritz.Chess.Uci.{
  UciError, known_commands, find_command, is_keyword, tokens, Params, append_to, parse_tokens,
  parse_command_tokens, parse_line, parse_command,
}

abbrev pub is_ok : {E A : Type 0} → Result E A → Bool
is_ok (ok a) = true
is_ok (err e) = false

abbrev first_is_keyword : List (List ℕ) → List (List ℕ) → Bool
first_is_keyword keywords [] = true
first_is_keyword keywords (token ∷ _) = is_keyword token keywords

-- A line without a word, or with a known command whose first parameter, if there is one, is one of
-- its keywords.
abbrev pub is_wellformed : List (List ℕ) → Bool
is_wellformed [] = true
is_wellformed (command ∷ later) = elim (find_command command known_commands) [
  | none ↦ false
  | some keywords ↦ first_is_keyword keywords later
]

-- Once there is a key, every token is taken.
is_ok-keyed :
    (keywords later : List (List ℕ)) (key : List ℕ) (whitespace : Bool) (params : Params)
    → is_ok (parse_tokens keywords later (some key) whitespace params) ≡ true
unfolding parse_tokens
is_ok-keyed keywords [] key whitespace params = refl
is_ok-keyed keywords (token ∷ later) key whitespace params =
    elim (Bool-cases (is_keyword token keywords)) [
      | inl on ↦ rw (on) (is_ok-keyed keywords later token false (append_to token [] params))
      | inr off ↦ rw (off) (is_ok-keyed keywords later key true _)
    ]

is_ok-parse_tokens :
    (keywords later : List (List ℕ))
    → is_ok (parse_tokens keywords later none false []) ≡ first_is_keyword keywords later
unfolding parse_tokens
is_ok-parse_tokens keywords [] = refl
is_ok-parse_tokens keywords (token ∷ later) = elim (Bool-cases (is_keyword token keywords)) [
  | inl on ↦ rw (on) (is_ok-keyed keywords later token false (append_to token [] []))
  | inr off ↦ rw (off) refl
]

is_ok-bind :
    {A B : Type 0} (f : A → B) (m : Result UciError A) → is_ok (m >>= λ a. ok (f a)) ≡ is_ok m
is_ok-bind f (ok a) = refl
is_ok-bind f (err e) = refl

is_ok-command :
    (command : List ℕ) (later : List (List ℕ)) (o : Option (List (List ℕ)))
    → is_ok (parse_command_tokens command later o)
      ≡ elim o [ none ↦ false | some keywords ↦ first_is_keyword keywords later ]
unfolding parse_command_tokens
is_ok-command command later none = refl
is_ok-command command later (some keywords) =
    is_ok-bind (λ params. (command, params)) (parse_tokens keywords later none false [])
    ∙ is_ok-parse_tokens keywords later

is_ok-parse_line : (ts : List (List ℕ)) → is_ok (parse_line ts) ≡ is_wellformed ts
unfolding parse_line
is_ok-parse_line [] = refl
is_ok-parse_line (command ∷ later) =
    is_ok-command command later (find_command command known_commands)

-- ParseCommand accepts a line exactly when it has no word, or its first word is a known command
-- and the second, if there is one, is a keyword of that command; for every other line it throws.
pub is_ok-parse_command : (line : List ℕ) → is_ok (parse_command line) ≡ is_wellformed (tokens line)
unfolding parse_command
is_ok-parse_command line = is_ok-parse_line (tokens line)
