-- ===== src/Pg/Token/Grammar.antt =====
-- The lexical grammar that `parse_statements` follows, one character at a time, and the split of a
-- text by it: an independent description of the loop over indices.
use slice_db.Prelude.{ℕ, Str, List, [], ◌∷◌, ◌++◌, Bool, false, exception, ◌==◌, if◌then◌else◌}
use slice_db.Pg.Token.{
  State, comment, comment_start, identifier, other, string, string_quote, Outcome, done, raised,
  out_of_fuel, newline, quote,
}

-- The state after a character that is read outside quotes and comments.
abbrev pub open_at : ℕ → State
open_at c =
    if c == b'-'
    then comment_start
    else if c == quote
    then string
    else if c == b'"'
    then identifier
    else other

unfoldable pub next : State → ℕ → State
next comment c = if c == newline then other else comment
next comment_start c = if c == b'-' then comment else open_at c
next identifier c = if c == b'"' then other else identifier
next other c = open_at c
next string c = if c == quote then string_quote else string
next string_quote c = if c == quote then string else open_at c

-- A semicolon ends a statement in these states.
unfoldable pub cuts : State → ℕ → Bool
cuts comment c = false
cuts identifier c = false
cuts string c = false
cuts _ c = c == b';'

unfoldable pub ends : State → Str → State
unfolding next
ends st [] = st
ends st (c ∷ cs) = ends (next st c) cs

abbrev pub last_piece : Str → List Str
last_piece [] = []
last_piece (c ∷ cs) = (c ∷ cs) ∷ []

-- What happens at the end of the text.
unfoldable pub finish : State → Str → List Str → Outcome
finish comment cur out = out_of_fuel
finish identifier cur out = raised exception
finish string cur out = raised exception
finish _ cur out = done (out ++ last_piece cur)

unfoldable pub split : State → Str → List Str → Str → Outcome
split st cur out [] = finish st cur out
split st cur out (c ∷ cs) =
    let cut = split other [] (out ++ cur ∷ []) cs in
    let keep = split (next st c) (cur ++ c ∷ []) out cs in if cuts st c then cut else keep
