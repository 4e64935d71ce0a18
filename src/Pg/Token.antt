-- ===== src/Pg/Token.antt =====
-- slice_db/pg/token.py: `parse_statements` splits a dump into statements at the semicolons that
-- stand outside quotes and comments.
pub mod Grammar
pub mod Loop
pub mod Pieces
mod Tests
use slice_db.Prelude.{
  ℕ, zero, suc, ◌+◌, Str, List, [], ◌∷◌, ◌++◌, Option, none, some, Exn, exception, get_elem?, slice,
  ltb, ◌==◌, if◌then◌else◌,
}

-- _State
pub data State : Type 0 where
  comment comment_start identifier other string string_quote : State

-- The local variables of the loop, and what the generator has yielded.
pub record Scan : Type 0 where
  pub state : State
  pub start : ℕ
  pub i : ℕ
  pub yielded : List Str

abbrev pub newline : ℕ
newline = 10

abbrev pub quote : ℕ
quote = 39

-- What a round of the loop does: go on, leave by `break`, or raise.
pub data Round : Type 0 where
  more : Scan → Round
  stop : List Str → Round
  raise : Exn → Round

abbrev advance : State → Scan → Round
advance st s = more (record s { state = st; i = s.i + 1 })

abbrev stay : State → Scan → Round
stay st s = more (record s { state = st })

-- The branch of `_State.OTHER`.
unfoldable pub step_other : Str → Scan → Option ℕ → Round
step_other text s none =
    if ltb s.start s.i then stop (s.yielded ++ slice text s.start s.i ∷ []) else stop s.yielded
step_other text s (some c) =
    if c == b'-'
    then advance comment_start s
    else if c == quote
    then advance string s
    else if c == b'"'
    then advance identifier s
    else if c == b';'
    then more (record {
      state = s.state;
      start = s.i + 1;
      i = s.i + 1;
      yielded = s.yielded ++ slice text s.start s.i ∷ [];
    })
    else advance other s

-- One round of the loop, at `c = text[i]`, or None past the end.
unfoldable pub step : Str → Scan → State → Option ℕ → Round
unfolding step_other
step text s comment none = advance comment s
step text s comment (some c) = if c == newline then advance other s else advance comment s
step text s comment_start none = stay other s
step text s comment_start (some c) = if c == b'-' then advance comment s else stay other s
step text s identifier none = raise exception
step text s identifier (some c) = if c == b'"' then advance other s else advance identifier s
step text s other c = step_other text s c
step text s string none = raise exception
step text s string (some c) = if c == quote then advance string_quote s else advance string s
step text s string_quote none = stay other s
step text s string_quote (some c) = if c == quote then advance string s else stay other s

pub data Outcome : Type 0 where
  done : List Str → Outcome
  raised : Exn → Outcome
  out_of_fuel : Outcome

abbrev resume : (Scan → Outcome) → Round → Outcome
resume go (more s) = go s
resume go (stop out) = done out
resume go (raise e) = raised e

-- The `while True` loop.
unfoldable pub loop : Str → ℕ → Scan → Outcome
loop text zero s = out_of_fuel
loop text (suc fuel) s = resume (loop text fuel) (step text s s.state (get_elem? text s.i))

abbrev pub begin : Scan
begin = record { state = other; start = 0; i = 0; yielded = [] }

-- list(parse_statements(text)), for a number of rounds
unfoldable pub parse_statements : Str → ℕ → Outcome
unfolding loop step
parse_statements text fuel = loop text fuel begin
