-- ===== src/Pg/Token/Loop.antt =====
-- The loop over indices does what the grammar says, and ends unless the text ends in a comment.
use mathlib.Core.List.{append_assoc, append-nil}
use slice_db.Prelude.{
  ℕ, zero, suc, ◌+◌, ◌*◌, ◌-◌, ◌≤◌, ◌≡◌, refl, sym, ap, ◌∙◌, ◌≢◌, Str, List, [], ◌∷◌, ◌++◌, Option,
  none, some, get_elem?, slice, length, arith, length-append, get_elem?-length, take-length,
  drop-length,
}
use slice_db.Pg.Token.{
  State, comment, comment_start, identifier, other, string, string_quote, Scan, out_of_fuel, step,
  loop, resume, begin, parse_statements,
}
use slice_db.Pg.Token.Grammar.{next, cuts, ends, finish, split}

-- Where the loop stands: `before` is behind `start`, `cur` has been read since, `rest` is to come.
record At (text : Str) (s : Scan) (cur rest : Str) : Type 0 where
  before : Str
  parts : text ≡ before ++ (cur ++ rest)
  start : s.start ≡ length before
  i : s.i ≡ length before + length cur

module _ (text : Str) {s : Scan} {cur : Str} where
  At-read : (rest : Str) → At text s cur rest → get_elem? text s.i ≡ get_elem? rest 0
  At-read rest at =
      rw (at.parts, at.i, ← append_assoc at.before cur rest, ← length-append at.before cur)
        (get_elem?-length (at.before ++ cur) rest)

  At-slice : (rest : Str) → At text s cur rest → slice text s.start s.i ≡ cur
  At-slice rest at =
      let e : length at.before + length cur - length at.before ≡ length cur = omega arith in
      rw (at.parts, at.i, at.start, drop-length at.before (cur ++ rest), e) (take-length cur rest)

  At-advance :
      (c : ℕ) (rest : Str) (st : State)
      → At text s cur (c ∷ rest)
      → At text (record s { state = st; i = s.i + 1 }) (cur ++ c ∷ []) rest
  At-advance c rest st at = record {
    before = at.before;
    parts = at.parts ∙ ap (λ t. at.before ++ t) (sym (append_assoc cur (c ∷ []) rest));
    start = at.start;
    i = omega (arith, at.i, length-append cur (c ∷ []));
  }

  At-cut :
      (c : ℕ) (rest : Str) (st : State) (out : List Str)
      → At text s cur (c ∷ rest)
      → At text (record { state = st; start = s.i + 1; i = s.i + 1; yielded = out }) [] rest
  At-cut c rest st out at = record {
    before = at.before ++ (cur ++ c ∷ []);
    parts = at.parts ∙ simp append_assoc;
    start =
        omega (arith, at.i, length-append cur (c ∷ []), length-append at.before (cur ++ c ∷ []));
    i = omega (arith, at.i, length-append cur (c ∷ []), length-append at.before (cur ++ c ∷ []));
  }

get_elem?-end : (text : Str) (i : ℕ) → length text ≤ i → get_elem? text i ≡ none
get_elem?-end [] i h = refl
get_elem?-end (c ∷ text) zero h = absurd (omega arith)
get_elem?-end (c ∷ text) (suc i) h = get_elem?-end text i (omega arith)

abbrev scan : State → ℕ → ℕ → List Str → Scan
scan st start i out = record { state = st; start = start; i = i; yielded = out }

module _ (text : Str) where
  -- The loop from every position at `rest` follows the grammar.
  abbrev Follows : Str → Type 0
  Follows rest =
      (fuel : ℕ) (st : State) (start i : ℕ) (out : List Str) (cur : Str)
      → At text (scan st start i out) cur rest
      → 2 * length rest + 2 ≤ fuel
      → ends st rest ≢ comment
      → loop text fuel (scan st start i out) ≡ split st cur out rest

  loop-suc :
      (fuel : ℕ) (s : Scan) (o : Option ℕ)
      → get_elem? text s.i ≡ o
      → loop text (suc fuel) s ≡ resume (loop text fuel) (step text s s.state o)
  unfolding loop
  loop-suc fuel s o e = ap (λ t. resume (loop text fuel) (step text s s.state t)) e

  finish_other :
      (fuel : ℕ) (start i : ℕ) (out : List Str) (cur : Str)
      → At text (scan other start i out) cur []
      → loop text (suc fuel) (scan other start i out) ≡ finish other cur out
  unfolding step finish
  finish_other fuel start i out [] at =
      loop-suc fuel _ none (At-read text [] at) ∙ ground (arith, at.start, at.i, append-nil out)
  finish_other fuel start i out (c ∷ cur) at =
      loop-suc fuel _ none (At-read text [] at)
      ∙ ground (arith, at.start, at.i, At-slice text [] at)

  At-state :
      (st st' : State) (start i : ℕ) (out : List Str) (cur rest : Str)
      → At text (scan st start i out) cur rest
      → At text (scan st' start i out) cur rest
  At-state st st' start i out cur rest at = record {
    before = at.before;
    parts = at.parts;
    start = at.start;
    i = at.i;
  }

  Follows-nil : Follows []
  unfolding step finish split ends
  Follows-nil zero st start i out cur at h e = absurd (omega arith)
  Follows-nil (suc fuel) comment start i out cur at h e = absurd (e refl)
  Follows-nil (suc fuel) identifier start i out cur at h e =
      loop-suc fuel _ none (At-read text [] at)
  Follows-nil (suc fuel) string start i out cur at h e = loop-suc fuel _ none (At-read text [] at)
  Follows-nil (suc fuel) other start i out cur at h e = finish_other fuel start i out cur at
  Follows-nil (suc zero) st start i out cur at h e = absurd (omega arith)
  Follows-nil (suc (suc fuel)) comment_start start i out cur at h e =
      loop-suc (suc fuel) _ none (At-read text [] at)
      ∙ finish_other fuel start i out cur (At-state comment_start other start i out cur [] at)
  Follows-nil (suc (suc fuel)) string_quote start i out cur at h e =
      loop-suc (suc fuel) _ none (At-read text [] at)
      ∙ finish_other fuel start i out cur (At-state string_quote other start i out cur [] at)

  module _ (c : ℕ) (cs : Str) (ih : Follows cs) where
    -- Where the character is consumed, the rest follows.
    after :
        (fuel : ℕ) (st st' : State) (start i : ℕ) (out : List Str) (cur : Str)
        → At text (scan st start i out) cur (c ∷ cs)
        → 2 * length cs + 2 ≤ fuel
        → ends st' cs ≢ comment
        → loop text fuel (scan st' start (i + 1) out) ≡ split st' (cur ++ c ∷ []) out cs
    after fuel st st' start i out cur at h e =
        ih fuel st' start (i + 1) out (cur ++ c ∷ []) (At-advance text c cs st' at) h e

    other_cons :
        (fuel : ℕ) (start i : ℕ) (out : List Str) (cur : Str)
        → At text (scan other start i out) cur (c ∷ cs)
        → 2 * length cs + 2 ≤ fuel
        → ends (next other c) cs ≢ comment
        → loop text (suc fuel) (scan other start i out) ≡ split other cur out (c ∷ cs)
    unfolding step split next cuts
    other_cons fuel start i out cur at h e =
        let a = after fuel other (next other c) start i out cur at h e in
        let b =
          ih fuel other (i + 1) (i + 1) (out ++ cur ∷ []) []
            (At-cut text c cs other (out ++ cur ∷ []) at) h in
        loop-suc fuel _ (some c) (At-read text (c ∷ cs) at)
        ∙ ground (arith, a, b, At-slice text (c ∷ cs) at)

    Follows-cons : Follows (c ∷ cs)
    unfolding step split next cuts ends
    Follows-cons zero st start i out cur at h e = absurd (omega arith)
    Follows-cons (suc zero) st start i out cur at h e = absurd (omega arith)
    Follows-cons (suc (suc fuel)) comment start i out cur at h e =
        loop-suc (suc fuel) _ (some c) (At-read text (c ∷ cs) at)
        ∙ ground
            (arith, after (suc fuel) comment (next comment c) start i out cur at (omega arith) e)
    Follows-cons (suc (suc fuel)) identifier start i out cur at h e =
        loop-suc (suc fuel) _ (some c) (At-read text (c ∷ cs) at)
        ∙ ground (
          arith,
          after (suc fuel) identifier (next identifier c) start i out cur at (omega arith) e,
        )
    Follows-cons (suc (suc fuel)) string start i out cur at h e =
        loop-suc (suc fuel) _ (some c) (At-read text (c ∷ cs) at)
        ∙ ground (arith, after (suc fuel) string (next string c) start i out cur at (omega arith) e)
    Follows-cons (suc (suc fuel)) other start i out cur at h e =
        other_cons (suc fuel) start i out cur at (omega arith) e
    Follows-cons (suc (suc fuel)) comment_start start i out cur at h e =
        let at' = At-state comment_start other start i out cur (c ∷ cs) at in
        loop-suc (suc fuel) _ (some c) (At-read text (c ∷ cs) at)
        ∙ ground (
          arith,
          after (suc fuel) comment_start comment start i out cur at (omega arith),
          other_cons fuel start i out cur at' (omega arith),
        )
    Follows-cons (suc (suc fuel)) string_quote start i out cur at h e =
        let at' = At-state string_quote other start i out cur (c ∷ cs) at in
        loop-suc (suc fuel) _ (some c) (At-read text (c ∷ cs) at)
        ∙ ground (
          arith,
          after (suc fuel) string_quote string start i out cur at (omega arith),
          other_cons fuel start i out cur at' (omega arith),
        )

  Follows-all : (rest : Str) → Follows rest
  Follows-all [] = Follows-nil
  Follows-all (c ∷ cs) = Follows-cons c cs (Follows-all cs)

  -- In a comment at the end of the text every round goes on: `c` is None, and `i` grows for ever.
  spin :
      (fuel start i : ℕ) (out : List Str) (cur : Str)
      → length text ≤ i
      → loop text fuel (scan comment start i out) ≡ out_of_fuel
  unfolding loop step
  spin zero start i out cur h = refl
  spin (suc fuel) start i out cur h =
      rw (get_elem?-end text i h, spin fuel start (i + 1) out cur (omega arith))

  abbrev Spins : Str → Type 0
  Spins rest =
      (fuel : ℕ) (st : State) (start i : ℕ) (out : List Str) (cur : Str)
      → At text (scan st start i out) cur rest
      → ends st rest ≡ comment
      → loop text fuel (scan st start i out) ≡ out_of_fuel

  Spins-nil : Spins []
  unfolding loop ends
  Spins-nil fuel comment start i out cur at e = spin fuel start i out cur (
      omega (
        arith,
        at.i,
        ap length at.parts,
        length-append cur [],
        length-append at.before (cur ++ []),
      ))
  Spins-nil fuel _ start i out cur at e = cc

  module _ (c : ℕ) (cs : Str) (ih : Spins cs) where
    on :
        (fuel : ℕ) (st st' : State) (start i : ℕ) (out : List Str) (cur : Str)
        → At text (scan st start i out) cur (c ∷ cs)
        → ends st' cs ≡ comment
        → loop text fuel (scan st' start (i + 1) out) ≡ out_of_fuel
    on fuel st st' start i out cur at e =
        ih fuel st' start (i + 1) out (cur ++ c ∷ []) (At-advance text c cs st' at) e

    Spins-other :
        (fuel start i : ℕ) (out : List Str) (cur : Str)
        → At text (scan other start i out) cur (c ∷ cs)
        → ends (next other c) cs ≡ comment
        → loop text fuel (scan other start i out) ≡ out_of_fuel
    unfolding step next loop
    Spins-other zero start i out cur at e = refl
    Spins-other (suc fuel) start i out cur at e =
        let a = on fuel other (next other c) start i out cur at e in
        let b =
          ih fuel other (i + 1) (i + 1) (out ++ slice text start i ∷ []) []
            (At-cut text c cs other (out ++ slice text start i ∷ []) at) in
        loop-suc fuel (scan other start i out) (some c) (At-read text (c ∷ cs) at)
        ∙ ground (arith, a, b)

    Spins-cons : Spins (c ∷ cs)
    unfolding step next ends loop
    Spins-cons zero st start i out cur at e = refl
    Spins-cons (suc fuel) comment start i out cur at e =
        loop-suc fuel (scan comment start i out) (some c) (At-read text (c ∷ cs) at)
        ∙ ground (arith, on fuel comment (next comment c) start i out cur at e)
    Spins-cons (suc fuel) identifier start i out cur at e =
        loop-suc fuel (scan identifier start i out) (some c) (At-read text (c ∷ cs) at)
        ∙ ground (arith, on fuel identifier (next identifier c) start i out cur at e)
    Spins-cons (suc fuel) string start i out cur at e =
        loop-suc fuel (scan string start i out) (some c) (At-read text (c ∷ cs) at)
        ∙ ground (arith, on fuel string (next string c) start i out cur at e)
    Spins-cons (suc fuel) other start i out cur at e = Spins-other (suc fuel) start i out cur at e
    Spins-cons (suc fuel) comment_start start i out cur at e =
        let at' = At-state comment_start other start i out cur (c ∷ cs) at in
        loop-suc fuel (scan comment_start start i out) (some c) (At-read text (c ∷ cs) at)
        ∙ ground (
          arith,
          on fuel comment_start comment start i out cur at,
          Spins-other fuel start i out cur at',
        )
    Spins-cons (suc fuel) string_quote start i out cur at e =
        let at' = At-state string_quote other start i out cur (c ∷ cs) at in
        loop-suc fuel (scan string_quote start i out) (some c) (At-read text (c ∷ cs) at)
        ∙ ground (
          arith,
          on fuel string_quote string start i out cur at,
          Spins-other fuel start i out cur at',
        )

  Spins-all : (rest : Str) → Spins rest
  Spins-all [] = Spins-nil
  Spins-all (c ∷ cs) = Spins-cons c cs (Spins-all cs)

At-begin : (text : Str) → At text begin [] text
At-begin text = record { before = []; parts = refl; start = refl; i = refl }

-- With two rounds for each character and two more, unless the text ends inside a comment, the loop
-- over indices ends, and it has split the text at the semicolons that the grammar gives: the same
-- statements, or the same exception.
pub parse_statements-eq-split :
    (text : Str) (fuel : ℕ)
    → ends other text ≢ comment
    → 2 * length text + 2 ≤ fuel
    → parse_statements text fuel ≡ split other [] [] text
unfolding parse_statements
parse_statements-eq-split text fuel e h =
    Follows-all text text fuel other 0 0 [] [] (At-begin text) h e

-- A text whose last comment has no newline behind it is never split: the generator does not end,
-- whatever the number of rounds.
pub parse_statements_diverges :
    (text : Str) (fuel : ℕ) → ends other text ≡ comment → parse_statements text fuel ≡ out_of_fuel
unfolding parse_statements
parse_statements_diverges text fuel e = Spins-all text text fuel other 0 0 [] [] (At-begin text) e
