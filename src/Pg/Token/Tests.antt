-- ===== src/Pg/Token/Tests.antt =====
-- Runs of the splitter, the text of the project's own test among them.
use slice_db.Prelude.{◌≡◌, refl, ◌≢◌, Str, List, [], ◌∷◌, codes, arith}
use slice_db.Pg.Token.{comment, other, done, out_of_fuel, parse_statements}
use slice_db.Pg.Token.Grammar.{ends, split}
use slice_db.Pg.Token.Loop.{parse_statements-eq-split, parse_statements_diverges}
use slice_db.Pg.Token.Pieces.{rejoin, IsEnded, rejoin-parse_statements}

abbrev two : Str
two = codes "CREATE TABLE \"a\"();--foo;bar\nCREATE TABLE b();"

abbrev two_pieces : List Str
two_pieces = codes "CREATE TABLE \"a\"()" ∷ codes "--foo;bar\nCREATE TABLE b()" ∷ []

parse_two : parse_statements two 100 ≡ done two_pieces
unfolding parse_statements
parse_two = refl

two-ends : ends other two ≢ comment
unfolding ends
two-ends e = ground arith

parse_statements-eq-split_example : parse_statements two 200 ≡ split other [] [] two
parse_statements-eq-split_example = parse_statements-eq-split two 200 two-ends (omega arith)

rejoin-parse_statements_example : IsEnded (rejoin two_pieces) two
rejoin-parse_statements_example =
    rejoin-parse_statements two 100 two_pieces two-ends (omega arith) parse_two

abbrev trailing : Str
trailing = codes "SELECT 1; -- the end"

trailing-ends : ends other trailing ≡ comment
unfolding ends
trailing-ends = refl

parse_statements_diverges_example : parse_statements trailing 1000 ≡ out_of_fuel
parse_statements_diverges_example = parse_statements_diverges trailing 1000 trailing-ends
