-- ===== src/Facade/Tests.antt =====
-- Runs of the parser of RESP.
use shrikedb.Prelude.{◌≡◌, refl, some, []}
use shrikedb.Std.Bytes.{Bytes, codes}
use shrikedb.Facade.Parser.{ParseResult, complete, incomplete, State, init, bulk_state, parse}
use shrikedb.Facade.Parser.Termination.{parse-some}
use shrikedb.Facade.Parser.Limits.{IsOpen, open_init, parse-IsOpen}

parse-some_example :
    (r : ParseResult × State × Bytes) × (parse init (codes "*1\r\n$4\r\nPI") ≡ some r)
parse-some_example = parse-some init (codes "*1\r\n$4\r\nPI")

part_lem : parse init (codes "*2\r\n$3\r\nGE") ≡ some (incomplete, bulk_state 3 [] 2, codes "GE")
unfolding parse shrikedb.Facade.Parser.parse_int shrikedb.Std.Integer.parse_text
part_lem = refl

parse-IsOpen_example : IsOpen (bulk_state 3 [] 2)
parse-IsOpen_example =
    parse-IsOpen init (codes "*2\r\n$3\r\nGE") (incomplete, bulk_state 3 [] 2, codes "GE") open_init
      part_lem
