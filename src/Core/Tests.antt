-- ===== src/Core/Tests.antt =====
-- Runs of the texts of integers and of the keys and values.
use shrikedb.Core.Contract.Cursor.{scan_all, scan_all_complete}
use shrikedb.Prelude.{List, [], ◌∷◌, ℕ, ◌≡◌, true, some, arith}
use shrikedb.Std.Bytes.{codes}
use shrikedb.Core.CompactObj.{as_bytes, from_bytes, is_string, strlen}
use shrikedb.Core.CompactObj.Laws.{as_bytes-from_bytes}

as_bytes-from_bytes_example :
    (as_bytes (from_bytes (codes "007")) ≡ codes "007")
    × (is_string (from_bytes (codes "007")) ≡ true)
    × (strlen (from_bytes (codes "007")) ≡ 3)
as_bytes-from_bytes_example = as_bytes-from_bytes (codes "007")

abbrev entries : List (ℕ × ℕ)
entries = (1, 10) ∷ (2, 20) ∷ (3, 30) ∷ []

scan_all_complete_example : scan_all 2 entries 4 0 ≡ some entries
scan_all_complete_example = scan_all_complete 2 entries (omega arith) (omega arith)
