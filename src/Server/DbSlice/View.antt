-- ===== src/Server/DbSlice/View.antt =====
-- What a client can see of a database at a time: the value and the deadline of each key that has
-- not expired.
use shrikedb.Prelude.{ℕ, ◌≡◌, ap, true, Option, none, some, leb, if◌then◌else◌}
use shrikedb.Std.Bytes.{Bytes, bytes_eq, bytes_eq_sound}
use shrikedb.Core.CompactObj.{PrimeKey, PrimeValue, new_key}
use shrikedb.Core.CompactObj.Laws.{prime_key}
use shrikedb.Core.Contract
use shrikedb.Core.Contract.{Entries}
use shrikedb.Server.DbSlice.{DbTable, FindResult, is_some}

abbrev pub Visible : Type 0
Visible = Option (PrimeValue × Option ℕ)

-- The value `v` of a key whose deadline is `d`, at time `now`.
abbrev pub live : ℕ → Option PrimeValue → Option ℕ → Visible
live now none d = none
live now (some v) none = some (v, none)
live now (some v) (some d) = if leb d now then none else some (v, some d)

-- What the two tables hold under a key, expired or not.
abbrev pub value_of : DbTable → Bytes → Option PrimeValue
value_of db key = Contract.find (new_key key) db.prime

abbrev pub deadline_of : DbTable → Bytes → Option ℕ
deadline_of db key = Contract.find (new_key key) db.expire

unfoldable pub view : ℕ → DbTable → Bytes → Visible
view now db key = live now (value_of db key) (deadline_of db key)

abbrev pub found : Visible → Option FindResult
found none = none
found (some (v, d)) = some (record { value = v; has_expire = is_some d })

pub find_same :
    {V : Type 0} (k j : Bytes) (m : Entries PrimeKey V)
    → bytes_eq k j ≡ true
    → Contract.find (new_key k) m ≡ Contract.find (new_key j) m
find_same k j m h = ap (λ s. Contract.find (new_key s) m) (bytes_eq_sound k j h)
