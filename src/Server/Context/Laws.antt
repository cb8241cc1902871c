-- ===== src/Server/Context/Laws.antt =====
-- What a handler's run does to its context: `put` replaces the selected database, `say` appends
-- replies.
use shrikedb.Prelude.{ℕ, zero, suc, ◌≡◌, refl, ap, some, List, [], ◌∷◌, ◌++◌, arith, get_elem?, set}
use shrikedb.Std.Bytes.{Bytes}
use shrikedb.Facade.Resp.{RespArgs, string, as_bytes}
use shrikedb.Facade.Reply.{Reply}
use shrikedb.Server.DbSlice.{DbTable, on_db}
use shrikedb.Server.Context.{Context, on, arg, arg_bytes, all_bytes, ◌>>=◌}

abbrev pub put : DbTable → Context → Context
put db c = record c {
  shard = record c.shard {
    db_slice = record c.shard.db_slice { dbs = set c.shard.db_slice.dbs c.db_index db };
  };
}

abbrev pub say : List Reply → Context → Context
say rs c = record c { reply = c.reply ++ rs }

abbrev pub time : Context → ℕ
time c = c.shard.db_slice.now_ms

-- `db` is the selected database.
abbrev pub Selected : Context → DbTable → Type 0
Selected c db = get_elem? c.shard.db_slice.dbs c.db_index ≡ some db

module _ {ℓ} {A : Type ℓ} where
  pub get_elem?-set_present :
      (xs : List A) (i : ℕ) (x y : A) → get_elem? xs i ≡ some x → get_elem? (set xs i y) i ≡ some y
  get_elem?-set_present [] i x y h = cc
  get_elem?-set_present (z ∷ xs) zero x y h = refl
  get_elem?-set_present (z ∷ xs) (suc i) x y h = get_elem?-set_present xs i x y h

  set-set : (xs : List A) (i : ℕ) (x y : A) → set (set xs i x) i y ≡ set xs i y
  set-set [] i x y = refl
  set-set (z ∷ xs) zero x y = refl
  set-set (z ∷ xs) (suc i) x y = ap (λ t. z ∷ t) (set-set xs i x y)

  set_self : (xs : List A) (i : ℕ) (x : A) → get_elem? xs i ≡ some x → set xs i x ≡ xs
  set_self [] i x h = refl
  set_self (z ∷ xs) zero x h = ground arith
  set_self (z ∷ xs) (suc i) x h = ap (λ t. z ∷ t) (set_self xs i x h)

pub put_self : (c : Context) (db : DbTable) → Selected c db → put db c ≡ c
put_self c db h = λ i. record c {
  shard = record c.shard {
    db_slice = record c.shard.db_slice { dbs = set_self c.shard.db_slice.dbs c.db_index db h i };
  };
}

pub Selected-put : (c : Context) (db db' : DbTable) → Selected c db → Selected (put db' c) db'
Selected-put c db db' h = get_elem?-set_present c.shard.db_slice.dbs c.db_index db db' h

pub put-put : (c : Context) (db db' : DbTable) → put db' (put db c) ≡ put db' c
put-put c db db' = λ i. record c {
  shard = record c.shard {
    db_slice = record c.shard.db_slice { dbs = set-set c.shard.db_slice.dbs c.db_index db db' i };
  };
}

pub on_lem :
    {A : Type 0} (f : ℕ → DbTable → DbTable × A) (c : Context) (db : DbTable)
    → Selected c db
    → on f c ≡ some ((f (time c) db).1, put (f (time c) db).0 c)
unfolding on on_db
on_lem f c db h = rw (h, on, on_db)

-- A second operation works on the database that the first one left.
pub on-put :
    {A : Type 0} (f : ℕ → DbTable → DbTable × A) (c : Context) (db db' : DbTable)
    → Selected c db
    → on f (put db' c) ≡ some ((f (time c) db').1, put (f (time c) db').0 c)
on-put f c db db' h =
    rw (on_lem f (put db' c) db' (Selected-put c db db' h))
      (ap (λ t. some ((f (time c) db').1, t)) (put-put c db' (f (time c) db').0))

pub arg_lem :
    (args : RespArgs) (i : ℕ) (b : Bytes) (c : Context)
    → arg_bytes args i ≡ some b
    → arg args i c ≡ some (b, c)
unfolding arg
arg_lem args i b c h = rw (h, arg)

-- Arguments that are all strings.
abbrev pub strings : List Bytes → RespArgs
strings [] = []
strings (b ∷ bs) = string b ∷ strings bs

pub all_bytes-strings : (bs : List Bytes) (c : Context) → all_bytes (strings bs) c ≡ some (bs, c)
unfolding all_bytes as_bytes
all_bytes-strings [] c = refl
all_bytes-strings (b ∷ bs) c = rw (all_bytes-strings bs c, all_bytes, ◌>>=◌) refl
