-- ===== src/Server/Commands/Typed.antt =====
-- The three shapes of a handler of set_family.rs and hash_family.rs on a key whose value is of one
-- type `A`: a read, an edit that makes the value if there is none, and a removal that deletes the key
-- with its last item.
pub mod Laws
pub mod Stored
use shrikedb.Prelude.{Bool, true, false, Option, none, some, List, [], ◌∷◌}
use shrikedb.Std.Bytes.{Bytes}
use shrikedb.Core.CompactObj.{PrimeValue}
use shrikedb.Facade.Reply.{Reply, wrong_type}
use shrikedb.Server.DbSlice.{FindResult, find, add_or_update, write_back, del}
use shrikedb.Server.Context.{M, ◌>>=◌, ◌>>◌, pure, send, send_all, on}

-- What `find` or `find_mut` found: no key, a value of the type, or a value of another type.
pub data Found (A : Type 0) : Type 0 where
  missing other : Found A
  held : A → Found A

module _ {A : Type 0} (pick : PrimeValue → Option A) where
  abbrev pub picked : Option A → Found A
  picked none = other
  picked (some a) = held a

  abbrev pub found_as : Option FindResult → Found A
  found_as none = missing
  found_as (some r) = picked (pick r.value)

  abbrev pub find_as : Bytes → M (Found A)
  find_as key = do r ← on (find key); pure (found_as r)

  unfoldable pub query : List Reply → (A → List Reply) → Bytes → M (Unit {0})
  query default f key = do
    found ← find_as key
    elim found [
      | other ↦ send (wrong_type [])
      | missing ↦ send_all default
      | held a ↦ send_all (f a)
    ]

  module _ (make : A → PrimeValue) where
    -- The edit of the value found is written through the reference.
    unfoldable pub update : A → (A → A × List Reply) → Bytes → M (Unit {0})
    update new f key = do
      found ← find_as key
      elim found [
        | other ↦ send (wrong_type [])
        | missing ↦ do on (add_or_update key (make (f new).0)); send_all (f new).1
        | held a ↦ do on (write_back key (make (f a).0)); send_all (f a).1
      ]

    -- `if value.is_empty() { del(key) }`
    unfoldable pub delete_if : Bool → Bytes → M (Unit {0})
    delete_if true key = do on (del key); pure tt
    delete_if false key = pure tt

    -- The removal gives the value that is left, whether the key is deleted, and the replies.
    unfoldable pub shrink : List Reply → (A → A × Bool × List Reply) → Bytes → M (Unit {0})
    unfolding delete_if
    shrink default f key = do
      found ← find_as key
      elim found [
        | other ↦ send (wrong_type [])
        | missing ↦ send_all default
        | held a ↦ do on (write_back key (make (f a).0)); delete_if (f a).1 key; send_all (f a).2
      ]
