-- ===== src/Server/Commands/Lists/Laws.antt =====
-- What LPUSH and RPUSH do to a list.
use mathlib.Core.List.{reverse}
use shrikedb.Prelude.{sym, refl}
use mathlib.Core.List.{append_assoc, append-nil, reverse-cons}
use shrikedb.Prelude.{◌≡◌, List, [], ◌∷◌, ◌++◌}
use shrikedb.Std.Bytes.{Bytes}
use shrikedb.Server.Commands.Lists.Edits.{push_back_all, push_front_all}

-- RPUSH appends the values in their order.
pub push_back_all-append : (vs l : List Bytes) → push_back_all vs l ≡ l ++ vs
unfolding push_back_all
push_back_all-append [] l = simp append-nil
push_back_all-append (v ∷ vs) l = rw (push_back_all-append vs (l ++ (v ∷ []))) (simp append_assoc)

-- LPUSH puts the values before the list one by one.
pub push_front_all-append : (vs l : List Bytes) → push_front_all vs l ≡ reverse vs ++ l
unfolding push_front_all
push_front_all-append [] l = refl
push_front_all-append (v ∷ vs) l =
    rw (push_front_all-append vs (v ∷ l), reverse-cons v vs)
      (sym (append_assoc (reverse vs) (v ∷ []) l))
