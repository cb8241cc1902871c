-- ===== src/Facade/Reply.antt =====
-- reply_builder.rs: each call of a `ReplyBuilder` method is a `Reply`, and `render` is what the
-- method appends to the buffer. The text of an integer is made by the crate `itoa`.
use shrikedb.Prelude.{ℕ, Option, none, some, ◌≡◌, List, [], ◌∷◌, ◌++◌, length}
use shrikedb.Prelude.Int.{ℤ}
use shrikedb.Std.Bytes.{Bytes, codes}
use shrikedb.Std.Integer.{as_i64, IsI64, int_to_string}

pub data Reply : Type 0 where
  ok pong null null_array : Reply
  simple_string error err wrong_type bulk_string : Bytes → Reply
  integer : ℤ → Reply
  array_len : ℕ → Reply

-- `itoa::Buffer::format`, documented to give the text that `to_string` gives.
pub record Itoa : Type 0 where
  pub format : ℤ → Bytes
  pub format_lem : (n : ℤ) → IsI64 n → format n ≡ int_to_string n

abbrev pub crlf : Bytes
crlf = codes "\r\n"

abbrev wrong_type_text : Bytes
wrong_type_text = codes "-WRONGTYPE Operation against a key holding the wrong kind of value"

-- The message of a wrong type is left out if it is empty.
abbrev detail : Bytes → Bytes
detail [] = []
detail (c ∷ msg) = codes ": " ++ (c ∷ msg)

module _ (itoa : Itoa) where
  unfoldable pub write_int : ℤ → Bytes
  write_int n = itoa.format n

  unfoldable pub render : Reply → Bytes
  unfolding write_int
  render ok = codes "+OK\r\n"
  render pong = codes "+PONG\r\n"
  render null = codes "$-1\r\n"
  render null_array = codes "*-1\r\n"
  render (simple_string msg) = codes "+" ++ (msg ++ crlf)
  render (error msg) = codes "-" ++ (msg ++ crlf)
  render (err msg) = codes "-ERR " ++ (msg ++ crlf)
  render (wrong_type msg) = wrong_type_text ++ (detail msg ++ crlf)
  render (bulk_string d) = codes "$" ++ (write_int (as_i64 (length d)) ++ (crlf ++ (d ++ crlf)))
  render (integer n) = codes ":" ++ (write_int n ++ crlf)
  render (array_len n) = codes "*" ++ (write_int (as_i64 n) ++ crlf)

  -- The buffer after a sequence of calls.
  unfoldable pub render_all : List Reply → Bytes
  unfolding render
  render_all [] = []
  render_all (r ∷ rs) = render r ++ render_all rs

-- `send_bulk_string`, or `send_null` for a value that is absent.
abbrev pub value_reply : Option Bytes → Reply
value_reply none = null
value_reply (some d) = bulk_string d

abbrev pub bulks : List Bytes → List Reply
bulks [] = []
bulks (d ∷ ds) = bulk_string d ∷ bulks ds

-- `send_string_array`
abbrev pub string_array : List Bytes → List Reply
string_array items = array_len (length items) ∷ bulks items
