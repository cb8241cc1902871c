-- ===== src/Server/Tests/Strings.antt =====
-- Runs of SETNX, GETSET and GETDEL on the database of the parent module.
use shrikedb.Prelude.{refl, none, some, [], ◌∷◌, if◌then◌else◌}
use shrikedb.Prelude.Int.{pos}
use shrikedb.Std.Bytes.{codes, bytes_eq}
use shrikedb.Core.CompactObj
use shrikedb.Core.CompactObj.{from_bytes, new_key}
use shrikedb.Core.Contract
use shrikedb.Facade.Resp.{RespArgs, string}
use shrikedb.Facade.Reply.{integer, bulk_string}
use shrikedb.Server.DbSlice.{add_or_update, add_expire}
use shrikedb.Server.DbSlice.View.{view}
use shrikedb.Server.DbSlice.Reachable
use shrikedb.Server.DbSlice.Reachable.{run_op}
use shrikedb.Server.Context.{arg_bytes}
use shrikedb.Server.Context.Answers.{Answers}
use shrikedb.Server.Commands.Strings.{cmd_setnx, cmd_getset, cmd_getdel}
use shrikedb.Server.Commands.Strings.Exchange.{
  cmd_setnx-Answers, cmd_getset-Answers, cmd_getdel-Answers,
}
use shrikedb.Server.Tests.{name, held_db, held_db-Reachable, held_context}

abbrev value_args : RespArgs
value_args = string (codes "GETSET") ∷ string name ∷ string (codes "w") ∷ []

cmd_getset-Answers_example :
    Answers
      (cmd_getset value_args)
      held_context
      held_db
      (bulk_string (codes "7"))
      (λ j. if bytes_eq name j then some (from_bytes (codes "w"), none) else view 5 held_db j)
unfolding arg_bytes shrikedb.Facade.Resp.as_bytes view bytes_eq Contract.find run_op add_expire
    Contract.contains add_or_update Contract.insert CompactObj.key_eq CompactObj.key_bytes new_key
    CompactObj.is_string CompactObj.as_bytes from_bytes shrikedb.Std.Integer.parse_text
    shrikedb.Std.Integer.int_to_string
cmd_getset-Answers_example =
    cmd_getset-Answers held_context held_db refl name
      (Reachable.reachable-IsConsistent held_db-Reachable) value_args refl (codes "w") refl

cmd_getdel-Answers_example :
    Answers
      (cmd_getdel value_args)
      held_context
      held_db
      (bulk_string (codes "7"))
      (λ j. if bytes_eq name j then none else view 5 held_db j)
unfolding arg_bytes shrikedb.Facade.Resp.as_bytes view bytes_eq Contract.find run_op add_expire
    Contract.contains add_or_update Contract.insert CompactObj.key_eq CompactObj.key_bytes new_key
    CompactObj.is_string CompactObj.as_bytes from_bytes shrikedb.Std.Integer.parse_text
    shrikedb.Std.Integer.int_to_string
cmd_getdel-Answers_example =
    cmd_getdel-Answers held_context held_db refl name
      (Reachable.reachable-IsConsistent held_db-Reachable) value_args refl

cmd_setnx-Answers_example :
    Answers (cmd_setnx value_args) held_context held_db (integer (pos 0)) (λ j.
      if bytes_eq name j then some (CompactObj.integer (pos 7), some 100) else view 5 held_db j)
unfolding arg_bytes shrikedb.Facade.Resp.as_bytes view bytes_eq Contract.find run_op add_expire
    Contract.contains add_or_update Contract.insert CompactObj.key_eq CompactObj.key_bytes new_key
    CompactObj.is_string CompactObj.as_bytes from_bytes shrikedb.Std.Integer.parse_text
    shrikedb.Std.Integer.int_to_string
cmd_setnx-Answers_example =
    cmd_setnx-Answers held_context held_db refl name
      (Reachable.reachable-IsConsistent held_db-Reachable) value_args refl (codes "w") refl
