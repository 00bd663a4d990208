-- ===== src/Commands/Tests.antt =====
-- The theorems on the calls of commands, and on `foreach`, at concrete inputs.
use boostcache.Prelude.{some, List, [], ◌∷◌, ◌==◌, if◌then◌else◌}
use boostcache.Wire.{Bytes, codes}
use boostcache.Reply.{reply_ok}
use boostcache.Examples.{list_code, pair_set}
use boostcache.CommandHandler.State.{Handler, initial, multi_bulk}
use boostcache.CommandHandler.Invariant as Parser
use boostcache.Db.HashTable.{Table}
use boostcache.Db.AvlTree
use boostcache.Db.AvlTree.Invariant

abbrev script : List Bytes
script = codes "!" ∷ []

abbrev request : Bytes
request = codes "*2\r\n$4\r\nHFOR\r\n$1\r\n!\r\n"

abbrev parsed : Handler
parsed = record initial {
  kind = multi_bulk;
  command_string = request;
  command_offset = 21;
  number_of_arguments = 2;
  number_of_arguments_left = 0;
  command_arguments = codes "HFOR" ∷ script;
}

abbrev entries : Table
entries = (codes "a", codes "1") ∷ []

abbrev with_entry :
    Invariant.Leaves list_code pair_set
      (AvlTree.set list_code pair_set
        (AvlTree.new_tree list_code pair_set)
        (codes "ATSET" ∷ codes "k" ∷ codes "v" ∷ []))
      reply_ok
      (λ k.
        if list_code (codes "k") == k
        then some (codes "v")
        else Invariant.at_hash list_code pair_set (AvlTree.new_tree list_code pair_set) k)
with_entry =
    Invariant.set_lem list_code pair_set (AvlTree.new_tree list_code pair_set) (codes "ATSET")
      (codes "k") (codes "v") [] (Invariant.new_tree-IsValid list_code pair_set)

-- A tree with one node.
abbrev tree : AvlTree.AvlTree list_code pair_set
tree = with_entry.0
