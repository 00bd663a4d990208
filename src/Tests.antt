-- ===== src/Tests.antt =====
-- The theorems on the commands, the replies, the user's functions and the log at concrete inputs.
use boostcache.Prelude.{◌≡◌, refl, false, some, List, [], ◌∷◌, ◌++◌, arith}
use boostcache.Wire.{Bytes, codes}
use boostcache.Wire.Printer.{plain_decimal}
use boostcache.Reply.{to_reply_string}
use boostcache.Reply.Client.{read_reply, bulk, read_reply-to_reply_string}
use boostcache.Examples.{appending, appending_v8}
use boostcache.JsVm.{call, c_str}
use boostcache.JsVm.Visit.{visit}
use boostcache.Commands.{find, command_table}
use boostcache.Commands.Table.{FindOutcome, find-FindOutcome}

find-FindOutcome_example : FindOutcome (codes "HSET") 1 (find command_table (codes "HSET") 1)
find-FindOutcome_example = find-FindOutcome (codes "HSET") 1

read_reply-to_reply_string_example :
    read_reply (to_reply_string plain_decimal (codes "a\r\nb") ++ codes ":1\r\n")
    ≡ some (bulk (codes "a\r\nb"), codes ":1\r\n")
read_reply-to_reply_string_example =
    read_reply-to_reply_string plain_decimal (codes "a\r\nb") (codes ":1\r\n") (omega arith)

abbrev entries : List (Bytes × Bytes)
entries = (codes "a", codes "1") ∷ (codes "b", []) ∷ (codes "c", codes "3") ∷ []

abbrev visited : List (Bytes × Bytes)
visited = (codes "a", codes "1!") ∷ (codes "b", []) ∷ (codes "c", codes "3") ∷ []

abbrev key_of : Bytes × Bytes → Bytes
key_of e = e.0

abbrev value_of : Bytes × Bytes → Bytes
value_of e = e.1

abbrev with_value : Bytes × Bytes → Bytes → Bytes × Bytes
with_value e s = (e.0, s)

visit-entries :
    visit appending_v8 key_of value_of with_value (codes "!") entries ≡ some (visited, false)
unfolding visit call c_str appending
visit-entries = refl
