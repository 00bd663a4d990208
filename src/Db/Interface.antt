-- ===== src/Db/Interface.antt =====
-- db/interface.h and db/interface.cpp: the base class of the databases. Its methods are not virtual;
-- each database has its own ones in their place.
use boostcache.Wire.{Bytes}
use boostcache.Reply.{reply_error_notsupported}
use boostcache.CommandHandler.State.{Arguments}

unfoldable pub get : Arguments → Bytes
get arguments = reply_error_notsupported

unfoldable pub set : Arguments → Bytes
set arguments = reply_error_notsupported

unfoldable pub del : Arguments → Bytes
del arguments = reply_error_notsupported

unfoldable pub foreach : Arguments → Bytes
foreach arguments = reply_error_notsupported
