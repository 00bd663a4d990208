-- ===== src/Net/Storage/Tests.antt =====
-- A value stored and read at concrete requests.
use boostcache.Prelude.{refl, [], ◌∷◌, arith}
use boostcache.Wire.{codes}
use boostcache.Wire.Printer.{plain_decimal, print}
use boostcache.Commands.{Commands}
use boostcache.Net.Session.Serves.{Sent}

set : Sent plain_decimal
unfolding print
set = record {
  name = codes "HSET";
  args = codes "k" ∷ codes "v" ∷ [];
  first = codes "*3\r\n$4\r\nHSET\r\n$1\r\nk";
  more = codes "\r\n$1\r\nv\r\n" ∷ [];
  fits = omega arith;
  few = omega arith;
  sized = ground arith;
  whole = refl;
}

other : Sent plain_decimal
unfolding print
other = record {
  name = codes "HDEL";
  args = codes "l" ∷ [];
  first = codes "*2\r\n$4\r\nHDEL\r\n$1\r\nl\r\n";
  more = [];
  fits = omega arith;
  few = omega arith;
  sized = ground arith;
  whole = refl;
}

get : Sent plain_decimal
unfolding print
get = record {
  name = codes "HGET";
  args = codes "k" ∷ [];
  first = codes "*2\r\n$4\r\nHGET\r\n$1\r\nk\r\n";
  more = [];
  fits = omega arith;
  few = omega arith;
  sized = ground arith;
  whole = refl;
}
