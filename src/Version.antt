-- ===== src/Version.antt =====
-- util/version.cpp. The texts of the two version macros are made by the build: parameters.
use boostcache.Prelude.{Bool, ◌++◌, if◌then◌else◌}
use boostcache.Wire.{Bytes, codes}

-- `versionString(verbose)`
unfoldable pub version_string : Bytes → Bytes → Bool → Bytes
version_string float git verbose =
    if verbose then ((float ++ codes " (") ++ git) ++ codes ")" else float
