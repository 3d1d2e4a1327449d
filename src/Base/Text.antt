-- ===== src/Base/Text.antt =====
-- What the program asks of texts beyond their equality.
use Prim.Native.String.{slice}
use k8storagex.Base.{◌-◌, String, len, Bool, ◌&&◌, leb, ◌==◌, string_eq}

-- `strings.HasSuffix`
unfoldable pub has_suffix : String → String → Bool
has_suffix s t = leb (len t) (len s) && slice s (len s - len t) (len s) == t
