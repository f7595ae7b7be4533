-- ===== src/Base/CString.antt =====
-- Text as the C functions see it.
use Prim.Native.Nat.{ℕ, ◌+◌}
use mathlib.Core.Bool.{Bool, ◌&&◌}
use mathlib.Core.List.{[], ◌∷◌, map}
use mynginx_evnet_module.Base.Tests.{if◌then◌else◌, leb, ◌==◌}
use mynginx_evnet_module.Base.Bytes.{Bytes, equal}

-- The text up to a zero byte, as `c_str()` gives it to C functions.
unfoldable pub c_str : Bytes → Bytes
c_str [] = []
c_str (c ∷ cs) = let rest = c_str cs in if c == 0 then [] else c ∷ rest

abbrev pub to_lower : ℕ → ℕ
to_lower c = if leb b'A' c && leb c b'Z' then c + 32 else c

-- `strcasecmp(a, b) == 0`
unfoldable pub same_text : Bytes → Bytes → Bool
unfolding c_str
same_text a b = equal (map to_lower (c_str a)) (map to_lower (c_str b))
