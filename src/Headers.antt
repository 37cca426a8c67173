-- ===== src/Headers.antt =====
-- The `http.Header` of the standard library, as far as the packages use it: `Get` and `Set` on
-- names in canonical form. The packages spell each header name in one way.
use omkit_go.Prelude.{String, ◌≡◌, arith, Map, lookup, insert, lookup-insert, if◌then◌else◌, ◌==◌}
use omkit_go.Context.{text_or_empty}

abbrev pub Headers : Type 0
Headers = Map String

-- `h.Get(k)`: "" where the header is absent.
unfoldable pub header : Headers → String → String
header h k = text_or_empty (lookup k h)

-- `h.Set(k, v)`
unfoldable pub set_header : String → String → Headers → Headers
set_header k v h = insert k v h

pub header-set_header :
    (k j v : String) (h : Headers)
    → header (set_header k v h) j ≡ (if k == j then v else header h j)
unfolding header set_header
header-set_header k j v h = ground (arith, lookup-insert k j v h)
