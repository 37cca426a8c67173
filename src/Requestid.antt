-- ===== src/Requestid.antt =====
-- requestid/requestid.go: the correlation id on outbound requests. (`NewContext` and `FromContext`
-- stand with the other context keys, in Context.)
use omkit_go.Prelude.{String, ◌==◌, if◌then◌else◌}
use omkit_go.Context.{Context, request_id_of}
use omkit_go.Headers.{Headers, header, set_header}

abbrev pub header_name : String
header_name = "X-Request-ID"

-- requestid.WithRequestIDPropagation, on a request that is not nil.
unfoldable pub with_request_id_propagation : Context → Headers → Headers
with_request_id_propagation ctx h =
    if header h header_name == ""
    then (let id = request_id_of ctx in if id == "" then h else set_header header_name id h)
    else h
