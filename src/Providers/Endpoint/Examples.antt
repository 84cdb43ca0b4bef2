-- ===== src/Providers/Endpoint/Examples.antt =====
-- A connection test of an address in the network of the server, and one of a provider on the web.
use crmtsi_app.Common.{
  ◌≡◌, refl, none, some, Option, [], ◌∷◌, Text, codes, String, string, Object, true,
}
use crmtsi_app.Providers.Schema.{is_graph_version, is_decimal, all_digits}
use crmtsi_app.Providers.Endpoint.{
  Url, Request, Reply, answered, code, status_code, invalid, test_waha_connection,
  test_provider_connection, test_meta_connection, validate_meta_endpoint, read_reply,
}
use crmtsi_app.Providers.Endpoint.Addresses.{IsUnsafe, ten, unsafe_not_called}

abbrev inside : Url
inside = record { protocol = codes "http:"; hostname = codes "10.0.0.7"; port = none }

abbrev to_inside : Text → Option Url
to_inside t = some inside

abbrev config : Object
config = ("baseUrl", string (codes "http://10.0.0.7")) ∷ ("sessionName", string (codes "main")) ∷ []

inside-IsUnsafe : IsUnsafe inside
inside-IsUnsafe = ten (codes "0.0.7") refl

unsafe_not_called_example :
    (e : String) × ((fetch : Request → Reply)
      → test_waha_connection to_inside fetch config none ≡ invalid (code e))
unsafe_not_called_example = unsafe_not_called to_inside config none inside refl inside-IsUnsafe

abbrev forbids : Request → Reply
forbids r = answered 403 true

reports-status :
    test_provider_connection to_inside forbids "meta"
      (("graphVersion", string (codes "v19.0")) ∷ [])
      (some [])
    ≡ invalid (status_code "META_CONNECTION_FAILED" 403)
unfolding test_provider_connection test_meta_connection validate_meta_endpoint read_reply
    is_graph_version is_decimal all_digits
reports-status = refl
