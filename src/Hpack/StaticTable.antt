-- ===== src/Hpack/StaticTable.antt =====
-- include/http/v2/hpack_static_tab.h: the predefined header fields.
use stunning_waddle.Base.{
  ℕ, ◌-◌, Bool, List, [], ◌∷◌, Option, codes, leb, ◌&&◌, get_elem?, if◌then◌else◌, none,
}
use Prim.Native.String.{String}
use stunning_waddle.Headers.{Header}

abbrev field : String → String → Header
field name value = record { name = codes name; value = codes value }

unfoldable pub hpack_static_table : List Header
hpack_static_table =
    field ":authority" ""
    ∷ field ":method" "GET"
    ∷ field ":method" "POST"
    ∷ field ":path" "/"
    ∷ field ":path" "/index.html"
    ∷ field ":scheme" "http"
    ∷ field ":scheme" "https"
    ∷ field ":status" "200"
    ∷ field ":status" "204"
    ∷ field ":status" "206"
    ∷ field ":status" "304"
    ∷ field ":status" "400"
    ∷ field ":status" "404"
    ∷ field ":status" "500"
    ∷ field "accept-charset" ""
    ∷ field "accept-encoding" "gzip, deflate"
    ∷ field "accept-language" ""
    ∷ field "accept-ranges" ""
    ∷ field "accept" ""
    ∷ field "access-control-allow-origin" ""
    ∷ field "age" ""
    ∷ field "allow" ""
    ∷ field "authorization" ""
    ∷ field "cache-control" ""
    ∷ field "content-disposition" ""
    ∷ field "content-encoding" ""
    ∷ field "content-language" ""
    ∷ field "content-length" ""
    ∷ field "content-location" ""
    ∷ field "content-range" ""
    ∷ field "content-type" ""
    ∷ field "cookie" ""
    ∷ field "date" ""
    ∷ field "etag" ""
    ∷ field "expect" ""
    ∷ field "expires" ""
    ∷ field "from" ""
    ∷ field "host" ""
    ∷ field "if-match" ""
    ∷ field "if-modified-since" ""
    ∷ field "if-none-match" ""
    ∷ field "if-range" ""
    ∷ field "if-unmodified-since" ""
    ∷ field "last-modified" ""
    ∷ field "link" ""
    ∷ field "location" ""
    ∷ field "max-forwards" ""
    ∷ field "proxy-authenticate" ""
    ∷ field "proxy-authorization" ""
    ∷ field "range" ""
    ∷ field "referer" ""
    ∷ field "refresh" ""
    ∷ field "retry-after" ""
    ∷ field "server" ""
    ∷ field "set-cookie" ""
    ∷ field "strict-transport-security" ""
    ∷ field "transfer-encoding" ""
    ∷ field "user-agent" ""
    ∷ field "vary" ""
    ∷ field "via" ""
    ∷ field "www-authenticate" ""
    ∷ []

abbrev pub hpack_static_table_size : ℕ
hpack_static_table_size = 61

unfoldable pub hpack_is_predefined : ℕ → Bool
hpack_is_predefined index = leb 1 index && leb index hpack_static_table_size

-- `hpack_lookup_predefined`; `none` is its `std::out_of_range`.
unfoldable pub hpack_lookup_predefined : ℕ → Option Header
hpack_lookup_predefined index =
    if hpack_is_predefined index then get_elem? hpack_static_table (index - 1) else none
