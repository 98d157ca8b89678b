-- ===== src/H2/Hpack/StaticTable.antt =====
-- crates/micro-h2/src/hpack/static_table.rs: the 61 entries of RFC 7541 Appendix A, as bytes.
use Prim.Native.String.{String}
use Prim.Native.Char.{code}
use tailfeather.Common.{ℕ, ◌+◌, ◌-◌, ◌==◌, ◌&&◌, if◌then◌else◌, Bool, Option, none, some}
use tailfeather.Common.{List, [], ◌∷◌, get_elem?, bytes_eq}

-- The bytes of an ASCII text.
abbrev pub codes : String → List ℕ
codes String.[] = []
codes (String.◌∷◌ c s) = code c ∷ codes s

abbrev header : String → String → List ℕ × List ℕ
header name value = (codes name, codes value)

unfoldable pub entries : List (List ℕ × List ℕ)
entries =
    header ":authority" ""
    ∷ header ":method" "GET"
    ∷ header ":method" "POST"
    ∷ header ":path" "/"
    ∷ header ":path" "/index.html"
    ∷ header ":scheme" "http"
    ∷ header ":scheme" "https"
    ∷ header ":status" "200"
    ∷ header ":status" "204"
    ∷ header ":status" "206"
    ∷ header ":status" "304"
    ∷ header ":status" "400"
    ∷ header ":status" "404"
    ∷ header ":status" "500"
    ∷ header "accept-charset" ""
    ∷ header "accept-encoding" "gzip, deflate"
    ∷ header "accept-language" ""
    ∷ header "accept-ranges" ""
    ∷ header "accept" ""
    ∷ header "access-control-allow-origin" ""
    ∷ header "age" ""
    ∷ header "allow" ""
    ∷ header "authorization" ""
    ∷ header "cache-control" ""
    ∷ header "content-disposition" ""
    ∷ header "content-encoding" ""
    ∷ header "content-language" ""
    ∷ header "content-length" ""
    ∷ header "content-location" ""
    ∷ header "content-range" ""
    ∷ header "content-type" ""
    ∷ header "cookie" ""
    ∷ header "date" ""
    ∷ header "etag" ""
    ∷ header "expect" ""
    ∷ header "expires" ""
    ∷ header "from" ""
    ∷ header "host" ""
    ∷ header "if-match" ""
    ∷ header "if-modified-since" ""
    ∷ header "if-none-match" ""
    ∷ header "if-range" ""
    ∷ header "if-unmodified-since" ""
    ∷ header "last-modified" ""
    ∷ header "link" ""
    ∷ header "location" ""
    ∷ header "max-forwards" ""
    ∷ header "proxy-authenticate" ""
    ∷ header "proxy-authorization" ""
    ∷ header "range" ""
    ∷ header "referer" ""
    ∷ header "refresh" ""
    ∷ header "retry-after" ""
    ∷ header "server" ""
    ∷ header "set-cookie" ""
    ∷ header "strict-transport-security" ""
    ∷ header "transfer-encoding" ""
    ∷ header "user-agent" ""
    ∷ header "vary" ""
    ∷ header "via" ""
    ∷ header "www-authenticate" ""
    ∷ []

abbrev pub dynamic_base : ℕ
dynamic_base = 62

unfoldable pub static_get : ℕ → Option (List ℕ × List ℕ)
unfolding entries
static_get index = if index == 0 then none else get_elem? entries (index - 1)

-- `Iterator::position`, counted from `i`.
unfoldable pub position_from : ℕ → (List ℕ × List ℕ → Bool) → List (List ℕ × List ℕ) → Option ℕ
position_from i test [] = none
position_from i test (e ∷ es) = if test e then some i else position_from (i + 1) test es

unfoldable pub find : List ℕ → List ℕ → Option ℕ
unfolding entries position_from bytes_eq
find name value = position_from 1 (λ e. bytes_eq e.0 name && bytes_eq e.1 value) entries

unfoldable pub find_name : List ℕ → Option ℕ
unfolding entries position_from bytes_eq
find_name name = position_from 1 (λ e. bytes_eq e.0 name) entries
