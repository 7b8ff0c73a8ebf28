-- ===== src/Middleware.antt =====
-- functions/_middleware.ts: the headers of every response, and `clientCountry` of src/request.ts. Headers
-- are kept by their names in lower case, as the platform compares them.
use gwsdb.Prelude.{
  Text, codes, text_eq, starts_with, Option, some, [], ◌++◌, if◌then◌else◌, or_else,
}

abbrev pub Headers : Type 0
Headers = Text → Option Text

-- `headers.set(name, value)`
unfoldable pub set_header : Text → Text → Headers → Headers
unfolding text_eq
set_header name value headers k = if text_eq k name then some value else headers k

unfoldable pub client_country : Headers → Text
client_country headers = or_else (headers (codes "cf-ipcountry")) []

abbrev content_security_policy : Text
content_security_policy =
    codes "default-src 'none'; "
    ++ (codes "img-src 'self'; style-src 'self'; script-src 'self'; "
        ++ (codes "connect-src 'self' https://cloudflare-dns.com; "
            ++ codes "form-action 'self'; base-uri 'none'; frame-ancestors 'none'"))

-- The freshness of a static file, by its path.
unfoldable pub set_freshness : Text → Headers → Headers
unfolding set_header starts_with
set_freshness pathname headers =
    if starts_with pathname (codes "/static/flags/")
    then set_header (codes "cache-control") (codes "public, max-age=31536000, immutable") headers
    else if starts_with pathname (codes "/static/")
    then set_header (codes "cache-control") (codes "public, max-age=0, must-revalidate") headers
    else headers

-- `onRequest`, from the headers of the response of what comes next.
unfoldable pub on_request : Text → Headers → Headers
unfolding set_freshness set_header
on_request pathname headers = set_header (codes "referrer-policy") (codes "same-origin") (
    set_header (codes "x-frame-options") (codes "DENY") (
      set_header (codes "x-content-type-options") (codes "nosniff") (
        set_header (codes "content-security-policy") content_security_policy
          (set_freshness pathname headers))))
