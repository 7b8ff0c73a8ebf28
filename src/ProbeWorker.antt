-- ===== src/ProbeWorker.antt =====
-- worker/src/index.ts: the proxy between the Pages project and the probe server. Its answer is a status
-- of its own, or what the probe server answers for an address. A body that is no JSON throws.
use gwsdb.Prelude.{
  ℕ, Text, codes, text_eq, text_eq_iff, Bool, true, false, not, Option, none, some, [], ◌∷◌, ◌≡◌,
  ◌↔◌, ◌≢◌, arith, if◌then◌else◌,
}

pub data ProxyReply : Type 0 where
  refused_with : ℕ → ProxyReply
  forwarded : Text → ProxyReply
  threw : ProxyReply

pub record ProxyRequest : Type 0 where
  pub method : Text
  pub token : Option Text
  -- The `ip` of the JSON body, `none` where the body is no JSON; a missing one is empty.
  pub ip : Option Text

-- `request.headers.get(…) !== token`
unfoldable pub is_token : Text → Option Text → Bool
unfolding text_eq
is_token expected none = false
is_token expected (some given) = text_eq given expected

unfoldable pub forward : Option Text → ProxyReply
forward none = threw
forward (some []) = refused_with 400
forward (some (c ∷ s)) = forwarded (c ∷ s)

unfoldable pub proxy_fetch : Text → ProxyRequest → ProxyReply
unfolding text_eq is_token forward
proxy_fetch expected request =
    if not (text_eq request.method (codes "POST"))
    then refused_with 405
    else if not (is_token expected request.token)
    then refused_with 401
    else forward request.ip

is_token_iff :
    (expected : Text) (given : Option Text)
    → (is_token expected given ≡ true) ↔ (given ≡ some expected)
unfolding is_token
is_token_iff expected none = ground arith
is_token_iff expected (some t) = ground (arith, text_eq_iff t expected)

forward_iff :
    (body : Option Text) (ip : Text)
    → (forward body ≡ forwarded ip) ↔ ((body ≡ some ip) × (ip ≢ []))
unfolding forward
forward_iff none ip = ground arith
forward_iff (some []) ip = (λ h. absurd (ground arith), λ h. absurd (h.1 (ground arith)))
forward_iff (some (c ∷ s)) ip = (λ h. (ground arith, λ e. ground arith), λ h. ground arith)

route_iff :
    (post token : Bool) (next : ProxyReply) (ip : Text)
    → ((if not post then refused_with 405 else if not token then refused_with 401 else next)
        ≡ forwarded ip)
      ↔ ((post ≡ true) × (token ≡ true) × (next ≡ forwarded ip))
route_iff true true next ip = ground arith
route_iff true false next ip = ground arith
route_iff false token next ip = ground arith

-- The proxy asks the probe server for exactly the address of a POST with the token, if it has one.
proxy_fetch_iff :
    (expected : Text) (request : ProxyRequest) (ip : Text)
    → (proxy_fetch expected request ≡ forwarded ip) ↔ (
        (request.method ≡ codes "POST")
        × (request.token ≡ some expected)
        × (request.ip ≡ some ip)
        × (ip ≢ []))
unfolding proxy_fetch
proxy_fetch_iff expected request ip =
    let (to, from) =
      route_iff (text_eq request.method (codes "POST")) (is_token expected request.token)
        (forward request.ip) ip in
    let post = text_eq_iff request.method (codes "POST") in
    let token = is_token_iff expected request.token in
    let asked = forward_iff request.ip ip in
    (
      λ h.
          let (m, t, r) = to h in
          let (body, filled) = asked.0 r in (post.0 m, token.0 t, body, filled),
      λ h. from (post.1 h.0, token.1 h.1, asked.1 (h.2, h.3)),
    )
