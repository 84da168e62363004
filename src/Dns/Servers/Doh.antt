-- ===== src/Dns/Servers/Doh.antt =====
-- dns_server/servers.py: `_process` of the DoH application. A base64 decoder, which raises or returns,
-- and `resolver.resolve` are parameters.
pub mod Methods
use scamlens.Base.{
  ℕ, Bool, true, false, not, Text, List, [], ◌∷◌, Option, none, some, same, split, strip, white,
  codes, if◌then◌else◌,
}
use scamlens.Dns.Servers.{pad_b64}

pub record HttpRequest : Type 0 where
  pub is_post : Bool
  pub content_type : Option Text
  pub body : Text
  -- the query parameter `dns`
  pub dns : Option Text
  pub real_ip : Option Text
  pub forwarded_for : Option Text
  pub remote : Option Text

-- `raised` is an exception of the resolver, which the server turns into a 500.
pub data HttpResponse : Type 0 where
  error : ℕ → Text → HttpResponse
  message : Text → HttpResponse
  raised : HttpResponse

abbrev text_of : Option Text → Text
text_of none = []
text_of (some t) = t

abbrev head_of : List Text → Text
head_of [] = []
head_of (t ∷ ts) = t

-- `a or b`
unfoldable pub or_else : Text → Text → Text
or_else [] b = b
or_else (c ∷ a) b = c ∷ a

-- `text or None`
unfoldable pub or_none : Text → Option Text
or_none [] = none
or_none (c ∷ t) = some (c ∷ t)

unfoldable pub client_ip : HttpRequest → Option Text
unfolding or_else or_none
client_ip request = or_none (
    or_else (text_of request.real_ip) (
      or_else (strip white (head_of (split b',' (text_of request.forwarded_for))))
        (text_of request.remote)))

-- `doh_tokens.get(token)`
unfoldable pub lookup_token : Text → List (Text × ℕ) → Option ℕ
lookup_token t [] = none
lookup_token t ((u, id) ∷ tokens) =
    let rest = lookup_token t tokens in if same t u then some id else rest

-- `doh_tokens.get(token) if token else None`
unfoldable pub user_of : List (Text × ℕ) → Option Text → Option ℕ
unfolding lookup_token
user_of tokens none = none
user_of tokens (some []) = none
user_of tokens (some (c ∷ t)) = lookup_token (c ∷ t) tokens

-- The query of a request, or the response that refuses it.
pub data Query : Type 0 where
  refused : HttpResponse → Query
  wire : Text → Query

abbrev pub is_message : Option Text → Bool
is_message none = false
is_message (some t) = same t (codes "application/dns-message")

abbrev pub decoded : Option Text → Query
decoded none = refused (error 400 (codes "bad base64"))
decoded (some w) = wire w

unfoldable pub get_query : (Text → Option Text) → Option Text → Query
get_query b64decode none = refused (error 400 (codes "missing dns param"))
get_query b64decode (some []) = refused (error 400 (codes "missing dns param"))
get_query b64decode (some (c ∷ raw)) = decoded (b64decode (pad_b64 (c ∷ raw)))

unfoldable pub query_of : (Text → Option Text) → HttpRequest → Query
unfolding get_query
query_of b64decode request =
    if request.is_post
    then (if not (is_message request.content_type)
        then refused (error 415 (codes "unsupported media type"))
        else wire request.body)
    else get_query b64decode request.dns

module _ {S : Type 0} (b64decode : Text → Option Text)
    (resolve : Text → Option Text → Option ℕ → S → Option Text × S) where
  abbrev pub respond : Option Text × S → HttpResponse × S
  respond (none, s) = (raised, s)
  respond (some reply, s) = (message reply, s)

  unfoldable pub run_query : Query → Option Text → Option ℕ → S → HttpResponse × S
  run_query (refused response) ip user s = (response, s)
  run_query (wire []) ip user s = (error 400 (codes "empty query"), s)
  run_query (wire (b ∷ w)) ip user s = respond (resolve (b ∷ w) ip user s)

  -- `_process`
  unfoldable pub process : List (Text × ℕ) → Option Text → HttpRequest → S → HttpResponse × S
  unfolding client_ip user_of query_of run_query
  process tokens token request s =
      run_query (query_of b64decode request) (client_ip request) (user_of tokens token) s
