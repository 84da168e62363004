-- ===== src/Dns/Servers/Doh/Methods.antt =====
-- dns_server/servers.py: the two methods of RFC 8484.
use scamlens.Base.{
  ℕ, true, false, ◌≡◌, ◌≢◌, refl, Text, [], ◌∷◌, List, Option, some, same_refl, codes,
}
use scamlens.Dns.Servers.{pad_b64}
use scamlens.Dns.Servers.Doh.{HttpRequest, process, query_of, get_query, client_ip}

abbrev pub post_request : Text → HttpRequest → HttpRequest
post_request w request = record request {
  is_post = true;
  content_type = some (codes "application/dns-message");
  body = w;
}

abbrev pub get_request : Text → HttpRequest → HttpRequest
get_request t request = record request { is_post = false; dns = some t }

-- For any headers, token and state: a GET whose parameter is not empty and decodes to a query is
-- answered as a POST of that query is, and leaves the same state.
process-get_request :
    {S : Type 0} (b64decode : Text → Option Text)
    (resolve : Text → Option Text → Option ℕ → S → Option Text × S) (tokens : List (Text × ℕ))
    (token : Option Text) (request : HttpRequest) (t w : Text) (s : S)
    → t ≢ []
    → b64decode (pad_b64 t) ≡ some w
    → process b64decode resolve tokens token (get_request t request) s
      ≡ process b64decode resolve tokens token (post_request w request) s
unfolding process query_of client_ip get_query
process-get_request b64decode resolve tokens token request [] w s ne h = absurd (ne refl)
process-get_request b64decode resolve tokens token request (c ∷ t) w s ne h =
    rw (h, same_refl (codes "application/dns-message")) refl
