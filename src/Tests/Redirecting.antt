-- ===== src/Tests/Redirecting.antt =====
-- The theorem about redirects at a request with a token that is redirected to another host.
use arazzo_cli.Base.{ℕ, zero, suc, ◌≤◌, ◌≢◌, All, String, false, none, some, [], ◌∷◌, length}
use arazzo_cli.Redirects.{Url, Request, Answer, received, Transport, out_of_fuel, request}
use arazzo_cli.Redirects.Chain.{KeepsSecrets, request-KeepsSecrets}

abbrev url_at : String → Url
url_at host = record { scheme = "https"; host = some host; port = some 443; text = "" }

-- The first answer moves to another host, the next is final.
abbrev moved_once : ℕ → Request → Answer
moved_once zero r = received 302 (some (url_at "other.example"))
moved_once (suc n) r = received 200 none

abbrev one_hop : Transport
one_hop = record {
  send = moved_once;
  make_referer = λ prev next. none;
  not_sent = λ round url. none;
  allow_downgrade_redirects = false;
  max_redirects = 1;
}

abbrev with_token : Request
with_token = record {
  method = "GET";
  url = url_at "api.example";
  headers = ("authorization", "Bearer t") ∷ [];
  body = none;
}

request-KeepsSecrets_example :
    (length (request one_hop with_token).0 ≤ 2)
    × ((request one_hop with_token).1 ≢ out_of_fuel)
    × All (KeepsSecrets (url_at "api.example")) (request one_hop with_token).0
request-KeepsSecrets_example = request-KeepsSecrets one_hop with_token
