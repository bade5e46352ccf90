-- ===== src/Redirects.antt =====
-- The redirect policy of crates/arazzo-runtime/src/runtime_core/client.rs: `decide_redirect`, and
-- the loop of `HttpClient::request` that follows one response after another.
pub mod Chain
use arazzo_cli.Base.{
  ℕ, zero, suc, ◌+◌, String, Bool, true, false, not, ◌&&◌, ◌||◌, Option, none, some, List, [], ◌∷◌,
  ◌==◌, leb, str_eq, if◌then◌else◌,
}
use arazzo_cli.Errors.{
  RuntimeErrorKind, http_request, redirect_downgrade_refused, redirect_limit_exceeded,
}

-- What the policy reads of a URL; the library's `Url` is `text`.
pub record Url : Type 0 where
  pub scheme : String
  pub host : Option String
  -- The explicit or the scheme's default port.
  pub port : Option ℕ
  pub text : String

pub data RedirectDecision : Type 0 where
  follow refuse_downgrade refuse_limit : RedirectDecision

unfoldable pub decide_redirect :
    (prev next : Url) (hops_taken : ℕ) (allow_downgrade : Bool) (max_redirects : ℕ)
    → RedirectDecision
decide_redirect prev next hops_taken allow_downgrade max_redirects =
    if str_eq prev.scheme "https" && (str_eq next.scheme "http" && not allow_downgrade)
    then refuse_downgrade
    else if leb max_redirects hops_taken
    then refuse_limit
    else follow

unfoldable pub same_host : Option String → Option String → Bool
same_host none none = true
same_host (some a) (some b) = str_eq a b
same_host _ _ = false

unfoldable pub same_port : Option ℕ → Option ℕ → Bool
same_port none none = true
same_port (some a) (some b) = a == b
same_port _ _ = false

unfoldable pub is_cross_host_hop : Url → Url → Bool
unfolding same_host same_port
is_cross_host_hop prev next =
    not (same_host prev.host next.host) || not (same_port prev.port next.port)

-- A `HeaderMap` without repeated names; names are in lower case, as the library keeps them.
abbrev pub Headers : Type 0
Headers = List (String × String)

unfoldable pub without : String → Headers → Headers
without name [] = []
without name ((k, v) ∷ rest) =
    let others = without name rest in if str_eq k name then others else (k, v) ∷ others

unfoldable pub without_all : List String → Headers → Headers
unfolding without
without_all [] headers = headers
without_all (name ∷ names) headers = without_all names (without name headers)

unfoldable pub insert : String → String → Headers → Headers
insert name value headers = (name, value) ∷ without name headers

abbrev pub payload_headers : List String
payload_headers = "transfer-encoding" ∷ "content-encoding" ∷ "content-type" ∷ "content-length" ∷ []

abbrev pub sensitive_headers : List String
sensitive_headers =
    "authorization" ∷ "cookie" ∷ "proxy-authorization" ∷ "www-authenticate" ∷ "cookie2" ∷ []

pub record Request : Type 0 where
  pub method : String
  pub url : Url
  pub headers : Headers
  pub body : Option String

-- The network's answer to a request, and what the client asks of the libraries: where a response
-- redirects to, the `Referer` of a hop, and whether the deadline has passed before a round.
pub data Answer : Type 0 where
  received : (status : ℕ) (location : Option Url) → Answer
  send_failed : RuntimeErrorKind → Answer

pub record Transport : Type 0 where
  pub send : (round : ℕ) → Request → Answer
  pub make_referer : Url → Url → Option String
  -- A cancellation, the deadline, or a missing client.
  pub not_sent : (round : ℕ) → Url → Option RuntimeErrorKind
  pub allow_downgrade_redirects : Bool
  pub max_redirects : ℕ

pub data Ending : Type 0 where
  answered : ℕ → Ending
  failed : RuntimeErrorKind → Ending
  out_of_fuel : Ending

unfoldable pub is_redirect : ℕ → Bool
is_redirect status =
    status == 301 || status == 302 || status == 303 || status == 307 || status == 308

-- The method after a hop, and whether the payload is dropped.
unfoldable pub rewritten : ℕ → String → String × Bool
rewritten status method =
    if (status == 301 || status == 302) && str_eq method "POST"
    then ("GET", true)
    else if status == 303
    then (if str_eq method "HEAD" then method else "GET", true)
    else (method, false)

add_referer : Option String → Headers → Headers
unfolding insert
add_referer none headers = headers
add_referer (some value) headers = insert "referer" value headers

module _ (t : Transport) where
  -- The request after a hop has been decided on.
  unfoldable pub next_headers : Url → Url → Bool → Headers → Headers
  unfolding add_referer without_all is_cross_host_hop
  next_headers prev next drops headers =
      let kept = if drops then without_all payload_headers headers else headers in
      let safe = if is_cross_host_hop prev next then without_all sensitive_headers kept else kept in
      add_referer (t.make_referer prev next) safe

  unfoldable pub next_request : ℕ → Request → Url → Request
  unfolding rewritten next_headers
  next_request status req next =
      let (method, drops) = rewritten status req.method in
      record {
        method = method;
        url = next;
        headers = next_headers req.url next drops req.headers;
        body = if drops then none else req.body;
      }

  unfoldable pub decided :
      (ℕ → Request → List Request × Ending)
      → ℕ
      → Request
      → ℕ
      → Url
      → RedirectDecision
      → List Request × Ending
  unfolding next_request
  decided again hops req status next follow = again (hops + 1) (next_request status req next)
  decided again hops req status next refuse_downgrade = ([], failed redirect_downgrade_refused)
  decided again hops req status next refuse_limit = ([], failed redirect_limit_exceeded)

  unfoldable pub located :
      (ℕ → Request → List Request × Ending) → ℕ → Request → ℕ → Option Url → List Request × Ending
  unfolding decided decide_redirect
  located again hops req status none = ([], answered status)
  located again hops req status (some next) =
      decided again hops req status next
        (decide_redirect req.url next hops t.allow_downgrade_redirects t.max_redirects)

  unfoldable pub answered_by :
      (ℕ → Request → List Request × Ending) → ℕ → Request → Answer → List Request × Ending
  unfolding located is_redirect
  answered_by again hops req (send_failed e) = ([], failed e)
  answered_by again hops req (received status location) =
      if is_redirect status then located again hops req status location else ([], answered status)

  abbrev pub and_sent : Request → List Request × Ending → List Request × Ending
  and_sent req (sent, ending) = (req ∷ sent, ending)

  -- The loop: the requests that it sends, and how it ends. `hops` are the hops taken.
  unfoldable pub request_loop : (fuel hops : ℕ) → Request → List Request × Ending
  unfolding answered_by
  request_loop zero hops req = ([], out_of_fuel)
  request_loop (suc fuel) hops req = elim (t.not_sent hops req.url) [
    | some e ↦ ([], failed e)
    | none ↦ and_sent req (answered_by (λ h r. request_loop fuel h r) hops req (t.send hops req))
  ]

  -- A round for the request and one for each hop.
  unfoldable pub request : Request → List Request × Ending
  unfolding request_loop
  request req = request_loop (suc t.max_redirects) 0 req
