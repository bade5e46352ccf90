-- ===== src/Redirects/Chain.antt =====
-- A chain of redirects (crates/arazzo-runtime/src/runtime_core/client.rs) ends, and takes no
-- sensitive header to another host.
use arazzo_cli.Base.{
  ℕ, zero, suc, ◌+◌, ◌≤◌, ◌<◌, ◌≡◌, ◌≢◌, ◌⊎◌, refl, ap, ◌∙◌, String, Bool, true, false, not, ◌&&◌,
  ◌||◌, Option, none, some, List, [], ◌∷◌, ==_iff, leb, length, All, if◌then◌else◌, str_eq, eq_iff,
  arith, Bool-cases, inl, inr,
}
use arazzo_cli.Errors.{RuntimeErrorKind}
use arazzo_cli.Redirects.{
  Url, follow, refuse_downgrade, refuse_limit, decide_redirect, same_host, same_port,
  is_cross_host_hop, Headers, without, without_all, insert, payload_headers, sensitive_headers,
  Request, Answer, received, send_failed, Transport, Ending, answered, failed, out_of_fuel,
  is_redirect, rewritten, add_referer, next_headers, next_request, decided, located, answered_by,
  and_sent, request_loop, request,
}

abbrev pub has_header : String → Headers → Bool
has_header name [] = false
has_header name ((k, v) ∷ rest) = str_eq k name || has_header name rest

abbrev pub HasNoneOf : List String → Headers → Type 0
HasNoneOf [] headers = Unit
HasNoneOf (name ∷ names) headers = (has_header name headers ≡ false) × HasNoneOf names headers

abbrev pub IsSameOrigin : Url → Url → Type 0
IsSameOrigin u v = (u.host ≡ v.host) × (u.port ≡ v.port)

has_header-without : (name : String) (h : Headers) → has_header name (without name h) ≡ false
unfolding without
has_header-without name [] = refl
has_header-without name ((k, v) ∷ h) = elim (Bool-cases (str_eq k name)) [
  | inl e ↦ rw e (has_header-without name h)
  | inr e ↦ rw e (rw e (has_header-without name h))
]

has_header-without_other :
    (name other : String) (h : Headers)
    → has_header name h ≡ false
    → has_header name (without other h) ≡ false
unfolding without
has_header-without_other name other [] e = refl
has_header-without_other name other ((k, v) ∷ h) e = elim (Bool-cases (str_eq k other)) [
  | inl d ↦ rw d (has_header-without_other name other h (behind e))
  | inr d ↦ rw d (rw (here e) (has_header-without_other name other h (behind e)))
]
  where
    here : (str_eq k name || has_header name h) ≡ false → str_eq k name ≡ false
    here e = ground arith

    behind : (str_eq k name || has_header name h) ≡ false → has_header name h ≡ false
    behind e = ground arith

HasNoneOf-without :
    (names : List String) (other : String) (h : Headers)
    → HasNoneOf names h
    → HasNoneOf names (without other h)
HasNoneOf-without [] other h p = tt
HasNoneOf-without (n ∷ names) other h (e, p) =
    (has_header-without_other n other h e, HasNoneOf-without names other h p)

HasNoneOf-without_all :
    (names others : List String) (h : Headers)
    → HasNoneOf names h
    → HasNoneOf names (without_all others h)
unfolding without_all
HasNoneOf-without_all names [] h p = p
HasNoneOf-without_all names (o ∷ others) h p =
    HasNoneOf-without_all names others (without o h) (HasNoneOf-without names o h p)

has_header-without_all :
    (name : String) (others : List String) (h : Headers)
    → has_header name h ≡ false
    → has_header name (without_all others h) ≡ false
has_header-without_all name others h e = (HasNoneOf-without_all (name ∷ []) others h (e, tt)).0

removed-HasNoneOf : (names : List String) (h : Headers) → HasNoneOf names (without_all names h)
unfolding without_all
removed-HasNoneOf [] h = tt
removed-HasNoneOf (n ∷ names) h = (
  has_header-without_all n names (without n h) (has_header-without n h),
  removed-HasNoneOf names (without n h),
)

referer-HasNoneOf :
    (r : Option String) (h : Headers)
    → HasNoneOf sensitive_headers h
    → HasNoneOf sensitive_headers (add_referer r h)
unfolding add_referer insert
referer-HasNoneOf none h p = p
referer-HasNoneOf (some v) h p = HasNoneOf-without sensitive_headers "referer" h p

same_origin : (u v : Url) → is_cross_host_hop u v ≡ false → IsSameOrigin u v
unfolding is_cross_host_hop same_host same_port
same_origin u v e = (hosts u.host v.host (first e), ports u.port v.port (second e))
  where
    first :
        (not (same_host u.host v.host) || not (same_port u.port v.port)) ≡ false
        → same_host u.host v.host ≡ true
    first e = ground arith

    second :
        (not (same_host u.host v.host) || not (same_port u.port v.port)) ≡ false
        → same_port u.port v.port ≡ true
    second e = ground arith

    hosts : (a b : Option String) → same_host a b ≡ true → a ≡ b
    hosts none none h = refl
    hosts none (some b) h = absurd (cc)
    hosts (some a) none h = absurd (cc)
    hosts (some a) (some b) h = ap some ((eq_iff a b).0 h)

    ports : (a b : Option ℕ) → same_port a b ≡ true → a ≡ b
    ports none none h = refl
    ports none (some b) h = absurd (cc)
    ports (some a) none h = absurd (cc)
    ports (some a) (some b) h = ap some ((==_iff a b).0 h)

-- The request holds no sensitive header, or it goes to the host and port of the first URL.
abbrev pub KeepsSecrets : Url → Request → Type 0
KeepsSecrets first r = HasNoneOf sensitive_headers r.headers ⊎ IsSameOrigin first r.url

module _ (t : Transport) (first : Url) where
  hop-KeepsSecrets :
      (prev next : Url) (drops : Bool) (h : Headers)
      → HasNoneOf sensitive_headers h ⊎ IsSameOrigin first prev
      → HasNoneOf sensitive_headers (next_headers t prev next drops h) ⊎ IsSameOrigin first next
  unfolding next_headers
  hop-KeepsSecrets prev next drops h keeps = by_hop (is_cross_host_hop prev next) refl keeps
    where
      kept : Headers
      kept = if drops then without_all payload_headers h else h

      kept-HasNoneOf :
          (d : Bool)
          → HasNoneOf sensitive_headers h
          → HasNoneOf sensitive_headers (if d then without_all payload_headers h else h)
      kept-HasNoneOf true p = HasNoneOf-without_all sensitive_headers payload_headers h p
      kept-HasNoneOf false p = p

      by_hop :
          (cross : Bool)
          → is_cross_host_hop prev next ≡ cross
          → HasNoneOf sensitive_headers h ⊎ IsSameOrigin first prev
          → HasNoneOf sensitive_headers (
              add_referer
                (t.make_referer prev next)
                (if cross then without_all sensitive_headers kept else kept))
            ⊎ IsSameOrigin first next
      by_hop true e keeps = inl (
          referer-HasNoneOf (t.make_referer prev next) (without_all sensitive_headers kept)
            (removed-HasNoneOf sensitive_headers kept))
      by_hop false e (inl clean) =
          inl (referer-HasNoneOf (t.make_referer prev next) kept (kept-HasNoneOf drops clean))
      by_hop false e (inr (p, q)) = let (p', q') = same_origin prev next e in inr (p ∙ p', q ∙ q')

  -- What a run keeps: it ends, within the hops that are left, and keeps the secrets.
  abbrev Kept : ℕ → List Request × Ending → Type 0
  Kept n (sent, ending) = (length sent ≤ n) × (ending ≢ out_of_fuel) × All (KeepsSecrets first) sent

  answered≢out_of_fuel : (status : ℕ) → answered status ≢ out_of_fuel
  answered≢out_of_fuel status e = cc

  failed≢out_of_fuel : (e : RuntimeErrorKind) → failed e ≢ out_of_fuel
  failed≢out_of_fuel e p = cc

  located-Kept :
      (n hops : ℕ) (req : Request) (status : ℕ) (location : Option Url)
      (again : ℕ → Request → List Request × Ending)
      → KeepsSecrets first req
      → hops + n ≡ t.max_redirects
      → (0 < n → (r : Request) → KeepsSecrets first r → Kept n (again (hops + 1) r))
      → Kept n (located t again hops req status location)
  unfolding located decided next_request decide_redirect
  located-Kept n hops req status none again keeps left IH =
      (omega arith, answered≢out_of_fuel status, tt)
  located-Kept n hops req status (some next) again keeps left IH =
      by_tests
        (str_eq req.url.scheme "https"
          && (str_eq next.scheme "http" && not t.allow_downgrade_redirects))
        (leb t.max_redirects hops) refl
    where
      below : leb t.max_redirects hops ≡ false → 0 < n
      below e = ground arith

      by_tests :
          (downgrade limit : Bool)
          → leb t.max_redirects hops ≡ limit
          → Kept n (
              decided t again hops req status next
                (if downgrade then refuse_downgrade else if limit then refuse_limit else follow))
      by_tests true limit e = (omega arith, failed≢out_of_fuel _, tt)
      by_tests false true e = (omega arith, failed≢out_of_fuel _, tt)
      by_tests false false e =
          IH (below e) (next_request t status req next)
            (hop-KeepsSecrets req.url next (rewritten status req.method).1 req.headers keeps)

  answer-Kept :
      (n hops : ℕ) (req : Request) (answer : Answer) (again : ℕ → Request → List Request × Ending)
      → KeepsSecrets first req
      → hops + n ≡ t.max_redirects
      → (0 < n → (r : Request) → KeepsSecrets first r → Kept n (again (hops + 1) r))
      → Kept n (answered_by t again hops req answer)
  unfolding answered_by
  answer-Kept n hops req (send_failed e) again keeps left IH =
      (omega arith, failed≢out_of_fuel e, tt)
  answer-Kept n hops req (received status location) again keeps left IH =
      by_status (is_redirect status)
    where
      by_status :
          (b : Bool)
          → Kept n (if b then located t again hops req status location else ([], answered status))
      by_status true = located-Kept n hops req status location again keeps left IH
      by_status false = (omega arith, answered≢out_of_fuel status, tt)

  round-Kept :
      (n hops : ℕ) (req : Request)
      → KeepsSecrets first req
      → hops + n ≡ t.max_redirects
      → (0 < n → (r : Request) → KeepsSecrets first r → Kept n (request_loop t n (hops + 1) r))
      → Kept (suc n) (request_loop t (suc n) hops req)
  unfolding request_loop
  round-Kept n hops req keeps left IH = by_gate (t.not_sent hops req.url)
    where
      rest : List Request × Ending
      rest = answered_by t (λ h r. request_loop t n h r) hops req (t.send hops req)

      rest-Kept : Kept n rest
      rest-Kept =
          answer-Kept n hops req (t.send hops req) (λ h r. request_loop t n h r) keeps left IH

      by_gate :
          (o : Option RuntimeErrorKind)
          → Kept (suc n) (elim o as (λ _. List Request × Ending) [
            | some e ↦ ([], failed e)
            | none ↦ and_sent t req rest
          ])
      by_gate (some e) = (omega arith, failed≢out_of_fuel e, tt)
      by_gate none =
          let (bound, ends, all) = rest-Kept in (omega (arith, bound), ends, (keeps, all))

  request_loop-Kept :
      (n hops : ℕ) (req : Request)
      → KeepsSecrets first req
      → hops + n ≡ t.max_redirects
      → Kept (suc n) (request_loop t (suc n) hops req)
  request_loop-Kept zero hops req keeps left =
      round-Kept zero hops req keeps left (λ lt. absurd (omega (arith, lt)))
  request_loop-Kept (suc m) hops req keeps left =
      round-Kept (suc m) hops req keeps left
        (λ lt r k. request_loop-Kept m (hops + 1) r k (omega (arith, left)))

-- Every request ends, after at most `max_redirects` hops, whatever the network answers; and each
-- request that is sent on the way holds no sensitive header, or goes to the host and port of the
-- first URL.
pub request-KeepsSecrets :
    (t : Transport) (req : Request)
    → (length (request t req).0 ≤ suc t.max_redirects)
      × ((request t req).1 ≢ out_of_fuel)
      × All (KeepsSecrets req.url) (request t req).0
unfolding request
request-KeepsSecrets t req =
    request_loop-Kept t req.url t.max_redirects 0 req (inr (refl, refl)) (omega arith)
