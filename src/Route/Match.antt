-- ===== src/Route/Match.antt =====
-- Which action `Router::route` of my_nginx_event/src/route/router.cpp takes.
use mynginx_evnet_module.Base.{
  ◌<◌, get_elem?, ℕ, zero, suc, ◌+◌, ◌≡◌, ◌≢◌, refl, ap, ◌∙◌, inl, inr, Bool, true, false, Option,
  none, some, List, [], ◌∷◌, ◌++◌, arith, if◌then◌else◌, Bool-cases, Option-cases,
}
use mynginx_evnet_module.Base.Bytes.{Bytes, codes, equal, equal_iff, equal_refl}
use mynginx_evnet_module.Base.Dict.{lookup, lookup-insert}
use mynginx_evnet_module.Base.Decimal.{decimal, decimal_injective}
use mynginx_evnet_module.Http.Request.{
  HttpRequest, Method, set_path_parameters, get_path_parameters, value_or_empty,
}
use mynginx_evnet_module.Http.Response.{HttpResponse}
use mynginx_evnet_module.Http.Exception.{Acted, completed}
use mynginx_evnet_module.Route.{
  Regexes, Action, RouteKey, RegexRoute, Router, same_key, put_route, find_route, extract_from,
  extract_path_parameters, register_handler, match_route, try_handlers, try_callbacks, key_of,
  route,
}

same_key_trans : (a b c : RouteKey) → same_key a b ≡ true → same_key b c ≡ same_key a c
unfolding same_key
same_key_trans a b c h =
    ground (arith, h, equal_iff a.path b.path, equal_iff b.path c.path, equal_iff a.path c.path)

same_key-not :
    (i k j : RouteKey) → same_key i k ≡ false → same_key k j ≡ true → same_key i j ≡ false
unfolding same_key
same_key-not i k j h f =
    ground (arith, h, f, equal_iff i.path k.path, equal_iff k.path j.path, equal_iff i.path j.path)

find_route-put_route :
    (k j : RouteKey) (a : Action) (m : List (RouteKey × Action))
    → find_route j (put_route k a m) ≡ (if same_key k j then some a else find_route j m)
unfolding find_route put_route
find_route-put_route k j a [] = refl
find_route-put_route k j a ((i, b) ∷ m) = elim (Bool-cases (same_key i k)) [
  | inl e ↦ let t = same_key_trans i k j e in rw (e, put_route, find_route) (ground arith)
  | inr e ↦
      rw (e, put_route, find_route, find_route-put_route k j a m)
        (elim (Bool-cases (same_key k j)) [ inl f ↦ rw (f, same_key-not i k j e f) | inr f ↦ rw f ])
]

same_key_refl : (k : RouteKey) → same_key k k ≡ true
unfolding same_key
same_key_refl k = ground (arith, equal_refl k.path)

-- The path parameter of the group with index `i`.
abbrev param : ℕ → Bytes
param i = codes "param" ++ decimal i

append-left_injective : (x y z : Bytes) → x ++ y ≡ x ++ z → y ≡ z
append-left_injective [] y z h = h
append-left_injective (a ∷ x) y z h = append-left_injective x y z (cc h)

param-equal : (i j : ℕ) → i ≢ j → equal (param i) (param j) ≡ false
param-equal i j h = elim (Bool-cases (equal (param i) (param j))) [
  | inl e ↦ absurd (
      h (
        decimal_injective i j
          (append-left_injective (codes "param") _ _ ((equal_iff (param i) (param j)).0 e))))
  | inr e ↦ e
]

extract_from-before :
    (i j : ℕ) (groups : List Bytes) (q : HttpRequest)
    → j < i
    → lookup (param j) (extract_from i groups q).path_parameters
      ≡ lookup (param j) q.path_parameters
unfolding extract_from set_path_parameters
extract_from-before i j [] q h = refl
extract_from-before i j (g ∷ groups) q h =
    extract_from-before (i + 1) j groups _ (omega arith)
    ∙ lookup-insert (param i) (param j) g q.path_parameters
    ∙ rw (param-equal i j (omega arith))

extract_from-get :
    (i n : ℕ) (groups : List Bytes) (q : HttpRequest) {g : Bytes}
    → get_elem? groups n ≡ some g
    → lookup (param (i + n)) (extract_from i groups q).path_parameters ≡ some g
unfolding extract_from set_path_parameters
extract_from-get i n [] q h = cc
extract_from-get i zero (x ∷ groups) q {g} h =
    ap
      (λ j.
        lookup (param j)
          (extract_from (i + 1) groups (set_path_parameters q (param i) x)).path_parameters)
      {x = i + 0} {y = i} (omega arith)
    ∙ extract_from-before (i + 1) i groups _ (omega arith)
    ∙ lookup-insert (param i) (param i) x q.path_parameters
    ∙ rw (equal_refl (param i)) h
extract_from-get i (suc n) (x ∷ groups) q {g} h =
    ap
      (λ j.
        lookup (param j)
          (extract_from (i + 1) groups (set_path_parameters q (param i) x)).path_parameters)
      {x = i + suc n} {y = i + 1 + n} (omega arith)
    ∙ extract_from-get (i + 1) n groups _ h

-- Behind `extract_path_parameters` the request has every captured group as a path parameter: the
-- first as `param1`, the second as `param2`, and so on, whatever parameters it had before.
get_path_parameters-extract :
    (groups : List Bytes) (n : ℕ) (q : HttpRequest) {g : Bytes}
    → get_elem? groups n ≡ some g
    → get_path_parameters (extract_path_parameters groups q) (codes "param" ++ decimal (1 + n)) ≡ g
unfolding get_path_parameters extract_path_parameters
get_path_parameters-extract groups n q h = ap value_or_empty (extract_from-get 1 n groups q h)

module _ (lib : Regexes) where
  -- The candidates for a request, in order: an exact handler, an exact callback, then the regex
  -- handlers and then the regex callbacks that match, in the order of their registration.
  abbrev pub exact : Option Action → HttpRequest → List (HttpResponse → Acted)
  exact none q = []
  exact (some a) q = a q ∷ []

  unfoldable pub matches :
      (List Bytes → HttpRequest)
      → HttpRequest
      → List (RegexRoute lib.Regex)
      → List (HttpResponse → Acted)
  matches args q [] = []
  matches args q (e ∷ es) = elim (match_route lib q e) [
    | none ↦ matches args q es
    | some groups ↦ e.action (args groups) ∷ matches args q es
  ]

  unfoldable pub candidates : Router lib.Regex → HttpRequest → List (HttpResponse → Acted)
  candidates t q =
      exact (find_route (key_of lib q) t.handlers) q
      ++ exact (find_route (key_of lib q) t.callbacks) q
      ++ matches (λ groups. extract_path_parameters groups q) q t.regex_handlers
      ++ matches (λ groups. q) q t.regex_callbacks

  abbrev pub first_of : List (HttpResponse → Acted) → HttpResponse → Bool × Acted
  first_of [] resp = (false, completed resp)
  first_of (act ∷ acts) resp = (true, act resp)

  abbrev first_or : Option (HttpResponse → Acted) → Bool × Acted → HttpResponse → Bool × Acted
  first_or none other resp = other
  first_or (some act) other resp = (true, act resp)

  try_handlers_lem :
      (q : HttpRequest) (es : List (RegexRoute lib.Regex)) (others : List (HttpResponse → Acted))
      (resp : HttpResponse)
      → first_of (matches (λ groups. extract_path_parameters groups q) q es ++ others) resp
        ≡ first_or (try_handlers lib q es) (first_of others resp) resp
  unfolding matches try_handlers
  try_handlers_lem q [] others resp = refl
  try_handlers_lem q (e ∷ es) others resp = elim (Option-cases (match_route lib q e)) [
    | inl h ↦ rw (h, matches, try_handlers) (try_handlers_lem q es others resp)
    | inr (groups, h) ↦ rw (h, matches, try_handlers)
  ]

  try_callbacks_lem :
      (q : HttpRequest) (es : List (RegexRoute lib.Regex)) (resp : HttpResponse)
      → first_of (matches (λ groups. q) q es) resp
        ≡ first_or (try_callbacks lib q es) (false, completed resp) resp
  unfolding matches try_callbacks
  try_callbacks_lem q [] resp = refl
  try_callbacks_lem q (e ∷ es) resp = elim (Option-cases (match_route lib q e)) [
    | inl h ↦ rw (h, matches, try_callbacks) (try_callbacks_lem q es resp)
    | inr (groups, h) ↦ rw (h, matches, try_callbacks)
  ]

  route-matches :
      (t : Router lib.Regex) (q : HttpRequest) (resp : HttpResponse)
      → elim (try_handlers lib q t.regex_handlers) as (λ x. Bool × Acted) [
        | some act ↦ (true, act resp)
        | none ↦ elim (try_callbacks lib q t.regex_callbacks) as (λ x. Bool × Acted) [
          | some act ↦ (true, act resp)
          | none ↦ (false, completed resp)
        ]
      ]
        ≡ first_of
            (matches (λ groups. extract_path_parameters groups q) q t.regex_handlers
              ++ matches (λ groups. q) q t.regex_callbacks)
            resp
  route-matches t q resp =
      rw
        (
          try_handlers_lem q t.regex_handlers (matches (λ groups. q) q t.regex_callbacks) resp,
          try_callbacks_lem q t.regex_callbacks resp,
        )
        (elim (Option-cases (try_handlers lib q t.regex_handlers)) [
          | inr (a, e) ↦ rw e
          | inl e ↦ rw e (elim (Option-cases (try_callbacks lib q t.regex_callbacks)) [
            | inr (a, f) ↦ rw f
            | inl f ↦ rw f
          ])
        ])

  -- `route` takes the first candidate and returns true, and with no candidate it returns false and
  -- leaves the response alone. A regex handler gets the request with the path parameters, a regex
  -- callback gets the request without them.
  pub route-first_of :
      (t : Router lib.Regex) (q : HttpRequest) (resp : HttpResponse)
      → route lib t q resp ≡ first_of (candidates t q) resp
  unfolding route candidates
  route-first_of t q resp = elim (Option-cases (find_route (key_of lib q) t.handlers)) [
    | inr (a, e) ↦ rw (e, route)
    | inl e ↦ elim (Option-cases (find_route (key_of lib q) t.callbacks)) [
      | inr (a, f) ↦ rw (e, route, f, route)
      | inl f ↦ rw (e, route, f, route) (route-matches t q resp)
    ]
  ]

  -- Behind `register_handler` the requests with that method and path go to the new handler, in place
  -- of any other route, and all other requests go where they went before.
  pub route-register_handler :
      (t : Router lib.Regex) (m : Method) (path : Bytes) (h : Action) (q : HttpRequest)
      (resp : HttpResponse)
      → route lib (register_handler t m path h) q resp ≡ (
          if same_key (record { method = m; path = path }) (key_of lib q)
          then (true, h q resp)
          else route lib t q resp)
  unfolding route register_handler
  route-register_handler t m path h q resp =
      rw
        (
          find_route-put_route (record { method = m; path = path }) (key_of lib q) h t.handlers,
          route,
        )
        (elim (Bool-cases (same_key (record { method = m; path = path }) (key_of lib q))) [
          | inl e ↦ rw e
          | inr e ↦ rw e
        ])
