-- ===== src/Route.antt =====
-- `Router` of my_nginx_event/include/route/router.h and my_nginx_event/src/route/router.cpp. What a
-- handler or a callback does with a request and a response, and `std::regex`, are parameters.
pub mod Match
use mynginx_evnet_module.Base.{
  ℕ, zero, suc, ◌+◌, ◌≡◌, Bool, true, false, ◌&&◌, Option, none, some, List, [], ◌∷◌, ◌++◌,
  if◌then◌else◌, ◌==◌,
}
use mynginx_evnet_module.Base.Bytes.{Bytes, codes, equal}
use mynginx_evnet_module.Base.Decimal.{decimal}
use mynginx_evnet_module.Http.Request.{
  HttpRequest, Method, invalid, get, post, head, put, delete, options, set_path_parameters,
}
use mynginx_evnet_module.Http.Response.{HttpResponse}
use mynginx_evnet_module.Http.Exception.{Acted, completed}

-- `std::regex`: `regex_replace` on a subject with a pattern and a format, the compiled regex, and the
-- captured groups of a full match.
pub record Regexes : Type 1 where
  pub Regex : Type 0
  pub replace : Bytes → Bytes → Bytes → Bytes
  pub compile : Bytes → Regex
  pub full_match : Regex → Bytes → Option (List Bytes)

-- What is done for a request: the response afterwards, and the exception if there is one.
abbrev pub Action : Type 0
Action = HttpRequest → HttpResponse → Acted

pub record RouteKey : Type 0 where
  pub method : Method
  pub path : Bytes

pub record RegexRoute (R : Type 0) : Type 0 where
  pub method : Method
  pub path_regex : R
  pub action : Action

pub record Router (R : Type 0) : Type 0 where
  pub handlers : List (RouteKey × Action)
  pub callbacks : List (RouteKey × Action)
  pub regex_handlers : List (RegexRoute R)
  pub regex_callbacks : List (RegexRoute R)

-- The values of the `enum` of methods.
abbrev pub method_number : Method → ℕ
method_number invalid = 0
method_number get = 1
method_number post = 2
method_number head = 3
method_number put = 4
method_number delete = 5
method_number options = 6

abbrev pub same_method : Method → Method → Bool
same_method a b = method_number a == method_number b

-- `RouteKey::operator==`
unfoldable pub same_key : RouteKey → RouteKey → Bool
same_key a b = same_method a.method b.method && equal a.path b.path

unfoldable pub put_route : RouteKey → Action → List (RouteKey × Action) → List (RouteKey × Action)
put_route k a [] = (k, a) ∷ []
put_route k a ((j, b) ∷ m) = if same_key j k then (j, a) ∷ m else (j, b) ∷ put_route k a m

unfoldable pub find_route : RouteKey → List (RouteKey × Action) → Option Action
find_route k [] = none
find_route k ((j, a) ∷ m) = if same_key j k then some a else find_route k m

unfoldable pub extract_from : ℕ → List Bytes → HttpRequest → HttpRequest
extract_from i [] q = q
extract_from i (g ∷ gs) q =
    extract_from (i + 1) gs (set_path_parameters q (codes "param" ++ decimal i) g)

-- `extractPathParameters`, on the groups from index 1 on.
unfoldable pub extract_path_parameters : List Bytes → HttpRequest → HttpRequest
unfolding extract_from
extract_path_parameters groups q = extract_from 1 groups q

module _ {R : Type 0} where
  unfoldable pub register_handler : Router R → Method → Bytes → Action → Router R
  unfolding put_route
  register_handler t m path h = record t {
    handlers = put_route (record { method = m; path = path }) h t.handlers;
  }

  unfoldable pub register_callback : Router R → Method → Bytes → Action → Router R
  unfolding put_route
  register_callback t m path c = record t {
    callbacks = put_route (record { method = m; path = path }) c t.callbacks;
  }

module _ (lib : Regexes) where
  unfoldable pub convert_to_regex : Bytes → lib.Regex
  convert_to_regex pattern =
      lib.compile
        (codes "^" ++ lib.replace pattern (codes "/:([^/]+)") (codes "/([^/]+)") ++ codes "$")

  unfoldable pub add_regex_handler : Router lib.Regex → Method → Bytes → Action → Router lib.Regex
  unfolding convert_to_regex
  add_regex_handler t m path h = record t {
    regex_handlers =
        t.regex_handlers
        ++ record { method = m; path_regex = convert_to_regex path; action = h } ∷ [];
  }

  unfoldable pub add_regex_callback : Router lib.Regex → Method → Bytes → Action → Router lib.Regex
  unfolding convert_to_regex
  add_regex_callback t m path c = record t {
    regex_callbacks =
        t.regex_callbacks
        ++ record { method = m; path_regex = convert_to_regex path; action = c } ∷ [];
  }

  -- The groups, if the method and the path match.
  unfoldable pub match_route : HttpRequest → RegexRoute lib.Regex → Option (List Bytes)
  match_route q e =
      if same_method e.method q.method then lib.full_match e.path_regex q.path else none

  -- The loop over the handlers: a handler gets the request with the path parameters.
  unfoldable pub try_handlers :
      HttpRequest → List (RegexRoute lib.Regex) → Option (HttpResponse → Acted)
  unfolding match_route extract_path_parameters
  try_handlers q [] = none
  try_handlers q (e ∷ es) = elim (match_route q e) [
    | some groups ↦ some (e.action (extract_path_parameters groups q))
    | none ↦ try_handlers q es
  ]

  -- The loop over the callbacks: the path parameters go into a copy, and the callback gets the request.
  unfoldable pub try_callbacks :
      HttpRequest → List (RegexRoute lib.Regex) → Option (HttpResponse → Acted)
  unfolding match_route extract_path_parameters
  try_callbacks q [] = none
  try_callbacks q (e ∷ es) = elim (match_route q e) [
    | some groups ↦ let new_req = extract_path_parameters groups q in some (e.action q)
    | none ↦ try_callbacks q es
  ]

  abbrev pub key_of : HttpRequest → RouteKey
  key_of q = record { method = q.method; path = q.path }

  -- `route`: the return value, and the response with the exception of the handler.
  unfoldable pub route : Router lib.Regex → HttpRequest → HttpResponse → Bool × Acted
  unfolding find_route try_handlers try_callbacks
  route t q resp = elim (find_route (key_of q) t.handlers) [
    | some h ↦ (true, h q resp)
    | none ↦ elim (find_route (key_of q) t.callbacks) [
      | some c ↦ (true, c q resp)
      | none ↦ elim (try_handlers q t.regex_handlers) [
        | some act ↦ (true, act resp)
        | none ↦ elim (try_callbacks q t.regex_callbacks) [
          | some act ↦ (true, act resp)
          | none ↦ (false, completed resp)
        ]
      ]
    ]
  ]
