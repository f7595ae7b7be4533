-- ===== src/Middleware.antt =====
-- `MiddlewareChain` of my_nginx_event/src/middleware/middlewareChain.cpp. A middleware is an object
-- behind a pointer, which may be null; what the middlewares keep is a state of type `W`.
pub mod Bucket
pub mod Limiter
pub mod Auth
pub mod Order
use mynginx_evnet_module.Base.{Option, none, some, List, [], ◌∷◌, ◌++◌, reverse}
use mynginx_evnet_module.Http.Request.{HttpRequest}
use mynginx_evnet_module.Http.Response.{HttpResponse}
use mynginx_evnet_module.Http.Exception.{Thrown, Acted, completed}

-- The request as it was left, an exception, or a call through a null pointer.
pub data Before : Type 0 where
  passed : HttpRequest → Before
  threw : Thrown → Before
  crashed : Before

pub record Middleware (W : Type 0) : Type 0 where
  pub before : HttpRequest → W → Before × W
  pub after : HttpResponse → W → Acted × W

module _ {W : Type 0} where
  -- `addMiddleware`
  abbrev pub add_middleware :
      Option (Middleware W) → List (Option (Middleware W)) → List (Option (Middleware W))
  add_middleware m ms = ms ++ m ∷ []

  -- On with the next middleware, if this one has passed the request on.
  abbrev pub and_before : Before × W → (HttpRequest → W → Before × W) → Before × W
  and_before (passed q, w) next = next q w
  and_before (threw e, w) next = (threw e, w)
  and_before (crashed, w) next = (crashed, w)

  -- `processBefore`, which has no test for a null pointer.
  unfoldable pub process_before : List (Option (Middleware W)) → HttpRequest → W → Before × W
  process_before [] q w = (passed q, w)
  process_before (none ∷ ms) q w = (crashed, w)
  process_before (some m ∷ ms) q w = and_before (m.before q w) (process_before ms)

  -- An exception ends the loop, and is caught and logged behind it.
  abbrev pub and_after : Acted × W → (HttpResponse → W → HttpResponse × W) → HttpResponse × W
  and_after (a, w) next = elim a.thrown [ none ↦ next a.response w | some e ↦ (a.response, w) ]

  -- The loop of `processAfter`, from the last middleware to the first.
  unfoldable pub after_loop : List (Option (Middleware W)) → HttpResponse → W → HttpResponse × W
  after_loop [] r w = (r, w)
  after_loop (none ∷ ms) r w = after_loop ms r w
  after_loop (some m ∷ ms) r w = and_after (m.after r w) (after_loop ms)

  unfoldable pub process_after : List (Option (Middleware W)) → HttpResponse → W → HttpResponse × W
  unfolding after_loop
  process_after ms r w = after_loop (reverse ms) r w
