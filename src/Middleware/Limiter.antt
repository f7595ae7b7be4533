-- ===== src/Middleware/Limiter.antt =====
-- `RateLimiterMiddleware` of
-- my_nginx_event/src/middleware/Rate_Limiting_Algorithm/RateLimiterMiddleware.cpp. `now` is the time
-- that the bucket reads.
use mynginx_evnet_module.Base.{ℕ, Bool, true, false}
use mynginx_evnet_module.Base.Bytes.{codes}
use mynginx_evnet_module.Http.Request.{HttpRequest}
use mynginx_evnet_module.Http.Response.{too_many_requests}
use mynginx_evnet_module.Http.Exception.{http_exception, completed}
use mynginx_evnet_module.Middleware.{Before, passed, threw, Middleware}
use mynginx_evnet_module.Middleware.Bucket.{Doubles, TokenBucket, try_consume}

module _ {D : Type 0} (fl : Doubles D) where
  abbrev pub limited : Bool × TokenBucket D → HttpRequest → Before × TokenBucket D
  limited (true, b) q = (passed q, b)
  limited (false, b) q = (threw (http_exception too_many_requests (codes "Too Many Requests")), b)

  unfoldable pub limiter_before : ℕ → HttpRequest → TokenBucket D → Before × TokenBucket D
  limiter_before now q b = limited (try_consume fl now 1 b) q

  unfoldable pub rate_limiter : ℕ → Middleware (TokenBucket D)
  unfolding limiter_before
  rate_limiter now = record { before = limiter_before now; after = λ r b. (completed r, b) }
