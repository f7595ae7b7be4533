-- ===== src/Middleware/Order.antt =====
-- The order in which `MiddlewareChain` of my_nginx_event/src/middleware/middlewareChain.cpp calls its
-- middlewares.
use mynginx_evnet_module.Base.{
  ℕ, ◌≡◌, refl, sym, ap, ◌∙◌, Option, none, some, List, [], ◌∷◌, ◌++◌, map, reverse, append_assoc,
  append-nil, fun_ext,
}
use mathlib.Core.List.{reverse_aux}
use mynginx_evnet_module.Http.Request.{HttpRequest}
use mynginx_evnet_module.Http.Response.{HttpResponse}
use mynginx_evnet_module.Http.Exception.{Thrown, completed}
use mynginx_evnet_module.Middleware.{
  Before, passed, threw, crashed, Middleware, and_before, process_before, after_loop, process_after,
}

-- A middleware that lets all pass and writes its name down.
abbrev pub tracer : ℕ → Option (Middleware (List ℕ))
tracer n =
    some (record {
      before = λ q w. (passed q, w ++ n ∷ []);
      after = λ r w. (completed r, w ++ n ∷ []);
    })

before-tracers :
    (names : List ℕ) (q : HttpRequest) (w : List ℕ)
    → process_before (map tracer names) q w ≡ (passed q, w ++ names)
unfolding process_before
before-tracers [] q w = ap (λ v. (passed q, v)) (sym (append-nil w))
before-tracers (n ∷ names) q w =
    before-tracers names q (w ++ n ∷ []) ∙ ap (λ v. (passed q, v)) (append_assoc w (n ∷ []) names)

after-tracers :
    (names : List ℕ) (r : HttpResponse) (w : List ℕ)
    → after_loop (map tracer names) r w ≡ (r, w ++ names)
unfolding after_loop
after-tracers [] r w = ap (λ v. (r, v)) (sym (append-nil w))
after-tracers (n ∷ names) r w =
    after-tracers names r (w ++ n ∷ []) ∙ ap (λ v. (r, v)) (append_assoc w (n ∷ []) names)

map-reverse_aux :
    {A B : Type 0} (f : A → B) (xs acc : List A)
    → map f (reverse_aux xs acc) ≡ reverse_aux (map f xs) (map f acc)
map-reverse_aux f [] acc = refl
map-reverse_aux f (x ∷ xs) acc = map-reverse_aux f xs (x ∷ acc)

-- Middlewares that let all requests and responses pass are called in the order in which they were
-- added before the request is handled, and in the opposite order behind it.
pub process-tracers :
    (names : List ℕ) (q : HttpRequest) (r : HttpResponse) (w : List ℕ)
    → (process_before (map tracer names) q w ≡ (passed q, w ++ names))
      × (process_after (map tracer names) r w ≡ (r, w ++ reverse names))
unfolding process_after
process-tracers names q r w = (
  before-tracers names q w,
  ap (λ ms. after_loop ms r w) (sym (map-reverse_aux tracer names []))
      ∙ after-tracers (reverse names) r w,
)

and_before_assoc :
    {W : Type 0} (b : Before × W) (f g : HttpRequest → W → Before × W)
    → and_before b (λ q w. and_before (f q w) g) ≡ and_before (and_before b f) g
and_before_assoc (passed q, w) f g = refl
and_before_assoc (threw e, w) f g = refl
and_before_assoc (crashed, w) f g = refl

process_before-append :
    {W : Type 0} (ms ns : List (Option (Middleware W))) (q : HttpRequest) (w : W)
    → process_before (ms ++ ns) q w ≡ and_before (process_before ms q w) (process_before ns)
unfolding process_before
process_before-append [] ns q w = refl
process_before-append (none ∷ ms) ns q w = refl
process_before-append (some m ∷ ms) ns q w =
    ap (and_before (m.before q w)) (fun_ext (λ p. fun_ext (λ v. process_before-append ms ns p v)))
    ∙ and_before_assoc (m.before q w) (process_before ms) (process_before ns)

-- When the middlewares before one let a request pass and that one throws, the exception is the result,
-- with the state as that one left it, and no later middleware has any effect.
pub process_before-threw :
    {W : Type 0} (ms ns : List (Option (Middleware W))) (m : Middleware W) (q q' : HttpRequest)
    (e : Thrown) (w w' w'' : W)
    → process_before ms q w ≡ (passed q', w')
    → m.before q' w' ≡ (threw e, w'')
    → process_before (ms ++ some m ∷ ns) q w ≡ (threw e, w'')
unfolding process_before
process_before-threw ms ns m q q' e w w' w'' h k =
    process_before-append ms (some m ∷ ns) q w
    ∙ ap (λ b. and_before b (process_before (some m ∷ ns))) h
    ∙ ap (λ b. and_before b (process_before ns)) k
