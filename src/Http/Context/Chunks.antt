-- ===== src/Http/Context/Chunks.antt =====
-- A body of a known length that arrives in pieces: `case kExpectBody` of
-- my_nginx_event/src/http/my_http_context.cpp over several calls of `parseRequest`.
use mynginx_evnet_module.Base.{
  ℕ, suc, ◌+◌, ◌≤◌, ◌<◌, ◌≡◌, refl, ◌∙◌, ap, true, false, some, List, [], ◌∷◌, ◌++◌, arith,
  append_assoc, length, length-append, take, take_all, drop-append, lt→ltb, le→ltb, le→leb,
  lt→not_leb,
}
use mynginx_evnet_module.Base.Bytes.{Bytes}
use mynginx_evnet_module.Http.Request.{append_body}
use mynginx_evnet_module.Http.Context.State.{
  Context, Surroundings, expect_body, got_all, continues, size_mod, unread,
}
use mynginx_evnet_module.Http.Context.Body.{
  bytes_to_copy, take_body, check_complete, plain_body_step,
}
use mynginx_evnet_module.Http.Context.Loop.{
  Outcome, step_in, body_step, parse_loop, parse_request, finish, received, returned,
}
use mynginx_evnet_module.Http.Context.Complete.{parse_loop-got_all}

-- A context that waits for more of a plain body, all received bytes taken.
pub record IsReceiving (c : Context) : Type 0 where
  pub in_body : c.state ≡ expect_body
  pub no_boundary : c.request.boundary ≡ []
  pub all_read : c.parsed_pos ≡ length c.buffer
  pub more_to_come : c.body_bytes_received < c.request.content_length
  pub in_range : c.request.content_length < size_mod

-- The context behind a piece of the body.
abbrev pub after_piece : Context → Bytes → Context
after_piece c piece = record c {
  request = append_body c.request piece;
  buffer = c.buffer ++ piece;
  parsed_pos = c.parsed_pos + length piece;
  body_bytes_received = c.body_bytes_received + length piece;
}

-- One call for each piece while `parse_request` asks for more; other results end the row.
pub receive_all : Surroundings → ℕ → ℕ → Context → Bytes → List Bytes → Outcome
receive_all env now fuel c piece [] = parse_request env now fuel c piece
receive_all env now fuel c piece (next ∷ pieces) = elim (parse_request env now fuel c piece) [
  | returned c' false false ↦ receive_all env now fuel c' next pieces
  | other ↦ other
]

plain-body-step :
    (c : Context) (piece : Bytes)
    → IsReceiving c
    → c.body_bytes_received + length piece ≤ c.request.content_length
    → plain_body_step (received c piece)
      ≡ check_complete (record { context = after_piece c piece; ok = false; is_err = false })
unfolding plain_body_step
plain-body-step c piece v h =
    let r = received c piece in
    let u : unread r.context ≡ piece = drop-append c.parsed_pos c.buffer piece v.all_read in
    let n : bytes_to_copy r ≡ length piece =
      unfold bytes_to_copy in omega (arith, v, length-append c.buffer piece) in
    ap (λ k. check_complete (take_body r k)) n
    ∙ ap
        (λ t. check_complete (record r {
          context = record r.context {
            request = append_body c.request t;
            parsed_pos = c.parsed_pos + length piece;
            body_bytes_received = c.body_bytes_received + length piece;
          };
        }))
        (ap (take (length piece)) u ∙ take_all (length piece) piece (omega arith))

-- One call in the body.
parse_request-piece :
    (env : Surroundings) (now fuel : ℕ) (c : Context) (piece : Bytes)
    → IsReceiving c
    → 0 < length piece
    → c.body_bytes_received + length piece ≤ c.request.content_length
    → parse_request env now (suc fuel) c piece
      ≡ parse_loop env now fuel
          (check_complete (record { context = after_piece c piece; ok = false; is_err = false }))
unfolding parse_request parse_loop step_in body_step
parse_request-piece env now fuel c piece v p h =
    let r = received c piece in
    let s : step_in env now r.state r ≡ some (continues (plain_body_step r)) =
      ap (λ st. step_in env now st r) v.in_body ∙ rw v.no_boundary refl in
    rw
      (
        lt→ltb r.parsed_pos (length r.buffer) (omega (arith, v, length-append c.buffer piece)),
        parse_loop,
        s,
        parse_loop,
      )
      (ap (parse_loop env now fuel) (plain-body-step c piece v h))

-- A piece that does not complete the body.
piece-partial :
    (env : Surroundings) (now fuel : ℕ) (c : Context) (piece : Bytes)
    → IsReceiving c
    → 0 < length piece
    → c.body_bytes_received + length piece < c.request.content_length
    → parse_request env now (suc (suc fuel)) c piece ≡ returned (after_piece c piece) false false
unfolding parse_loop check_complete finish append_body
piece-partial env now fuel c piece v p h =
    parse_request-piece env now (suc fuel) c piece v p (omega arith)
    ∙ rw (
      lt→not_leb c.request.content_length (c.body_bytes_received + length piece) h,
      parse_loop,
      le→ltb (c.parsed_pos + length piece) (length (c.buffer ++ piece))
          (omega (arith, v, length-append c.buffer piece)),
    )

piece-IsReceiving :
    (c : Context) (piece : Bytes)
    → IsReceiving c
    → c.body_bytes_received + length piece < c.request.content_length
    → IsReceiving (after_piece c piece)
unfolding append_body
piece-IsReceiving c piece v h = record {
  in_body = v.in_body;
  no_boundary = v.no_boundary;
  all_read = omega (arith, v, length-append c.buffer piece);
  more_to_come = h;
  in_range = v.in_range;
}

-- The piece that completes it.
piece-last :
    (env : Surroundings) (now fuel : ℕ) (c : Context) (piece : Bytes)
    → IsReceiving c
    → c.body_bytes_received + length piece ≡ c.request.content_length
    → parse_request env now (suc (suc fuel)) c piece
      ≡ returned (record (after_piece c piece) { state = got_all }) true false
unfolding check_complete append_body
piece-last env now fuel c piece v h =
    let k = le→leb c.request.content_length (c.body_bytes_received + length piece) (omega arith) in
    parse_request-piece env now (suc fuel) c piece v (omega (arith, v)) (omega arith)
    ∙ rw k (
        parse_loop-got_all env now fuel
          (record {
            context = record (after_piece c piece) { state = got_all };
            ok = true;
            is_err = false;
          })
          refl refl refl)

abbrev pub all_pieces : Bytes → List Bytes → Bytes
all_pieces piece [] = piece
all_pieces piece (next ∷ pieces) = piece ++ all_pieces next pieces

abbrev pub NoneEmpty : Bytes → List Bytes → Type 0
NoneEmpty piece [] = 0 < length piece
NoneEmpty piece (next ∷ pieces) = (0 < length piece) × NoneEmpty next pieces

pieces-pos :
    (piece : Bytes) (pieces : List Bytes)
    → NoneEmpty piece pieces
    → 0 < length (all_pieces piece pieces)
pieces-pos piece [] h = h
pieces-pos piece (next ∷ pieces) h =
    omega (arith, length-append piece (all_pieces next pieces), h.0)

-- However the missing bytes of a body are cut into non-empty reads, every read but the last makes
-- `parse_request` ask for more, and the last one completes the request: its body is then what it was
-- followed by all the bytes read, in order, and no other part of the request has changed.
pub receive_all-pieces :
    (env : Surroundings) (now fuel : ℕ) (pieces : List Bytes) (piece : Bytes) (c : Context)
    → IsReceiving c
    → NoneEmpty piece pieces
    → c.body_bytes_received + length (all_pieces piece pieces) ≡ c.request.content_length
    → (c' : Context) × (receive_all env now (suc (suc fuel)) c piece pieces
        ≡ returned c' true false)
      × (c'.state ≡ got_all)
      × (c'.request ≡ record c.request { content = c.request.content ++ all_pieces piece pieces })
unfolding receive_all append_body
receive_all-pieces env now fuel [] piece c v n h = (
  record (after_piece c piece) { state = got_all },
  piece-last env now fuel c piece v h,
  refl,
  refl,
)
receive_all-pieces env now fuel (next ∷ pieces) piece c v n h =
    let l = length-append piece (all_pieces next pieces) in
    let q = pieces-pos next pieces n.1 in
    let less : c.body_bytes_received + length piece < c.request.content_length = omega arith in
    let (c', e, s, r) =
      receive_all-pieces env now fuel pieces next (after_piece c piece)
        (piece-IsReceiving c piece v less) n.1 (omega arith) in
    (
      c',
      rw (piece-partial env now fuel c piece v n.0 less, receive_all) e,
      s,
      r
          ∙ ap (λ t. record c.request { content = t })
              (append_assoc c.request.content piece (all_pieces next pieces)),
    )
