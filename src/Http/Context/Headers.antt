-- ===== src/Http/Context/Headers.antt =====
-- `case kExpectHeaders` of my_nginx_event/src/http/my_http_context.cpp.
use mynginx_evnet_module.Base.{
  ℕ, zero, suc, ◌+◌, ◌-◌, ◌*◌, ◌%◌, Bool, true, false, ◌&&◌, ◌||◌, Option, none, some, [], ◌∷◌, ltb,
  leb, ◌==◌, if◌then◌else◌, length, take, drop,
}
use mynginx_evnet_module.Base.Bytes.{Bytes, codes, is_empty, find_byte, search_bytes}
use mynginx_evnet_module.Http.Filename.{is_space}
use mynginx_evnet_module.Http.Request.{Method, post, put, get_header, add_header}
use mynginx_evnet_module.Http.Context.State.{
  Run, expect_body, got_all, crlf, size_mod, unread, fail, with_request,
}

abbrev pub is_blank : ℕ → Bool
is_blank c = c == b' ' || c == b'\t'

-- `val.erase(0, val.find_first_not_of(" \t"))`
unfoldable pub trim_left : Bytes → Bytes
trim_left [] = []
trim_left (c ∷ cs) = let rest = trim_left cs in if is_blank c then rest else c ∷ cs

-- `key.erase(key.find_last_not_of(" \t") + 1)`
unfoldable pub trim_right : Bytes → Bytes
trim_right [] = []
trim_right (c ∷ cs) = if is_empty (trim_right cs) && is_blank c then [] else c ∷ trim_right cs

-- The digits at the front as a number, and whether there is one.
unfoldable pub read_digits : ℕ → Bool → Bytes → Option ℕ
read_digits acc seen [] = if seen then some acc else none
read_digits acc seen (c ∷ cs) =
    let rest = read_digits (acc * 10 + (c - b'0')) true cs in
    if leb b'0' c && leb c b'9' then rest else if seen then some acc else none

unfoldable pub skip_space : Bytes → Bytes
skip_space [] = []
skip_space (c ∷ cs) = let rest = skip_space cs in if is_space c then rest else c ∷ cs

abbrev pub int_max : ℕ
int_max = 2147483647

abbrev pub in_int : Bool → Option ℕ → Option ℕ
in_int negative none = none
in_int true (some n) = if leb n (int_max + 1) then some ((size_mod - n) % size_mod) else none
in_int false (some n) = if leb n int_max then some n else none

-- `std::stoi`, then the conversion of the `int` to `uint64_t`; `none` is an exception.
unfoldable pub stoi_uint64 : Bytes → Option ℕ
unfolding read_digits
stoi_uint64 text = elim (skip_space text) [
  | [] ↦ none
  | c ∷ cs ↦
      if c == b'-'
      then in_int true (read_digits 0 false cs)
      else if c == b'+'
      then in_int false (read_digits 0 false cs)
      else in_int false (read_digits 0 false (c ∷ cs))
]

abbrev pub has_body : Method → Bool
has_body post = true
has_body put = true
has_body _ = false

abbrev pub finish_headers : Run → Run
finish_headers r = record r { context = record r.context { state = got_all }; ok = true }

-- With a `Content-Length` that was read as `n`.
unfoldable pub set_length : Run → ℕ → Run
set_length r n =
    if ltb 0 n
    then record r {
      context = record r.context {
        state = expect_body;
        request = record r.request { content_length = n };
      };
      ok = false;
    }
    else finish_headers (with_request r (record r.request { content_length = n }))

abbrev pub apply_length : Run → Option ℕ → Run
apply_length r none = fail r
apply_length r (some n) = set_length r n

abbrev pub skip : Run → ℕ → Run
skip r n = record r { context = record r.context { parsed_pos = r.parsed_pos + n } }

-- The empty line behind the headers, already skipped.
unfoldable pub end_of_headers : Run → Run
unfolding stoi_uint64 set_length
end_of_headers r =
    if has_body r.request.method
    then if is_empty (get_header r.request (codes "Content-Length"))
      then fail r
      else apply_length r (stoi_uint64 (get_header r.request (codes "Content-Length")))
    else finish_headers r

-- One header line.
unfoldable pub read_header : Run → Bytes → Run
unfolding trim_left trim_right
read_header r line = elim (find_byte b':' line) [
  | none ↦ fail r
  | some i ↦
      with_request r
        (add_header r.request (trim_right (take i line)) (trim_left (drop (i + 1) line)))
]

-- One round of the inner loop: on to the next line, or out of the loop.
pub data HeaderStep : Type 0 where
  more : Run → HeaderStep
  leave : Run → HeaderStep

unfoldable pub header_step : Run → HeaderStep
unfolding end_of_headers read_header
header_step r = elim (search_bytes crlf (unread r.context)) [
  | none ↦ leave r
  | some off ↦
      if off == 0
      then leave (end_of_headers (skip r 2))
      else more (skip (read_header r (take off (unread r.context))) (off + 2))
]

-- `while(parsed_pos_ < buffer_.size())`; `none` when the fuel runs out.
unfoldable pub header_loop : ℕ → Run → Option Run
unfolding header_step
header_loop zero r = none
header_loop (suc fuel) r =
    if ltb r.parsed_pos (length r.buffer)
    then elim (header_step r) [ leave r' ↦ some r' | more r' ↦ header_loop fuel r' ]
    else some r

abbrev last_is_quote : Bytes → Bool
last_is_quote [] = false
last_is_quote (c ∷ []) = c == b'"'
last_is_quote (c ∷ d ∷ cs) = last_is_quote (d ∷ cs)

-- A boundary in quotes loses them.
unfoldable pub unquote : Bytes → Bytes
unquote [] = []
unquote (c ∷ cs) =
    if c == b'"' then (if last_is_quote cs then take (length cs - 1) cs else cs) else c ∷ cs

-- The boundary of a multipart body is taken from `Content-Type`.
unfoldable pub read_content_type : Run → Run
unfolding unquote
read_content_type r =
    let content_type = get_header r.request (codes "Content-Type") in
    elim (search_bytes (codes "multipart/form-data") content_type) [
      | none ↦ r
      | some i ↦ elim (search_bytes (codes "boundary=") content_type) [
        | none ↦ fail r
        | some pos ↦
            with_request r (record r.request { boundary = unquote (drop (pos + 9) content_type) })
      ]
    ]
