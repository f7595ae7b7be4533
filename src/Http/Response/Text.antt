-- ===== src/Http/Response/Text.antt =====
-- What `appendToBuffer` of my_nginx_event/src/http/my_http_response.cpp writes.
use mynginx_evnet_module.Base.{
  ℕ, ◌+◌, ◌*◌, ◌-◌, ◌≤◌, ◌<◌, ◌≡◌, ◌≢◌, refl, ap, ◌∙◌, Bool, true, false, some, none, [], ◌∷◌, ◌++◌,
  append_assoc, if◌then◌else◌, take_all, Bool-cases, inl, inr, length, length-append, arith, le→leb,
  ◌==◌,
}
use mynginx_evnet_module.Base.Bytes.{Bytes, codes}
use mynginx_evnet_module.Base.Decimal.{
  decimal, AllDigits, value, value-decimal, decimal-AllDigits, length-decimal,
}
use mynginx_evnet_module.Http.Filename.{is_space}
use mynginx_evnet_module.Http.Response.{
  HttpResponse, code_number, status_prefix, format_limit, append_headers, append_to_buffer,
}
use mynginx_evnet_module.Http.Context.Message.{Pairs, headers_text}
use mynginx_evnet_module.Http.Context.State.{crlf}
use mynginx_evnet_module.Http.Context.Headers.{read_digits, stoi_uint64, int_max, skip_space}

-- `version code message`
abbrev pub status_line_text : HttpResponse → Bytes
status_line_text r =
    r.http_version ++ b' ' ∷ (decimal (code_number r.status_code) ++ b' ' ∷ r.status_message)

abbrev pub connection_header : Bool → Bytes × Bytes
connection_header true = (codes "Connection", codes "close")
connection_header false = (codes "Connection", codes "Keep-Alive")

abbrev pub response_text : HttpResponse → Bytes
response_text r =
    status_line_text r
    ++ (crlf ++ headers_text (connection_header r.close_connection ∷ r.headers) r.body)

append_headers_lem :
    (hs : Pairs) (out body : Bytes)
    → append_headers hs out ++ codes "\r\n" ++ body ≡ out ++ headers_text hs body
unfolding append_headers
append_headers_lem [] out body = simp append_assoc
append_headers_lem ((k, v) ∷ hs) out body =
    append_headers_lem hs (out ++ k ++ codes ": " ++ v ++ codes "\r\n") body ∙ simp (append_assoc)

-- The version and the code fit the buffer of `snprintf`.
abbrev pub Fits : HttpResponse → Type 0
Fits r = length r.http_version + length (decimal (code_number r.status_code)) + 2 ≤ format_limit

status_prefix_lem :
    (r : HttpResponse)
    → Fits r
    → status_prefix r ≡ r.http_version ++ b' ' ∷ (decimal (code_number r.status_code) ++ b' ' ∷ [])
unfolding status_prefix
status_prefix_lem r h = take_all format_limit _ (
    omega (
      arith,
      h,
      length-append r.http_version (b' ' ∷ (decimal (code_number r.status_code) ++ b' ' ∷ [])),
      length-append (decimal (code_number r.status_code)) (b' ' ∷ []),
    ))

-- If the version and the code fit the 32-byte buffer of `snprintf`, `append_to_buffer` writes behind
-- what is there one status line, one `Connection` header for the connection's fate, the headers in
-- their order, an empty line and the body, each line ended by CRLF and nothing cut off.
pub append_to_buffer-response_text :
    (r : HttpResponse) (out : Bytes) → Fits r → append_to_buffer r out ≡ out ++ response_text r
unfolding append_to_buffer
append_to_buffer-response_text r out h = elim (Bool-cases r.close_connection) [
  | inl e ↦ rw (e, append_headers_lem, status_prefix_lem r h) (simp (append_assoc))
  | inr e ↦ rw (e, append_headers_lem, status_prefix_lem r h) (simp (append_assoc))
]

read_digits_lem :
    (cs : Bytes) (acc : ℕ) → AllDigits cs → read_digits acc true cs ≡ some (value acc cs)
unfolding read_digits AllDigits
read_digits_lem [] acc h = refl
read_digits_lem (c ∷ cs) acc h =
    rw (le→leb b'0' c h.0.0, le→leb c b'9' h.0.1, read_digits)
      (read_digits_lem cs (acc * 10 + (c - b'0')) h.1)

read_digits_first :
    (c : ℕ) (cs : Bytes)
    → AllDigits (c ∷ cs)
    → read_digits 0 false (c ∷ cs) ≡ some (value 0 (c ∷ cs))
unfolding read_digits AllDigits
read_digits_first c cs h =
    rw (le→leb b'0' c h.0.0, le→leb c b'9' h.0.1, read_digits)
      (read_digits_lem cs (0 + (c - b'0')) h.1)

skip_space-digit : (c : ℕ) (cs : Bytes) → (b'0' ≤ c) × (c ≤ b'9') → skip_space (c ∷ cs) ≡ c ∷ cs
unfolding skip_space is_space
skip_space-digit c cs h = ground (arith, h)

==-false : (a b : ℕ) → a ≢ b → (a == b) ≡ false
==-false a b h = ground (arith, h)

stoi_uint64-digits :
    (cs : Bytes)
    → AllDigits cs
    → 0 < length cs
    → value 0 cs ≤ int_max
    → stoi_uint64 cs ≡ some (value 0 cs)
unfolding stoi_uint64 AllDigits
stoi_uint64-digits [] d l h = absurd (omega arith)
stoi_uint64-digits (c ∷ cs) d l h =
    let s : skip_space (c ∷ cs) ≡ c ∷ cs = skip_space-digit c cs d.0 in
    rw
      (
        stoi_uint64,
        s,
        ==-false c b'-' (omega (arith, d.0)),
        ==-false c b'+' (omega (arith, d.0)),
        read_digits_first c cs d,
      )
      (ap (λ b. if b then some (value 0 (c ∷ cs)) else none) (le→leb (value 0 (c ∷ cs)) int_max h))

-- A number that fits a 32-bit `int`, written in decimal as `set_content_length` writes it, is read
-- back by the `stoi` that the request parser applies to a `Content-Length`.
pub stoi_uint64-decimal : (n : ℕ) → n ≤ int_max → stoi_uint64 (decimal n) ≡ some n
stoi_uint64-decimal n h =
    stoi_uint64-digits (decimal n) (decimal-AllDigits n) (length-decimal n)
      (omega (arith, value-decimal n, h))
    ∙ ap some (value-decimal n)
