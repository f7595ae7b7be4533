-- ===== src/Http/Response.antt =====
-- `HttpResponse` of my_nginx_event/include/http/my_http_response.h and
-- my_nginx_event/src/http/my_http_response.cpp.
pub mod Text
use mynginx_evnet_module.Base.{ℕ, Bool, true, false, List, [], ◌∷◌, ◌++◌, if◌then◌else◌, take}
use mynginx_evnet_module.Base.Bytes.{Bytes, codes}
use mynginx_evnet_module.Base.Dict.{insert_sorted}
use mynginx_evnet_module.Base.Decimal.{decimal}

pub data StatusCode : Type 0 where
  unknown ok no_content partial_content moved_permanently bad_request unauthorized forbidden :
      StatusCode
  not_found conflict range_not_satisfiable too_many_requests internal_server_error : StatusCode
  service_unavailable : StatusCode

-- The values of the `enum`.
abbrev pub code_number : StatusCode → ℕ
code_number unknown = 0
code_number ok = 200
code_number no_content = 204
code_number partial_content = 206
code_number moved_permanently = 301
code_number bad_request = 400
code_number unauthorized = 401
code_number forbidden = 403
code_number not_found = 404
code_number conflict = 409
code_number range_not_satisfiable = 416
code_number too_many_requests = 429
code_number internal_server_error = 500
code_number service_unavailable = 503

pub record HttpResponse : Type 0 where
  pub http_version : Bytes
  pub status_code : StatusCode
  pub status_message : Bytes
  pub close_connection : Bool
  pub headers : List (Bytes × Bytes)
  pub body : Bytes

-- The constructor; its argument is true by default.
abbrev pub new_response : Bool → HttpResponse
new_response close = record {
  http_version = [];
  status_code = unknown;
  status_message = [];
  close_connection = close;
  headers = [];
  body = [];
}

unfoldable pub add_response_header : HttpResponse → Bytes → Bytes → HttpResponse
add_response_header r key text = record r { headers = insert_sorted key text r.headers }

unfoldable pub set_content_type : HttpResponse → Bytes → HttpResponse
unfolding add_response_header
set_content_type r text = add_response_header r (codes "Content-Type") text

unfoldable pub set_content_length : HttpResponse → ℕ → HttpResponse
unfolding add_response_header
set_content_length r n = add_response_header r (codes "Content-Length") (decimal n)

abbrev pub set_close_connection : HttpResponse → Bool → HttpResponse
set_close_connection r on = record r { close_connection = on }

abbrev pub set_response_body : HttpResponse → Bytes → HttpResponse
set_response_body r text = record r { body = text }

abbrev pub set_status_line : HttpResponse → Bytes → StatusCode → Bytes → HttpResponse
set_status_line r version code message = record r {
  http_version = version;
  status_code = code;
  status_message = message;
}

-- `snprintf` into `char buf[32]`: at most 31 bytes of the text.
abbrev pub format_limit : ℕ
format_limit = 31

unfoldable pub status_prefix : HttpResponse → Bytes
status_prefix r =
    take format_limit (r.http_version ++ b' ' ∷ (decimal (code_number r.status_code) ++ b' ' ∷ []))

-- The loop over the headers.
unfoldable pub append_headers : List (Bytes × Bytes) → Bytes → Bytes
append_headers [] out = out
append_headers ((key, text) ∷ hs) out =
    append_headers hs (out ++ key ++ codes ": " ++ text ++ codes "\r\n")

unfoldable pub append_to_buffer : HttpResponse → Bytes → Bytes
unfolding status_prefix append_headers
append_to_buffer r out =
    let line = out ++ status_prefix r ++ r.status_message ++ codes "\r\n" in
    let connection =
      if r.close_connection
      then line ++ codes "Connection: close\r\n"
      else line ++ codes "Connection: Keep-Alive\r\n" in
    append_headers r.headers connection ++ codes "\r\n" ++ r.body
