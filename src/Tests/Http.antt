-- ===== src/Tests/Http.antt =====
-- Examples for the parser, the requests and the responses: my_nginx_event/src/http/.
use mynginx_evnet_module.Base.{◌≡◌, refl, true, false, none, [], ◌∷◌, ◌++◌, inl, arith}
use mynginx_evnet_module.Base.Bytes.{
  Bytes, codes, equal, search_bytes, find_byte, starts_with, less, Lacks-of_find_byte,
}
use mynginx_evnet_module.Base.Decimal.{decimal, digits}
use mynginx_evnet_module.Base.Dict.{insert, insert_sorted, lookup}
use mynginx_evnet_module.Http.Files.{close_file_stream}
use mynginx_evnet_module.Http.Request.{
  new_request, add_header, method_of, set_method, swap, get_header, set_query_parameters,
}
use mynginx_evnet_module.Http.Request.Query.{set_query_parameters-query_text}
use mynginx_evnet_module.Http.Filename.{sanitize_filename, is_space}
use mynginx_evnet_module.Http.Filename.Safe.{IsSanitized, sanitize_filename-IsSanitized}
use mynginx_evnet_module.Http.Context.State.{
  Context, Surroundings, new_context, reset, expect_body, got_all,
}
use mynginx_evnet_module.Http.Context.Line.{
  request_line_step, read_line, process_request_line, process_target, set_target, set_version,
}
use mynginx_evnet_module.Http.Context.Headers.{
  trim_left, trim_right, stoi_uint64, header_loop, header_step, end_of_headers, read_header,
  read_content_type, skip_space, read_digits,
}
use mynginx_evnet_module.Http.Context.Loop.{
  parse_request, parse_loop, step_in, finish, returned, unfinished,
}
use mynginx_evnet_module.Http.Context.Fresh.{IsFresh}
use mynginx_evnet_module.Http.Context.Message.{Message, IsMessage, message_text}
use mynginx_evnet_module.Http.Context.Complete.{
  Completes, message_request, parse_request-message_text,
}
use mynginx_evnet_module.Http.Context.Chunks.{IsReceiving, receive_all, receive_all-pieces}
use mynginx_evnet_module.Http.Context.Stall.{no_line, parse_request-unfinished}
use mynginx_evnet_module.Http.Context.Reset.{IsReset, parse_request-failed}
use mynginx_evnet_module.Http.Response.{HttpResponse, ok, append_to_buffer}
use mynginx_evnet_module.Http.Response.Text.{response_text, append_to_buffer-response_text}

abbrev pub nowhere : Surroundings
nowhere = record {
  files = record { can_open = λ p. false; can_write = λ p b. false };
  video_path = none;
  ensure_directory = λ d. false;
  unset = 0;
}

abbrev pub get_message : Message
get_message = record {
  method_name = codes "GET";
  path = codes "/a";
  query = (codes "k", codes "v") ∷ [];
  version = codes "HTTP/1.1";
  headers = (codes "Host", codes "h") ∷ [];
}

pub new_context-IsFresh : IsFresh (new_context 0)
unfolding new_context new_request
new_context-IsFresh = record { waits = refl; empty = refl; at_start = refl; no_method = refl }

pub get_message-IsMessage : IsMessage get_message
unfolding method_of equal find_byte trim_left trim_right
get_message-IsMessage = record {
  known_method = refl;
  method_lacks_space = Lacks-of_find_byte b' ' (codes "GET") refl;
  target_lacks_space = Lacks-of_find_byte b' ' (codes "/a?k=v") refl;
  path_lacks_mark = Lacks-of_find_byte b'?' (codes "/a") refl;
  query_pairs =
      ((Lacks-of_find_byte b'=' (codes "k") refl, Lacks-of_find_byte b'&' (codes "k=v") refl), tt);
  known_version = inl refl;
  line_lacks_break = Lacks-of_find_byte b'\r' (codes "GET /a?k=v HTTP/1.1") refl;
  line_short = omega arith;
  header_fields = (
    record {
      key_lacks_colon = Lacks-of_find_byte b':' (codes "Host") refl;
      lacks_break = Lacks-of_find_byte b'\r' (codes "Host: h") refl;
      key_trimmed = refl;
      value_trimmed = refl;
    },
    tt,
  );
}

parse_request-message_text_example :
    (c' : Context) × (parse_request nowhere 7 3
        (new_context 0)
        (message_text get_message (codes "rest"))
      ≡ returned c' true false)
    × Completes c' (message_request (new_context 0) 7 get_message) (codes "rest")
unfolding method_of equal new_context new_request get_header add_header insert_sorted lookup
    search_bytes set_query_parameters
parse_request-message_text_example =
    parse_request-message_text nowhere 7 0 (new_context 0) get_message (codes "rest")
      new_context-IsFresh get_message-IsMessage refl refl

-- A context in the middle of a body of five bytes, two of which are there.
abbrev half_read : Context
unfolding new_context new_request
half_read = record (new_context 0) {
  state = expect_body;
  request = record new_request { content_length = 5; content = codes "ab" };
  body_bytes_received = 2;
}

half_read-IsReceiving : IsReceiving half_read
unfolding half_read new_context new_request
half_read-IsReceiving = record {
  in_body = refl;
  no_boundary = refl;
  all_read = refl;
  more_to_come = omega arith;
  in_range = omega arith;
}

receive_all-pieces_example :
    (c' : Context) × (receive_all nowhere 7 2 half_read (codes "cd") (codes "e" ∷ [])
      ≡ returned c' true false)
    × (c'.state ≡ got_all)
    × (c'.request ≡ record half_read.request { content = codes "abcde" })
unfolding half_read new_context new_request
receive_all-pieces_example =
    receive_all-pieces nowhere 7 0 (codes "e" ∷ []) (codes "cd") half_read half_read-IsReceiving
      (omega arith, omega arith) refl

parse_request-unfinished_example :
    parse_request nowhere 7 1000 (new_context 0) (codes "GET /a HT") ≡ unfinished
unfolding new_context new_request search_bytes starts_with
parse_request-unfinished_example =
    parse_request-unfinished nowhere 7 1000 (new_context 0) (codes "GET /a HT")
      (omega arith, no_line refl refl)

abbrev pub bad_length : Bytes
bad_length = codes "POST / HTTP/1.1\r\nContent-Length: x\r\n\r\n"

set_query_parameters-query_text_example :
    set_query_parameters new_request (codes "a=1&b=2")
    ≡ record new_request { query_parameters = (codes "a", codes "1") ∷ (codes "b", codes "2") ∷ [] }
unfolding new_request insert equal find_byte
set_query_parameters-query_text_example =
    set_query_parameters-query_text new_request (codes "a", codes "1") ((codes "b", codes "2") ∷ [])
      (Lacks-of_find_byte b'=' (codes "a") refl, Lacks-of_find_byte b'&' (codes "a=1") refl)
      ((Lacks-of_find_byte b'=' (codes "b") refl, Lacks-of_find_byte b'&' (codes "b=2") refl), tt)

abbrev hello : HttpResponse
hello = record {
  http_version = codes "HTTP/1.1";
  status_code = ok;
  status_message = codes "OK";
  close_connection = false;
  headers = (codes "Content-Length", codes "2") ∷ [];
  body = codes "hi";
}

append_to_buffer-response_text_example : append_to_buffer hello [] ≡ [] ++ response_text hello
unfolding decimal digits
append_to_buffer-response_text_example = append_to_buffer-response_text hello [] (omega arith)

parse_request-failed_example : IsReset (reset (new_context 0))
unfolding parse_request parse_loop new_context new_request reset step_in request_line_step
    search_bytes starts_with read_line process_request_line process_target set_target set_version
    header_loop header_step end_of_headers read_header read_content_type trim_left trim_right
    stoi_uint64 skip_space is_space read_digits add_header insert_sorted less get_header lookup
    find_byte set_method method_of equal finish swap close_file_stream
parse_request-failed_example =
    parse_request-failed nowhere 7 9 (new_context 0) bad_length {c' = reset (new_context 0)} refl

sanitize_filename-IsSanitized_example : IsSanitized (codes "a_b.png")
unfolding sanitize_filename
sanitize_filename-IsSanitized_example = sanitize_filename-IsSanitized 0 (codes "a%2Fb.png") refl
