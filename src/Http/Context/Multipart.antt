-- ===== src/Http/Context/Multipart.antt =====
-- `case kExpectBody` with a boundary, of my_nginx_event/src/http/my_http_context.cpp.
use mynginx_evnet_module.Base.{
  ℕ, zero, suc, ◌+◌, min, true, false, Option, none, some, ◌++◌, ltb, if◌then◌else◌, length, take,
  drop, slice,
}
use mynginx_evnet_module.Base.Bytes.{
  Bytes, codes, is_empty, find_byte, search_bytes, starts_with, from_start,
}
use mynginx_evnet_module.Http.Files.{FileWriter, init_file_stream, write_to_file}
use mynginx_evnet_module.Http.Filename.{sanitize_filename}
use mynginx_evnet_module.Http.Request.{append_body}
use mynginx_evnet_module.Http.Context.State.{
  Run, Surroundings, got_all, crlf, large_file_threshold, sub_size, unread, with_request,
}

abbrev pub delimiter : Run → Bytes
delimiter r = codes "--" ++ r.request.boundary

abbrev pub end_delimiter : Run → Bytes
end_delimiter r = codes "--" ++ (r.request.boundary ++ codes "--")

-- The value of `filename="`, up to the next quote or to the end of the header.
unfoldable pub filename_of : Bytes → Option Bytes
filename_of header = elim (search_bytes (codes "filename=\"") header) [
  | none ↦ none
  | some pos ↦ elim (find_byte b'"' (drop (pos + 10) header)) [
    | none ↦ some (drop (pos + 10) header)
    | some len ↦ some (take len (drop (pos + 10) header))
  ]
]

unfoldable pub upload_name : ℕ → Bytes → Option Bytes
unfolding filename_of
upload_name unset header = elim (filename_of header) [
  | none ↦ some (codes "Default")
  | some raw ↦ sanitize_filename unset raw
]

-- One round of the inner loop: again, out of the loop, or an exception.
pub data PartStep : Type 0 where
  more : Run → PartStep
  leave : Run → PartStep
  throw : Run → PartStep

abbrev pub with_writer : Run → FileWriter → Run
with_writer r w = with_request r (record r.request { file_writer = w })

-- A large upload goes to a file in the configured directory.
unfoldable pub open_upload : Surroundings → Run → Bytes → PartStep
unfolding upload_name
open_upload env r header = elim env.video_path [
  | none ↦ throw r
  | some dir ↦
      if env.ensure_directory dir
      then elim (upload_name env.unset header) [
        | none ↦ throw r
        | some name ↦ more (
            with_writer r
              (init_file_stream env.files r.request.file_writer (dir ++ (codes "/" ++ name))).1)
      ]
      else throw r
]

abbrev pub stop : Run → PartStep
stop r = leave (record r { ok = false })

abbrev pub finish_parts : Run → Run
finish_parts r = record r { context = record r.context { state = got_all }; ok = true }

-- The part header `slice buffer part_start header_end` is taken off the buffer.
unfoldable pub take_part_header : Run → ℕ → ℕ → Run
take_part_header r part_start header_end = record r {
  context = record r.context {
    request = record r.request { file_header = slice r.buffer part_start header_end };
    buffer = drop (header_end + 4) r.buffer;
    parsed_pos = 0;
    body_bytes_received =
        r.body_bytes_received
        + (length (delimiter r) + 4 + length (slice r.buffer part_start header_end) + 4);
  };
}

unfoldable pub part_header_at : Surroundings → Run → ℕ → PartStep
unfolding take_part_header open_upload
part_header_at env r part_start =
    elim (from_start part_start (search_bytes (codes "\r\n\r\n") (drop part_start r.buffer))) [
      | none ↦ stop r
      | some header_end ↦
          let r' = take_part_header r part_start header_end in
          if ltb large_file_threshold r.request.content_length
          then open_upload env r' (slice r.buffer part_start header_end)
          else more r'
    ]

-- No part header is stored yet.
unfoldable pub part_header_step : Surroundings → Run → PartStep
unfolding part_header_at
part_header_step env r =
    elim (from_start r.parsed_pos (search_bytes (delimiter r) (unread r.context))) [
      | none ↦ stop r
      | some boundary_pos ↦
          let part_start = boundary_pos + length (delimiter r) in
          if starts_with (codes "--") (drop part_start r.buffer)
          then leave (finish_parts r)
          else if starts_with crlf (drop part_start r.buffer)
          then part_header_at env r (part_start + 2)
          else part_header_at env r part_start
    ]

-- `writeToFile` for a large upload, `appendBody` for a small one.
unfoldable pub store_part : Surroundings → Run → Bytes → Run
store_part env r bytes =
    if ltb large_file_threshold r.request.content_length
    then with_writer r (write_to_file env.files r.request.file_writer bytes)
    else with_request r (append_body r.request bytes)

-- The end of the part is not here yet: all that may belong to it is stored.
unfoldable pub partial_part : Surroundings → Run → Run
unfolding store_part
partial_part env r =
    let part_end =
      min
        (sub_size (sub_size r.request.content_length (length (end_delimiter r)))
          r.body_bytes_received)
        (length r.buffer) in
    let stored = store_part env r (slice r.buffer r.parsed_pos part_end) in
    record stored {
      context = record stored.context {
        body_bytes_received = r.body_bytes_received + sub_size part_end r.parsed_pos;
        buffer = drop part_end r.buffer;
        parsed_pos = 0;
      };
      ok = false;
    }

-- The part ends at `part_end`.
unfoldable pub last_part : Surroundings → Run → ℕ → Run
unfolding store_part
last_part env r part_end =
    let stored = store_part env r (slice r.buffer r.parsed_pos part_end) in
    record stored {
      context = record stored.context {
        buffer = drop (part_end + length (end_delimiter r)) r.buffer;
        parsed_pos = 0;
        state = got_all;
      };
      ok = true;
    }

unfoldable pub part_body_step : Surroundings → Run → Run
unfolding partial_part last_part
part_body_step env r =
    elim (from_start r.parsed_pos (search_bytes (end_delimiter r) (unread r.context))) [
      | none ↦ partial_part env r
      | some part_end ↦
          if ltb (r.body_bytes_received + part_end + length (end_delimiter r))
            r.request.content_length
          then partial_part env r
          else last_part env r part_end
    ]

unfoldable pub part_step : Surroundings → Run → PartStep
unfolding part_header_step part_body_step
part_step env r =
    if is_empty r.request.file_header then part_header_step env r else leave (part_body_step env r)

-- `while (parsed_pos_ < buffer_.size())`; `none` when the fuel runs out.
unfoldable pub part_loop : Surroundings → ℕ → Run → Option PartStep
unfolding part_step
part_loop env zero r = none
part_loop env (suc fuel) r =
    if ltb r.parsed_pos (length r.buffer)
    then elim (part_step env r) [
      | leave r' ↦ some (leave r')
      | throw r' ↦ some (throw r')
      | more r' ↦ part_loop env fuel r'
    ]
    else some (leave r)
