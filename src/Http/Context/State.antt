-- ===== src/Http/Context/State.antt =====
-- The fields of `HttpContext`, the local variables of `parseRequest`, and what it asks of its
-- surroundings.
use mynginx_evnet_module.Base.{ℕ, ◌+◌, ◌-◌, ◌%◌, ◌^◌, Bool, true, false, Option, some, [], drop}
use mynginx_evnet_module.Base.Bytes.{Bytes, codes}
use mynginx_evnet_module.Http.Files.{FileSystem, close_file_stream}
use mynginx_evnet_module.Http.Request.{HttpRequest, new_request, swap}

pub data ParseState : Type 0 where
  expect_request_line expect_headers expect_body got_all : ParseState

pub record Context : Type 0 where
  pub state : ParseState
  pub request : HttpRequest
  pub buffer : Bytes
  pub parsed_pos : ℕ
  pub body_bytes_received : ℕ
  pub sequence : ℕ

-- The configuration value `Video_Path`, the file system, and whether the directory for uploads
-- exists or can be made (an exception otherwise), and the byte that an `int` holds that was never
-- set.
pub record Surroundings : Type 0 where
  pub files : FileSystem
  pub video_path : Option Bytes
  pub ensure_directory : Bytes → Bool
  pub unset : ℕ

-- The context with the two flags of the loop.
pub record Run : Type 0 where
  pub context : Context
  pub open context use *
  pub ok : Bool
  pub is_err : Bool

-- What one round of the outer loop does.
pub data Step : Type 0 where
  continues : Run → Step
  returns : Run → Step
  throws : Run → Step
  aborts : Step

abbrev pub large_file_threshold : ℕ
large_file_threshold = 1048576

abbrev pub max_line : ℕ
max_line = 1024

abbrev pub crlf : Bytes
crlf = codes "\r\n"

abbrev pub size_mod : ℕ
size_mod = 2 ^ 64

-- `a - b` on `size_t`.
abbrev pub sub_size : ℕ → ℕ → ℕ
sub_size a b = (a + size_mod - b) % size_mod

-- The bytes from the read position on.
abbrev pub unread : Context → Bytes
unread c = drop c.parsed_pos c.buffer

-- The constructor, for the connection that owns the context.
unfoldable pub new_context : ℕ → Context
unfolding new_request
new_context conn = record {
  state = expect_request_line;
  request = record new_request { connection = some conn };
  buffer = [];
  parsed_pos = 0;
  body_bytes_received = 0;
  sequence = 0;
}

-- `reset`: the request changes places with a new one, the file stream is closed.
unfoldable pub reset : Context → Context
unfolding new_request swap close_file_stream
reset c = record c {
  state = expect_request_line;
  request =
      (swap (record c.request { file_writer = close_file_stream c.request.file_writer })
        new_request).0;
  buffer = [];
  parsed_pos = 0;
  body_bytes_received = 0;
}

abbrev pub fail : Run → Run
fail r = record r { ok = false; is_err = true }

abbrev pub with_request : Run → HttpRequest → Run
with_request r q = record r { context = record r.context { request = q } }
