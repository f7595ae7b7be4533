-- ===== src/Net/Buffer.antt =====
-- my_nginx_event/include/http/Buffer.h: the byte buffer with a read and a write index over one
-- vector. Indices are `size_t`; under `IsValid` no subtraction here goes below 0.
pub mod Queue
use mynginx_evnet_module.Base.{
  ℕ, ◌+◌, ◌-◌, ◌≤◌, ltb, if◌then◌else◌, length, take, drop, replicate, slice, ◌++◌,
}
use mynginx_evnet_module.Base.Bytes.{Bytes}

abbrev pub cheap_prepend : ℕ
cheap_prepend = 8

abbrev pub initial_size : ℕ
initial_size = 1024

pub record Buffer : Type 0 where
  pub storage : Bytes
  pub reader_index : ℕ
  pub writer_index : ℕ

unfoldable pub new : ℕ → Buffer
new size = record {
  storage = replicate (size + cheap_prepend) 0;
  reader_index = cheap_prepend;
  writer_index = cheap_prepend;
}

unfoldable pub readable_bytes : Buffer → ℕ
readable_bytes b = b.writer_index - b.reader_index

unfoldable pub writable_bytes : Buffer → ℕ
writable_bytes b = length b.storage - b.writer_index

unfoldable pub prependable_bytes : Buffer → ℕ
prependable_bytes b = b.reader_index

unfoldable pub retrieve_all : Buffer → Buffer
retrieve_all b = record b { reader_index = cheap_prepend; writer_index = cheap_prepend }

unfoldable pub retrieve : Buffer → ℕ → Buffer
unfolding readable_bytes retrieve_all
retrieve b len =
    if ltb len (readable_bytes b)
    then record b { reader_index = b.reader_index + len }
    else retrieve_all b

-- `std::string(peek(), len)`: `len` bytes from the read index on.
unfoldable pub peek : Buffer → ℕ → Bytes
peek b len = take len (drop b.reader_index b.storage)

unfoldable pub retrieve_as_string : Buffer → ℕ → Bytes × Buffer
unfolding peek retrieve
retrieve_as_string b len = (peek b len, retrieve b len)

unfoldable pub retrieve_all_as_string : Buffer → Bytes × Buffer
unfolding retrieve_as_string readable_bytes
retrieve_all_as_string b = retrieve_as_string b (readable_bytes b)

-- `vector::resize`: cuts the vector, or fills it up with zeros.
abbrev pub resize : Bytes → ℕ → Bytes
resize s n = take n s ++ replicate (n - length s) 0

-- `std::copy` of `bytes` to position `at_index`.
abbrev pub copy_to : Bytes → ℕ → Bytes → Bytes
copy_to s at_index bytes = take at_index s ++ (bytes ++ drop (at_index + length bytes) s)

-- The vector grows behind the write index.
unfoldable pub grow : Buffer → ℕ → Buffer
grow b len = record b { storage = resize b.storage (b.writer_index + len) }

-- The readable bytes move to the front.
unfoldable pub compact : Buffer → Buffer
unfolding readable_bytes
compact b = record b {
  storage = copy_to b.storage cheap_prepend (slice b.storage b.reader_index b.writer_index);
  reader_index = cheap_prepend;
  writer_index = cheap_prepend + readable_bytes b;
}

unfoldable pub make_space : Buffer → ℕ → Buffer
unfolding readable_bytes writable_bytes prependable_bytes
make_space b len =
    if ltb (writable_bytes b + prependable_bytes b) (len + cheap_prepend)
    then grow b len
    else compact b

unfoldable pub ensure_writable_bytes : Buffer → ℕ → Buffer
unfolding writable_bytes make_space
ensure_writable_bytes b len = if ltb (writable_bytes b) len then make_space b len else b

-- The copy of the bytes to the write index, once there is room.
unfoldable pub write : Buffer → Bytes → Buffer
write b bytes = record b {
  storage = copy_to b.storage b.writer_index bytes;
  writer_index = b.writer_index + length bytes;
}

unfoldable pub append : Buffer → Bytes → Buffer
unfolding ensure_writable_bytes write
append b bytes = write (ensure_writable_bytes b (length bytes)) bytes

-- The bytes that are written and not yet retrieved.
abbrev pub contents : Buffer → Bytes
contents b = slice b.storage b.reader_index b.writer_index

-- The indices are in order, within the vector, and leave the reserved prefix.
pub record IsValid (b : Buffer) : Type 0 where
  pub prefix : cheap_prepend ≤ b.reader_index
  pub ordered : b.reader_index ≤ b.writer_index
  pub within : b.writer_index ≤ length b.storage
