-- ===== src/Logger.antt =====
-- The text that my_nginx_event/src/logger/my_logger.cpp builds in a buffer of bytes: the place where it
-- writes, `u_char *buf` with its limit `u_char *last`, and `ngx_sprintf_num`. An address is a number, a
-- write is not checked, and what has been written is kept in order.
pub mod Format
pub mod Line
pub mod Number
pub mod Emit
pub mod Turns
pub mod Bounds
pub mod Items
pub mod Render
use mynginx_evnet_module.Base.{
  ℕ, zero, suc, ◌+◌, ◌-◌, ◌*◌, ◌/◌, ◌%◌, ◌^◌, [], ◌∷◌, ◌++◌, if◌then◌else◌, ltb, leb, ◌==◌, ◌&&◌,
  length, take,
}
use mynginx_evnet_module.Base.Bytes.{Bytes}

pub record Out : Type 0 where
  pub text : Bytes
  pub buf : ℕ
  pub last : ℕ

-- `*buf++ = c`
unfoldable pub put : ℕ → Out → Out
put c o = record o { text = o.text ++ c ∷ []; buf = o.buf + 1 }

-- `ngx_cpymem` and the loops that copy without a test.
unfoldable pub put_all : Bytes → Out → Out
put_all cs o = record o { text = o.text ++ cs; buf = o.buf + length cs }

-- `NGX_INT64_LEN`, the bytes of the array `temp`, which the digits fill from its end.
abbrev pub int64_len : ℕ
int64_len = 20

abbrev max_uint32 : ℕ
max_uint32 = 4294967295

-- `hex[d]` and `HEX[d]`, and the digits of decimal numbers.
abbrev pub digit : ℕ → ℕ → ℕ
digit hex d = if ltb d 10 then b'0' + d else if hex == 1 then b'a' + (d - 10) else b'A' + (d - 10)

abbrev pub base : ℕ → ℕ
base hex = if hex == 0 then 10 else 16

-- The loops `do *--p = digit while (ui64 /= base)`, with as much fuel as `temp` has bytes.
unfoldable pub fill_digits : ℕ → ℕ → ℕ → Bytes → Bytes
fill_digits zero hex n p = p
fill_digits (suc fuel) hex n p =
    let p' = digit hex (n % base hex) ∷ p in
    let rest = fill_digits fuel hex (n / base hex) p' in if n / base hex == 0 then p' else rest

-- The digits that stand from `p` on in `temp`.
unfoldable pub number_text : ℕ → ℕ → Bytes
unfolding fill_digits
number_text hex n =
    if hex == 0 && leb n max_uint32
    then fill_digits int64_len hex (n % 2 ^ 32) []
    else fill_digits int64_len hex n []

-- `while (len++ < width && buf < last) *buf++ = zero`, for the `k` bytes that `len` is below `width`.
unfoldable pub pad : ℕ → ℕ → Out → Out
unfolding put
pad zero c o = o
pad (suc k) c o = let rest = pad k c (put c o) in if ltb o.buf o.last then rest else o

-- The copy of the digits: where they reach the limit, `len = last - buf` as `size_t`.
unfoldable pub copy_digits : Bytes → Out → Out
unfolding put_all
copy_digits ds o =
    if leb o.last (o.buf + length ds)
    then put_all (take ((2 ^ 64 + o.last - o.buf) % 2 ^ 64) ds) o
    else put_all ds o

-- `ngx_sprintf_num`
unfoldable pub sprintf_num : Out → ℕ → ℕ → ℕ → ℕ → Out
unfolding number_text pad copy_digits
sprintf_num o ui64 fill hex width =
    let ds = number_text hex ui64 in copy_digits ds (pad (width - length ds) fill o)
