-- ===== src/Logger/Format.antt =====
-- The formatted printing of my_nginx_event/src/logger/my_logger.cpp: `ngx_vslprintf`, `ngx_slprintf` and
-- `ngx_snprintf`. A format is given up to its terminating zero byte. The arguments are the list that
-- `va_arg` takes from; an argument of another type than the directive asks for is undefined. The
-- operations on `double` are a parameter.
use mynginx_evnet_module.Base.{
  ℕ, zero, suc, ◌+◌, ◌-◌, ◌*◌, ◌%◌, ◌^◌, Bool, true, false, Option, none, some, List, [], ◌∷◌,
  if◌then◌else◌, ltb, leb, ◌==◌, ◌&&◌, ◌||◌, not, length,
}
use mynginx_evnet_module.Base.Bytes.{Bytes}
use mynginx_evnet_module.Logger.{Out, put, sprintf_num}

-- An argument: a word of 64 bits, a `pid_t` of 32 bits, a text up to its zero byte, a `double`.
pub data Arg (D : Type 0) : Type 0 where
  word : ℕ → Arg D
  pid : ℕ → Arg D
  text_arg : Bytes → Arg D
  double : D → Arg D

-- What the source does with a `double`.
pub record Floating (D : Type 0) : Type 0 where
  pub is_negative : D → Bool
  pub negate : D → D
  pub to_uint64 : D → ℕ
  pub of_uint64 : ℕ → D
  pub subtract : D → D → D
  pub multiply : D → D → D
  pub add_half : D → D

-- The loop that reads a width or the number of digits behind the point.
unfoldable pub read_width : ℕ → Bytes → ℕ × Bytes
read_width width [] = (width, [])
read_width width (c ∷ fmt) =
    let rest = read_width ((width * 10 + c - b'0') % 2 ^ 64) fmt in
    if leb b'0' c && leb c b'9' then rest else (width, c ∷ fmt)

-- The variables of a directive.
pub record Spec : Type 0 where
  pub fill : ℕ
  pub width : ℕ
  pub sign : Bool
  pub hex : ℕ
  pub frac_width : ℕ

unfoldable pub read_frac : Spec → Bytes → Spec × Bytes
unfolding read_width
read_frac v fmt = let w = read_width 0 fmt in (record v { frac_width = w.0 }, w.1)

-- The cases of the switch between the width and the letter of the conversion.
pub data Flag : Type 0 where
  unsigned : Flag
  upper : Flag
  lower : Flag
  point : Flag
  no_flag : Flag

abbrev pub flag_of : ℕ → Flag
flag_of c =
    if c == b'u'
    then unsigned
    else if c == b'X'
    then upper
    else if c == b'x'
    then lower
    else if c == b'.'
    then point
    else no_flag

-- The loop over the letters u, X, x and the point.
unfoldable pub read_flags : Spec → Bytes → Spec × Bytes
unfolding read_frac
read_flags v [] = (v, [])
read_flags v (c ∷ fmt) = elim (flag_of c) [
  | unsigned ↦ read_flags (record v { sign = false }) fmt
  | upper ↦ read_flags (record v { sign = false; hex = 2 }) fmt
  | lower ↦ read_flags (record v { sign = false; hex = 1 }) fmt
  | point ↦ read_frac v fmt
  | no_flag ↦ (v, c ∷ fmt)
]

abbrev pub fill_of : Bytes → ℕ
fill_of [] = b' '
fill_of (c ∷ fmt) = if c == b'0' then b'0' else b' '

-- All that stands between the percent sign and the letter of the conversion.
unfoldable pub read_spec : Bytes → Spec × Bytes
unfolding read_width read_flags
read_spec fmt =
    let w = read_width 0 fmt in
    read_flags (record { fill = fill_of fmt; width = w.0; sign = true; hex = 0; frac_width = 0 })
      w.1

-- The copy of a text: `while (*p && buf < last) *buf++ = *p++`.
unfoldable pub copy_text : Bytes → Out → Out
unfolding put
copy_text [] o = o
copy_text (c ∷ p) o =
    let rest = copy_text p (put c o) in if not (c == 0) && ltb o.buf o.last then rest else o

-- A word with its highest bit set is negative, and `(uint64_t)-i64` is its distance from 2^64.
unfoldable pub put_signed : ℕ → ℕ → ℕ → ℕ → Out → Out
unfolding put sprintf_num
put_signed i64 fill hex width o =
    if leb (2 ^ 63) i64
    then sprintf_num (put b'-' o) (2 ^ 64 - i64) fill hex width
    else sprintf_num o i64 fill hex width

-- The number of %d, %i and %L.
unfoldable pub put_word : Spec → ℕ → Out → Out
unfolding put_signed
put_word v w o =
    if v.sign
    then put_signed (w % 2 ^ 64) v.fill v.hex v.width o
    else sprintf_num o (w % 2 ^ 64) v.fill v.hex v.width

-- A `pid_t` made into 64 bits with its sign.
abbrev pub extend_sign : ℕ → ℕ
extend_sign w = if leb (2 ^ 31) (w % 2 ^ 32) then 2 ^ 64 - 2 ^ 32 + w % 2 ^ 32 else w % 2 ^ 32

-- The loop `scale *= 10`.
unfoldable pub scale_of : ℕ → ℕ
scale_of zero = 1
scale_of (suc n) = scale_of n * 10 % 2 ^ 64

unfoldable pub put_fraction : ℕ → ℕ → Out → Out
unfolding put sprintf_num
put_fraction frac frac_width o =
    sprintf_num (if ltb o.buf o.last then put b'.' o else o) frac b'0' 0 frac_width

-- What the code goes on with.
pub record Printing (D : Type 0) : Type 0 where
  pub out : Out
  pub fmt : Bytes
  pub args : List (Arg D)

pub data Printed : Type 0 where
  printed : Out → Printed
  undefined : Printed
  out_of_fuel : Printed

module _ {D : Type 0} (fl : Floating D) where
  -- The two numbers of %f behind the sign, rounded at `frac_width` digits.
  unfoldable pub put_magnitude : Spec → D → Out → Out
  unfolding scale_of put_fraction
  put_magnitude v f o =
      let ui64 = fl.to_uint64 f in
      let scale = scale_of v.frac_width in
      let rest = fl.multiply (fl.subtract f (fl.of_uint64 ui64)) (fl.of_uint64 scale) in
      let frac = fl.to_uint64 (fl.add_half rest) in
      if v.frac_width == 0
      then sprintf_num o ui64 v.fill 0 v.width
      else if leb scale frac
      then put_fraction 0 v.frac_width (sprintf_num o ((ui64 + 1) % 2 ^ 64) v.fill 0 v.width)
      else put_fraction frac v.frac_width (sprintf_num o ui64 v.fill 0 v.width)

  unfoldable pub put_double : Spec → D → Out → Out
  unfolding put_magnitude
  put_double v f o =
      if fl.is_negative f then put_magnitude v (fl.negate f) (put b'-' o) else put_magnitude v f o

  -- The conversions that take an argument, and those that do not.
  unfoldable pub convert_word : Spec → Bytes → Printing D → Option (Printing D)
  unfolding put_word
  convert_word v fmt s = elim s.args [
    | word w ∷ args ↦ some (record { out = put_word v w s.out; fmt = fmt; args = args })
    | _ ↦ none
  ]

  unfoldable pub convert_pointer : Bytes → Printing D → Option (Printing D)
  convert_pointer fmt s = elim s.args [
    | word w ∷ args ↦
        some (record { out = sprintf_num s.out (w % 2 ^ 64) b'0' 2 16; fmt = fmt; args = args })
    | _ ↦ none
  ]

  unfoldable pub convert_text : Bytes → Printing D → Option (Printing D)
  unfolding copy_text
  convert_text fmt s = elim s.args [
    | text_arg p ∷ args ↦ some (record { out = copy_text p s.out; fmt = fmt; args = args })
    | _ ↦ none
  ]

  unfoldable pub convert_pid : Spec → Bytes → Printing D → Option (Printing D)
  unfolding put_signed
  convert_pid v fmt s = elim s.args [
    | pid w ∷ args ↦ some (record {
      out = put_signed (extend_sign w) v.fill v.hex v.width s.out;
      fmt = fmt;
      args = args;
    })
    | _ ↦ none
  ]

  unfoldable pub convert_double : Spec → Bytes → Printing D → Option (Printing D)
  unfolding put_double
  convert_double v fmt s = elim s.args [
    | double f ∷ args ↦ some (record { out = put_double v f s.out; fmt = fmt; args = args })
    | _ ↦ none
  ]

  -- The switch on the letter. At the end of the format the code copies the zero byte and reads on
  -- behind it, which is undefined.
  unfoldable pub convert : Spec → Bytes → Printing D → Option (Printing D)
  unfolding convert_word convert_pointer convert_text convert_pid convert_double
  convert v [] s = none
  convert v (c ∷ fmt) s =
      if c == b'd' || c == b'i' || c == b'L'
      then convert_word v fmt s
      else if c == b'p'
      then convert_pointer fmt s
      else if c == b's'
      then convert_text fmt s
      else if c == b'P'
      then convert_pid v fmt s
      else if c == b'f'
      then convert_double v fmt s
      else some (record s { out = put c s.out; fmt = fmt })

  unfoldable pub convert_read : Spec × Bytes → Printing D → Option (Printing D)
  unfolding convert
  convert_read vf s = convert vf.0 vf.1 s

  -- One turn of the loop on a byte of the format.
  unfoldable pub print_step : ℕ → Bytes → Printing D → Option (Printing D)
  unfolding convert_read read_spec
  print_step c fmt s =
      if c == b'%'
      then convert_read (read_spec fmt) s
      else some (record s { out = put c s.out; fmt = fmt })

  -- `while (*fmt && buf < last)`
  unfoldable pub print_loop : ℕ → Printing D → Printed
  unfolding print_step
  print_loop zero s = out_of_fuel
  print_loop (suc fuel) s = elim s.fmt [
    | [] ↦ printed s.out
    | c ∷ fmt ↦
        if c == 0 || not (ltb s.out.buf s.out.last)
        then printed s.out
        else elim (print_step c fmt s) [ none ↦ undefined | some s' ↦ print_loop fuel s' ]
  ]

  -- `ngx_vslprintf`, and `ngx_slprintf` around it: each turn reads a byte of the format at least.
  unfoldable pub vslprintf : Out → Bytes → List (Arg D) → Printed
  unfolding print_loop
  vslprintf o fmt args = print_loop (suc (length fmt)) (record { out = o; fmt = fmt; args = args })

  -- `ngx_snprintf`
  unfoldable pub snprintf : ℕ → ℕ → Bytes → List (Arg D) → Printed
  unfolding vslprintf
  snprintf buf max fmt args = vslprintf (record { text = []; buf = buf; last = buf + max }) fmt args
