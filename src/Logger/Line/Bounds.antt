-- ===== src/Logger/Line/Bounds.antt =====
-- The lines of the log in my_nginx_event/src/logger/my_logger.cpp keep inside the array `errstr`.
use mynginx_evnet_module.Base.{
  ℕ, ◌+◌, ◌-◌, ◌%◌, ◌^◌, ◌≤◌, ◌<◌, ◌≡◌, refl, ap, ◌∙◌, false, inl, inr, none, some, List, [], ◌∷◌,
  ◌++◌, arith, ltb, leb, ◌==◌, Bool-cases, leb→le, ltb→lt, length, take, get_elem?, length-take,
  length-append, length-replicate, replicate,
}
use mynginx_evnet_module.Base.Bytes.{Bytes, codes}
use mynginx_evnet_module.Base.Decimal.{AllDigits}
use mynginx_evnet_module.Base.CString.{c_str}
use mynginx_evnet_module.Logger.{Out, put, put_all, number_text}
use mynginx_evnet_module.Logger.Format.{
  Arg, pid, text_arg, Floating, Printed, printed, undefined, out_of_fuel, vslprintf,
}
use mynginx_evnet_module.Logger.Number.{length-number_text}
use mynginx_evnet_module.Logger.Emit.{IsValid, emit, number_field, signed_field}
use mynginx_evnet_module.Logger.Bounds.{StaysIn, vslprintf-StaysIn}
use mynginx_evnet_module.Logger.Items.{Item, plain, number, as_signed, rendering}
use mynginx_evnet_module.Logger.Render.{vslprintf-rendering}
use mynginx_evnet_module.Logger.Line.{
  Time, err_level, leftstr, leftstr_size, seal_line, log_errno, with_errno, seal, then_print,
  time_text, log_head, log_line, stderr_line, errstr,
}

-- A place in the array with all the text before it.
abbrev Inside : Out → Type 0
Inside o = (o.last ≡ 2048) × (o.buf ≡ length o.text) × (o.buf ≤ 2048)

abbrev AllInside : Printed → Type 0
AllInside (printed o) = Inside o
AllInside undefined = Unit {0}
AllInside out_of_fuel = ⊥

-- A line: fewer bytes than the array has, the last of them a newline.
abbrev pub IsLine : Printed → Type 0
IsLine (printed o) = (length o.text < 2048) × ((body : Bytes) × (o.text ≡ body ++ b'\n' ∷ []))
IsLine undefined = Unit {0}
IsLine out_of_fuel = ⊥

Inside-IsValid : (o : Out) → Inside o → IsValid o
unfolding IsValid
Inside-IsValid o h = (omega (arith, h.0, h.2), omega (arith, h.0))

StaysIn-AllInside : (o : Out) (r : Printed) → Inside o → StaysIn o r → AllInside r
StaysIn-AllInside o (printed o') h s = (
  s.4 ∙ h.0,
  s.2 ∙ omega (arith, h.1, ap length s.1, length-append o.text s.0),
  omega (arith, s.3, h.0),
)
StaysIn-AllInside o undefined h s = tt
StaysIn-AllInside o out_of_fuel h s = s

with_errno-AllInside :
    (strerror : ℕ → Bytes) (err : ℕ) (o : Out) → Inside o → AllInside (with_errno strerror err o)
unfolding log_errno put_all
with_errno-AllInside strerror err o h = elim (Bool-cases (err == 0)) [
  | inl z ↦ rw z h
  | inr z ↦ elim (Bool-cases (leb leftstr_size (length (leftstr err)))) [
    | inl u ↦ rw (z, u) tt
    | inr u ↦
        let message = leftstr err ++ strerror err ++ codes ") " in
        elim (Bool-cases (ltb (o.buf + length message) o.last)) [
          | inl e ↦
              let l = ltb→lt (o.buf + length message) o.last e in
              rw (z, u, e)
                (h.0, omega (arith, h.1, length-append o.text message), omega (arith, h.0, l))
          | inr e ↦ rw (z, u, e) h
        ]
  ]
]

seal-IsLine : (o : Out) → Inside o → IsLine (printed (seal o))
unfolding seal put
seal-IsLine o h =
    let back = take (length o.text - (o.buf - (o.last - 1 - 1))) o.text in
    elim (Bool-cases (leb (o.last - 1) o.buf)) [
      | inl e ↦ rw e (
        omega (
          arith,
          h.0,
          h.1,
          leb→le (o.last - 1) o.buf e,
          length-append back (b'\n' ∷ []),
          length-take (length o.text - (o.buf - (o.last - 1 - 1))) o.text,
        ),
        (back, refl),
      )
      | inr e ↦
          let below : o.buf < o.last - 1 = ground (arith, e) in
          rw e (omega (arith, h.0, h.1, length-append o.text (b'\n' ∷ [])), (o.text, refl))
    ]

then-IsLine :
    (r : Printed) (next : Out → Printed)
    → AllInside r
    → ((o : Out) → Inside o → IsLine (next o))
    → IsLine (then_print r next)
then-IsLine (printed o) next h k = k o h
then-IsLine undefined next h k = tt
then-IsLine out_of_fuel next h k = h

then-AllInside :
    (r : Printed) (next : Out → Printed)
    → AllInside r
    → ((o : Out) → Inside o → AllInside (next o))
    → AllInside (then_print r next)
then-AllInside (printed o) next h k = k o h
then-AllInside undefined next h k = tt
then-AllInside out_of_fuel next h k = h

length-c_str : (p : Bytes) → length (c_str p) ≤ length p
unfolding c_str
length-c_str [] = omega arith
length-c_str (c ∷ p) = elim (Bool-cases (c == 0)) [
  | inl e ↦ rw e (omega arith)
  | inr e ↦ rw e (omega (arith, length-c_str p))
]

length-number_field : (n fill hex width : ℕ) → length (number_field n fill hex width) ≤ width + 20
unfolding number_field
length-number_field n fill hex width =
    let ds = number_text hex n in
    omega (
      arith,
      length-append (replicate (width - length ds) fill) ds,
      length-replicate (width - length ds) fill,
      length-number_text hex n,
    )

length-signed_field : (n fill hex width : ℕ) → length (signed_field n fill hex width) ≤ width + 21
unfolding signed_field
length-signed_field n fill hex width = elim (Bool-cases (leb (2 ^ 63) n)) [
  | inl e ↦ rw e (omega (arith, length-number_field (2 ^ 64 - n) fill hex width))
  | inr e ↦ rw e (omega (arith, length-number_field n fill hex width))
]

-- The items of the time.
abbrev time_items : Time → List Item
time_items t =
    number (codes "4") as_signed (t.tm_year + 1900)
    ∷ plain b'-'
    ∷ number (codes "02") as_signed (t.tm_mon + 1)
    ∷ plain b'-'
    ∷ number (codes "02") as_signed t.tm_mday
    ∷ plain b' '
    ∷ number (codes "02") as_signed t.tm_hour
    ∷ plain b':'
    ∷ number (codes "02") as_signed t.tm_min
    ∷ plain b':'
    ∷ number (codes "02") as_signed t.tm_sec
    ∷ []

abbrev no_text : Out
no_text = record { text = []; buf = 0; last = 2 ^ 64 - 1 }

-- A field in front of a text of at most `n` bytes.
field_then :
    (i64 fill width : ℕ) (rest : Bytes) (n : ℕ)
    → length rest ≤ n
    → length (signed_field i64 fill 0 width ++ rest) ≤ width + 21 + n
field_then i64 fill width rest n h = omega (
  arith,
  h,
  length-append (signed_field i64 fill 0 width) rest,
  length-signed_field i64 fill 0 width,
)

length-rendering : (t : Time) → length (rendering (time_items t)) ≤ 2048
length-rendering t =
    let two = λ (n : ℕ) (rest : Bytes). signed_field (n % 2 ^ 64) b'0' 0 2 ++ rest in
    let minute = b':' ∷ two t.tm_sec [] in
    let hour = b':' ∷ two t.tm_min minute in
    let day = b' ' ∷ two t.tm_hour hour in
    let month = b'-' ∷ two t.tm_mday day in
    let year = b'-' ∷ two (t.tm_mon + 1) month in
    let l1 = field_then (t.tm_sec % 2 ^ 64) b'0' 2 [] 0 (omega arith) in
    let l2 = field_then (t.tm_min % 2 ^ 64) b'0' 2 minute 24 (omega (arith, l1)) in
    let l3 = field_then (t.tm_hour % 2 ^ 64) b'0' 2 hour 48 (omega (arith, l2)) in
    let l4 = field_then (t.tm_mday % 2 ^ 64) b'0' 2 day 72 (omega (arith, l3)) in
    let l5 = field_then ((t.tm_mon + 1) % 2 ^ 64) b'0' 2 month 96 (omega (arith, l4)) in
    let l6 = field_then ((t.tm_year + 1900) % 2 ^ 64) b' ' 4 year 120 (omega (arith, l5)) in
    omega (arith, l6)

put_all-Inside : (p : Bytes) → length p ≤ 2048 → Inside (put_all p errstr)
unfolding put_all
put_all-Inside p h = (refl, omega arith, omega (arith, h))

length-emit : (bs : Bytes) → length (emit bs no_text).text ≤ length bs
unfolding emit
length-emit bs = omega (arith, length-take (2 ^ 64 - 1) bs)

-- The copy of the time into the array.
copied_time :
    (t : Time) → Inside (put_all (c_str (emit (rendering (time_items t)) no_text).text) errstr)
copied_time t =
    let text = rendering (time_items t) in
    put_all-Inside (c_str (emit text no_text).text)
      (omega (arith, length-c_str (emit text no_text).text, length-emit text, length-rendering t))

module _ {D : Type 0} (fl : Floating D) where
  time_text-emit : (t : Time) → time_text fl t ≡ printed (emit (rendering (time_items t)) no_text)
  unfolding time_text IsValid AllDigits
  time_text-emit t =
      vslprintf-rendering fl (time_items t) no_text (omega arith, omega arith)
        (
          one_digit,
          (
            dash,
            (
              two_digits,
              (
                dash,
                (two_digits, (dash, (two_digits, (dash, (two_digits, (dash, (two_digits, tt))))))),
              ),
            ),
          ),
        )
    where
      one_digit : AllDigits (codes "4")
      one_digit = ((omega arith, omega arith), tt)

      two_digits : AllDigits (codes "02")
      two_digits = ((omega arith, omega arith), ((omega arith, omega arith), tt))

      dash : (false ≡ false) × (false ≡ false)
      dash = (refl, refl)

  vslprintf-AllInside :
      (o : Out) (fmt : Bytes) (args : List (Arg D)) → Inside o → AllInside (vslprintf fl o fmt args)
  vslprintf-AllInside o fmt args h =
      StaysIn-AllInside o (vslprintf fl o fmt args) h
        (vslprintf-StaysIn fl o fmt args (Inside-IsValid o h))

  log_head-AllInside :
      (t : Time) (level_name : Bytes) (process : ℕ) → AllInside (log_head fl t level_name process)
  unfolding log_head
  log_head-AllInside t level_name process =
      let o = put_all (c_str (emit (rendering (time_items t)) no_text).text) errstr in
      rw (time_text-emit t) (
        then-AllInside (vslprintf fl o (codes " [%s] ") (text_arg level_name ∷ []))
          (λ o. vslprintf fl o (codes "%P: ") (pid process ∷ []))
          (vslprintf-AllInside o (codes " [%s] ") (text_arg level_name ∷ []) (copied_time t))
          (λ o. vslprintf-AllInside o (codes "%P: ") (pid process ∷ [])))

  sealed-IsLine :
      (strerror : ℕ → Bytes) (err : ℕ) (r : Printed)
      → AllInside r
      → IsLine (then_print r (seal_line strerror err))
  sealed-IsLine strerror err r h = then-IsLine r (seal_line strerror err) h (λ o i.
      then-IsLine (with_errno strerror err o) (λ o'. printed (seal o'))
        (with_errno-AllInside strerror err o i) seal-IsLine)

  log_line-IsLine :
      (t : Time) (strerror : ℕ → Bytes) (process level err : ℕ) (fmt : Bytes) (args : List (Arg D))
      → IsLine (log_line fl t strerror process level err fmt args)
  unfolding log_line
  log_line-IsLine t strerror process level err fmt args =
      elim (get_elem? err_level level)
        as (λ r. IsLine (elim r as (λ _. Printed) [
          | none ↦ undefined
          | some level_name ↦
              then_print (log_head fl t level_name process)
                (λ o. then_print (vslprintf fl o fmt args) (seal_line strerror err))
        ])) [
          | none ↦ tt
          | some level_name ↦
              then-IsLine (log_head fl t level_name process)
                (λ o. then_print (vslprintf fl o fmt args) (seal_line strerror err))
                (log_head-AllInside t level_name process)
                (λ o i.
                  sealed-IsLine strerror err (vslprintf fl o fmt args)
                    (vslprintf-AllInside o fmt args i))
        ]

  -- Whatever the format, the arguments, the number and the text of the error are: if the printing is
  -- defined, which it is not when the number of the error does not fit the array `leftstr`, the line
  -- that `ngx_log_error_core` puts together and that of `ngx_log_stderr` end in a newline and have
  -- fewer bytes than the array `errstr`, and neither printing runs for ever.
  pub lines-IsLine :
      (t : Time) (strerror : ℕ → Bytes) (process level err : ℕ) (fmt : Bytes) (args : List (Arg D))
      → IsLine (log_line fl t strerror process level err fmt args)
        × IsLine (stderr_line fl strerror err fmt args)
  unfolding stderr_line put_all
  lines-IsLine t strerror process level err fmt args =
      let o = put_all (codes "nginx: ") errstr in
      (
        log_line-IsLine t strerror process level err fmt args,
        sealed-IsLine strerror err (vslprintf fl o fmt args)
            (vslprintf-AllInside o fmt args (refl, refl, omega arith)),
      )
