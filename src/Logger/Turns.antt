-- ===== src/Logger/Turns.antt =====
-- A turn of the loop of `ngx_vslprintf` in my_nginx_event/src/logger/my_logger.cpp: what it writes has
-- room, and it reads on in the format.
use mynginx_evnet_module.Base.{
  ℕ, suc, ◌+◌, ◌-◌, ◌*◌, ◌%◌, ◌^◌, ◌≤◌, ◌<◌, ◌≡◌, ap, ◌∙◌, true, false, inl, inr, Option, none,
  some, List, [], ◌∷◌, ◌++◌, arith, ltb, leb, ◌==◌, ◌&&◌, ◌||◌, Bool-cases, ltb→lt, length,
}
use mynginx_evnet_module.Base.Bytes.{Bytes}
use mynginx_evnet_module.Base.CString.{c_str}
use mynginx_evnet_module.Logger.{Out, put, sprintf_num}
use mynginx_evnet_module.Logger.Format
use mynginx_evnet_module.Logger.Format.{
  Arg, word, pid, text_arg, double, Floating, Spec, Flag, unsigned, upper, lower, point, no_flag,
  flag_of, read_width, read_frac, read_flags, read_spec, Printing, Printed, printed, undefined,
  out_of_fuel, put_signed, put_word, put_fraction, scale_of, put_magnitude, put_double,
  convert_word, convert_pointer, convert_text, convert_pid, convert_double, convert, convert_read,
  print_step, print_loop, vslprintf, extend_sign,
}
use mynginx_evnet_module.Logger.Emit.{
  IsValid, emit, emit-emit, emit-IsValid, put-emit, number_field, sprintf_num-emit, signed_field,
  put_signed-emit, copy_text-emit,
}

-- The second place is the first behind some text, as far as there is room.
abbrev pub Emits : Out → Out → Type 0
Emits o o' = (bs : Bytes) × (o' ≡ emit bs o)

pub Emits-trans : (a b c : Out) → Emits a b → Emits b c → Emits a c
Emits-trans a b c h k = (h.0 ++ k.0, k.1 ∙ ap (emit k.0) h.1 ∙ emit-emit h.0 k.0 a)

pub Emits-IsValid : (a b : Out) → IsValid a → Emits a b → IsValid b
Emits-IsValid a b v h = rw h.1 (emit-IsValid h.0 a v)

sprintf_num-Emits :
    (o : Out) (n fill hex width : ℕ) → IsValid o → Emits o (sprintf_num o n fill hex width)
sprintf_num-Emits o n fill hex width v =
    (number_field n fill hex width, sprintf_num-emit o n fill hex width v)

put_signed-Emits :
    (n fill hex width : ℕ) (o : Out)
    → IsValid o
    → o.buf < o.last
    → Emits o (put_signed n fill hex width o)
put_signed-Emits n fill hex width o v h =
    (signed_field n fill hex width, put_signed-emit n fill hex width o v h)

put-Emits : (c : ℕ) (o : Out) → o.buf < o.last → Emits o (put c o)
put-Emits c o h = (c ∷ [], put-emit c o h)

put_word-Emits :
    (s : Spec) (w : ℕ) (o : Out) → IsValid o → o.buf < o.last → Emits o (put_word s w o)
unfolding put_word
put_word-Emits s w o v h = elim (Bool-cases s.sign) [
  | inl e ↦ rw e (put_signed-Emits (w % 2 ^ 64) s.fill s.hex s.width o v h)
  | inr e ↦ rw e (sprintf_num-Emits o (w % 2 ^ 64) s.fill s.hex s.width v)
]

put_fraction-Emits :
    (frac frac_width : ℕ) (o : Out) → IsValid o → Emits o (put_fraction frac frac_width o)
unfolding put_fraction
put_fraction-Emits frac frac_width o v = elim (Bool-cases (ltb o.buf o.last)) [
  | inl e ↦
      let dot = put-Emits b'.' o (ltb→lt o.buf o.last e) in
      rw e (
        Emits-trans o (put b'.' o) (sprintf_num (put b'.' o) frac b'0' 0 frac_width) dot (
          sprintf_num-Emits (put b'.' o) frac b'0' 0 frac_width
            (Emits-IsValid o (put b'.' o) v dot)))
  | inr e ↦ rw e (sprintf_num-Emits o frac b'0' 0 frac_width v)
]

-- The whole part and the fraction.
number_fraction-Emits :
    (n fill width frac frac_width : ℕ) (o : Out)
    → IsValid o
    → Emits o (put_fraction frac frac_width (sprintf_num o n fill 0 width))
number_fraction-Emits n fill width frac frac_width o v =
    let o' = sprintf_num o n fill 0 width in
    let h = sprintf_num-Emits o n fill 0 width v in
    Emits-trans o o' (put_fraction frac frac_width o') h
      (put_fraction-Emits frac frac_width o' (Emits-IsValid o o' v h))

length-read_width : (w : ℕ) (fmt : Bytes) → length (read_width w fmt).1 ≤ length fmt
unfolding read_width
length-read_width w [] = omega arith
length-read_width w (c ∷ fmt) = elim (Bool-cases (leb b'0' c && leb c b'9')) [
  | inl e ↦ rw e (omega (arith, length-read_width ((w * 10 + c - b'0') % 2 ^ 64) fmt))
  | inr e ↦ rw e (omega arith)
]

length-read_flags : (v : Spec) (fmt : Bytes) → length (read_flags v fmt).1 ≤ length fmt
unfolding read_flags read_frac
length-read_flags v [] = omega arith
length-read_flags v (c ∷ fmt) =
    let off = record v { sign = false } in
    elim (flag_of c)
      as (λ f.
        length
          (elim f as (λ _. Spec × Bytes) [
            | unsigned ↦ read_flags off fmt
            | upper ↦ read_flags (record off { hex = 2 }) fmt
            | lower ↦ read_flags (record off { hex = 1 }) fmt
            | point ↦ read_frac v fmt
            | no_flag ↦ (v, c ∷ fmt)
          ]).1
        ≤ suc (length fmt)) [
          | unsigned ↦ omega (arith, length-read_flags off fmt)
          | upper ↦ omega (arith, length-read_flags (record off { hex = 2 }) fmt)
          | lower ↦ omega (arith, length-read_flags (record off { hex = 1 }) fmt)
          | point ↦ omega (arith, length-read_width 0 fmt)
          | no_flag ↦ omega arith
        ]

length-read_spec : (fmt : Bytes) → length (read_spec fmt).1 ≤ length fmt
unfolding read_spec
length-read_spec fmt =
    let w = read_width 0 fmt in
    omega (
      arith,
      length-read_width 0 fmt,
      length-read_flags
          (record { fill = Format.fill_of fmt; width = w.0; sign = true; hex = 0; frac_width = 0 })
          w.1,
    )

-- What a turn of the loop leaves: more text, and no more than `n` bytes of the format.
abbrev pub Turns : {D : Type 0} → ℕ → Out → Option (Printing D) → Type 0
Turns n o none = Unit {0}
Turns n o (some s) = Emits o s.out × (length s.fmt ≤ n)

module _ {D : Type 0} (fl : Floating D) where
  put_magnitude-Emits : (v : Spec) (f : D) (o : Out) → IsValid o → Emits o (put_magnitude fl v f o)
  unfolding put_magnitude
  put_magnitude-Emits v f o h =
      let ui64 = fl.to_uint64 f in
      let scale = scale_of v.frac_width in
      let rest = fl.multiply (fl.subtract f (fl.of_uint64 ui64)) (fl.of_uint64 scale) in
      let frac = fl.to_uint64 (fl.add_half rest) in
      elim (Bool-cases (v.frac_width == 0)) [
        | inl e ↦ rw e (sprintf_num-Emits o ui64 v.fill 0 v.width h)
        | inr e ↦ elim (Bool-cases (leb scale frac)) [
          | inl k ↦
              rw (e, k)
                (number_fraction-Emits ((ui64 + 1) % 2 ^ 64) v.fill v.width 0 v.frac_width o h)
          | inr k ↦ rw (e, k) (number_fraction-Emits ui64 v.fill v.width frac v.frac_width o h)
        ]
      ]

  put_double-Emits :
      (v : Spec) (f : D) (o : Out) → IsValid o → o.buf < o.last → Emits o (put_double fl v f o)
  unfolding put_double
  put_double-Emits v f o h k = elim (Bool-cases (fl.is_negative f)) [
    | inl e ↦
        let sign = put-Emits b'-' o k in
        rw e (
          Emits-trans o (put b'-' o) (put_magnitude fl v (fl.negate f) (put b'-' o)) sign (
            put_magnitude-Emits v (fl.negate f) (put b'-' o) (Emits-IsValid o (put b'-' o) h sign)))
    | inr e ↦ rw e (put_magnitude-Emits v f o h)
  ]

  module _ (fmt : Bytes) (o : Out) (fs : Bytes) (h : IsValid o) (k : o.buf < o.last) where
    abbrev before : List (Arg D) → Printing D
    before args = record { out = o; fmt = fs; args = args }

    convert_word-Turns :
        (v : Spec) (args : List (Arg D))
        → Turns (length fmt) o (convert_word fl v fmt (before args))
    unfolding convert_word
    convert_word-Turns v (word w ∷ args) = (put_word-Emits v w o h k, omega arith)
    convert_word-Turns v [] = tt
    convert_word-Turns v (pid w ∷ args) = tt
    convert_word-Turns v (text_arg p ∷ args) = tt
    convert_word-Turns v (double f ∷ args) = tt

    convert_pointer-Turns :
        (args : List (Arg D)) → Turns (length fmt) o (convert_pointer fl fmt (before args))
    unfolding convert_pointer
    convert_pointer-Turns (word w ∷ args) =
        (sprintf_num-Emits o (w % 2 ^ 64) b'0' 2 16 h, omega arith)
    convert_pointer-Turns [] = tt
    convert_pointer-Turns (pid w ∷ args) = tt
    convert_pointer-Turns (text_arg p ∷ args) = tt
    convert_pointer-Turns (double f ∷ args) = tt

    convert_text-Turns :
        (args : List (Arg D)) → Turns (length fmt) o (convert_text fl fmt (before args))
    unfolding convert_text IsValid
    convert_text-Turns (text_arg p ∷ args) = ((c_str p, copy_text-emit p o h.0), omega arith)
    convert_text-Turns [] = tt
    convert_text-Turns (word w ∷ args) = tt
    convert_text-Turns (pid w ∷ args) = tt
    convert_text-Turns (double f ∷ args) = tt

    convert_pid-Turns :
        (v : Spec) (args : List (Arg D)) → Turns (length fmt) o (convert_pid fl v fmt (before args))
    unfolding convert_pid
    convert_pid-Turns v (pid w ∷ args) =
        (put_signed-Emits (extend_sign w) v.fill v.hex v.width o h k, omega arith)
    convert_pid-Turns v [] = tt
    convert_pid-Turns v (word w ∷ args) = tt
    convert_pid-Turns v (text_arg p ∷ args) = tt
    convert_pid-Turns v (double f ∷ args) = tt

    convert_double-Turns :
        (v : Spec) (args : List (Arg D))
        → Turns (length fmt) o (convert_double fl v fmt (before args))
    unfolding convert_double
    convert_double-Turns v (double f ∷ args) = (put_double-Emits v f o h k, omega arith)
    convert_double-Turns v [] = tt
    convert_double-Turns v (word w ∷ args) = tt
    convert_double-Turns v (pid w ∷ args) = tt
    convert_double-Turns v (text_arg p ∷ args) = tt

    convert-Turns :
        (v : Spec) (c : ℕ) (args : List (Arg D))
        → Turns (length fmt) o (convert fl v (c ∷ fmt) (before args))
    unfolding convert
    convert-Turns v c args = elim (Bool-cases (c == b'd' || c == b'i' || c == b'L')) [
      | inl e ↦ rw e (convert_word-Turns v args)
      | inr e ↦ elim (Bool-cases (c == b'p')) [
        | inl e2 ↦ rw (e, e2) (convert_pointer-Turns args)
        | inr e2 ↦ elim (Bool-cases (c == b's')) [
          | inl e3 ↦ rw (e, e2, e3) (convert_text-Turns args)
          | inr e3 ↦ elim (Bool-cases (c == b'P')) [
            | inl e4 ↦ rw (e, e2, e3, e4) (convert_pid-Turns v args)
            | inr e4 ↦ elim (Bool-cases (c == b'f')) [
              | inl e5 ↦ rw (e, e2, e3, e4, e5) (convert_double-Turns v args)
              | inr e5 ↦ rw (e, e2, e3, e4, e5) (put-Emits c o k, omega arith)
            ]
          ]
        ]
      ]
    ]

  Turns-le : (m n : ℕ) (o : Out) (r : Option (Printing D)) → m ≤ n → Turns m o r → Turns n o r
  Turns-le m n o none h t = tt
  Turns-le m n o (some s) h t = (t.0, omega (arith, t.1))

  convert_read-Turns :
      (n : ℕ) (v : Spec) (rest : Bytes) (s : Printing D)
      → length rest ≤ n
      → IsValid s.out
      → s.out.buf < s.out.last
      → Turns n s.out (convert_read fl (v, rest) s)
  unfolding convert_read convert
  convert_read-Turns n v [] s l h k = tt
  convert_read-Turns n v (c ∷ rest) s l h k =
      Turns-le (length rest) n s.out (convert fl v (c ∷ rest) s) (omega arith)
        (convert-Turns rest s.out s.fmt h k v c s.args)

  pub print_step-Turns :
      (c : ℕ) (fmt : Bytes) (s : Printing D)
      → IsValid s.out
      → s.out.buf < s.out.last
      → Turns (length fmt) s.out (print_step fl c fmt s)
  unfolding print_step
  print_step-Turns c fmt s h k = elim (Bool-cases (c == b'%')) [
    | inl e ↦
        let r = read_spec fmt in
        rw e (convert_read-Turns (length fmt) r.0 r.1 s (length-read_spec fmt) h k)
    | inr e ↦ rw e (put-Emits c s.out k, omega arith)
  ]
