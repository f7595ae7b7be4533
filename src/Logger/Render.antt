-- ===== src/Logger/Render.antt =====
-- `ngx_vslprintf` of my_nginx_event/src/logger/my_logger.cpp against the specification of formats.
use mynginx_evnet_module.Base.{
  ℕ, zero, suc, ◌+◌, ◌-◌, ◌*◌, ◌%◌, ◌^◌, ◌≤◌, ◌<◌, ◌≡◌, refl, sym, ap, ◌∙◌, true, false, inl, inr,
  Option, some, List, [], ◌∷◌, ◌++◌, append_assoc, arith, ltb, leb, ◌==◌, ◌&&◌, Bool-cases, ltb→lt,
  lt→ltb, le→ltb, le_of_ltb, length, length-append,
}
use mynginx_evnet_module.Base.Bytes.{Bytes}
use mynginx_evnet_module.Base.Decimal.{AllDigits, value}
use mynginx_evnet_module.Base.CString.{c_str}
use mynginx_evnet_module.Logger.{Out}
use mynginx_evnet_module.Logger.Format.{
  Arg, word, pid, text_arg, Floating, fill_of, read_width, read_flags, read_spec, Printing, printed,
  put_word, convert, convert_word, convert_text, convert_pid, convert_read, print_step, print_loop,
  vslprintf, extend_sign,
}
use mynginx_evnet_module.Logger.Emit.{
  IsValid, emit, emit-emit, emit-IsValid, emit-nil, emit_full, put-emit, sprintf_num-emit,
  put_signed-emit, copy_text-emit,
}
use mynginx_evnet_module.Logger.Items.{
  Kind, as_signed, as_unsigned, as_lower, as_upper, Item, plain, percent, number, process, string,
  letters, item_format, format, item_text, rendering, WellFormed, item_args, arguments,
}

-- Digits are read to their end.
read_width-value :
    (w v : ℕ) (ds : Bytes) (c : ℕ) (rest : Bytes)
    → w ≡ v % 2 ^ 64
    → AllDigits ds
    → (leb b'0' c && leb c b'9') ≡ false
    → read_width w (ds ++ c ∷ rest) ≡ (value v ds % 2 ^ 64, c ∷ rest)
unfolding read_width AllDigits
read_width-value w v [] c rest h d e = rw (e, h) refl
read_width-value w v (x ∷ ds) c rest h d e =
    let digit : (leb b'0' x && leb x b'9') ≡ true = ground (arith, d.0) in
    rw digit (
      read_width-value ((w * 10 + x - b'0') % 2 ^ 64) (v * 10 + (x - b'0')) ds c rest
        (omega (arith, h, d.0)) d.1 e)

fill_of-append :
    (ds : Bytes) (c : ℕ) (rest : Bytes)
    → (c == b'0') ≡ false
    → fill_of (ds ++ c ∷ rest) ≡ fill_of ds
fill_of-append [] c rest e = rw e refl
fill_of-append (x ∷ ds) c rest e = refl

-- The directive up to its letters.
read_spec-digits :
    (ds : Bytes) (c : ℕ) (rest : Bytes)
    → AllDigits ds
    → (leb b'0' c && leb c b'9') ≡ false
    → read_spec (ds ++ c ∷ rest)
      ≡ read_flags
          (record {
            fill = fill_of ds;
            width = value 0 ds % 2 ^ 64;
            sign = true;
            hex = 0;
            frac_width = 0;
          })
          (c ∷ rest)
unfolding read_spec
read_spec-digits ds c rest d e =
    let other : (c == b'0') ≡ false = ground (arith, e) in
    rw (fill_of-append ds c rest other, read_width-value 0 0 ds c rest refl d e) refl

module _ {D : Type 0} (fl : Floating D) where
  abbrev from : Out → Bytes → List (Arg D) → Printing D
  from o fmt args = record { out = o; fmt = fmt; args = args }

  -- One turn, where there is room and the byte is not the last.
  print_loop-turn :
      (fuel c : ℕ) (fmt : Bytes) (o o' : Out) (args rest : List (Arg D)) (fmt' : Bytes)
      → o.buf < o.last
      → (c == 0) ≡ false
      → print_step fl c fmt (from o (c ∷ fmt) args) ≡ some (from o' fmt' rest)
      → print_loop fl (suc fuel) (from o (c ∷ fmt) args) ≡ print_loop fl fuel (from o' fmt' rest)
  unfolding print_loop
  print_loop-turn fuel c fmt o o' args rest fmt' k z e = rw (z, lt→ltb o.buf o.last k, e) refl

  print_loop_full :
      (fuel : ℕ) (o : Out) (fmt : Bytes) (args : List (Arg D))
      → o.last ≤ o.buf
      → print_loop fl (suc fuel) (from o fmt args) ≡ printed o
  unfolding print_loop
  print_loop_full fuel o [] args h = refl
  print_loop_full fuel o (c ∷ fmt) args h = rw (le→ltb o.buf o.last h) (ground arith)

  module _ (o : Out) (rest : Bytes) (args : List (Arg D)) (h : IsValid o) (k : o.buf < o.last) where
    abbrev shows : Out → Option (Printing D)
    shows o' = some (from o' rest args)

    number_step :
        (ds : Bytes) (kind : Kind) (w : ℕ)
        → AllDigits ds
        → print_step fl b'%'
            ((ds ++ letters kind) ++ rest)
            (from o (b'%' ∷ (ds ++ letters kind) ++ rest) (word w ∷ args))
          ≡ shows (emit (item_text (number ds kind w)) o)
    unfolding print_step convert_read convert convert_word put_word read_flags
    number_step ds as_signed w d =
        rw (append_assoc ds (b'd' ∷ []) rest, read_spec-digits ds b'd' rest d refl)
          (ap shows (put_signed-emit (w % 2 ^ 64) (fill_of ds) 0 (value 0 ds % 2 ^ 64) o h k))
    number_step ds as_unsigned w d =
        rw (append_assoc ds (b'u' ∷ b'd' ∷ []) rest, read_spec-digits ds b'u' (b'd' ∷ rest) d refl)
          (ap shows (sprintf_num-emit o (w % 2 ^ 64) (fill_of ds) 0 (value 0 ds % 2 ^ 64) h))
    number_step ds as_lower w d =
        rw (append_assoc ds (b'x' ∷ b'd' ∷ []) rest, read_spec-digits ds b'x' (b'd' ∷ rest) d refl)
          (ap shows (sprintf_num-emit o (w % 2 ^ 64) (fill_of ds) 1 (value 0 ds % 2 ^ 64) h))
    number_step ds as_upper w d =
        rw (append_assoc ds (b'X' ∷ b'd' ∷ []) rest, read_spec-digits ds b'X' (b'd' ∷ rest) d refl)
          (ap shows (sprintf_num-emit o (w % 2 ^ 64) (fill_of ds) 2 (value 0 ds % 2 ^ 64) h))

    item_step :
        (fuel : ℕ) (i : Item)
        → WellFormed (i ∷ [])
        → print_loop fl (suc fuel) (from o (item_format i ++ rest) (item_args i ++ args))
          ≡ print_loop fl fuel (from (emit (item_text i) o) rest args)
    unfolding print_step convert_read convert convert_text convert_pid read_spec read_width
        read_flags IsValid
    item_step fuel (plain c) g =
        print_loop-turn fuel c rest o (emit (c ∷ []) o) args args rest k g.0.0
          (rw g.0.1 (ap shows (put-emit c o k)))
    item_step fuel percent g =
        print_loop-turn fuel b'%' (b'%' ∷ rest) o (emit (b'%' ∷ []) o) args args rest k refl
          (ap shows (put-emit b'%' o k))
    item_step fuel (number ds kind w) g =
        print_loop-turn fuel b'%' ((ds ++ letters kind) ++ rest) o
          (emit (item_text (number ds kind w)) o) (word w ∷ args) args rest k refl
          (number_step ds kind w g.0)
    item_step fuel (process w) g =
        print_loop-turn fuel b'%' (b'P' ∷ rest) o (emit (item_text (process w)) o) (pid w ∷ args)
          args rest k refl (ap shows (put_signed-emit (extend_sign w) b' ' 0 0 o h k))
    item_step fuel (string p) g =
        print_loop-turn fuel b'%' (b's' ∷ rest) o (emit (c_str p) o) (text_arg p ∷ args) args rest k
          refl (ap shows (copy_text-emit p o h.0))

  WellFormed-head :
      (i : Item) (items : List Item)
      → WellFormed (i ∷ items)
      → WellFormed (i ∷ []) × WellFormed items
  WellFormed-head (plain c) items g = ((g.0, tt), g.1)
  WellFormed-head percent items g = (tt, g)
  WellFormed-head (number ds kind w) items g = ((g.0, tt), g.1)
  WellFormed-head (process w) items g = (tt, g)
  WellFormed-head (string p) items g = (tt, g)

  length-item_format : (i : Item) → 0 < length (item_format i)
  length-item_format (plain c) = omega arith
  length-item_format percent = omega arith
  length-item_format (number ds kind w) = omega arith
  length-item_format (process w) = omega arith
  length-item_format (string p) = omega arith

  print_loop-rendering :
      (fuel : ℕ) (items : List Item) (o : Out)
      → length (format items) < fuel
      → IsValid o
      → WellFormed items
      → print_loop fl fuel (from o (format items) (arguments items))
        ≡ printed (emit (rendering items) o)
  unfolding print_loop
  print_loop-rendering zero items o l h g = absurd (omega arith)
  print_loop-rendering (suc fuel) [] o l h g = ap printed (sym (emit-nil o))
  print_loop-rendering (suc fuel) (i ∷ items) o l h g = elim (Bool-cases (ltb o.buf o.last)) [
    | inl e ↦
        let g' = WellFormed-head i items g in
        let o' = emit (item_text i) o in
        item_step o (format items) (arguments items) h (ltb→lt o.buf o.last e) fuel i g'.0
        ∙ print_loop-rendering fuel items o'
            (omega (arith, l, length-item_format i, length-append (item_format i) (format items)))
            (emit-IsValid (item_text i) o h) g'.1
        ∙ ap printed (emit-emit (item_text i) (rendering items) o)
    | inr e ↦
        let full = le_of_ltb o.buf o.last e in
        print_loop_full fuel o (item_format i ++ format items) (item_args i ++ arguments items) full
        ∙ ap printed (sym (emit_full (item_text i ++ rendering items) o full))
  ]

  -- For a format made of plain bytes, %%, %s, %P and numbers (%d, %ud, %xd, %Xd, with any width and
  -- with a zero to fill with zeros), given its arguments in order, the printing writes the texts of
  -- the items one behind the other, cut off where the room ends.
  pub vslprintf-rendering :
      (items : List Item) (o : Out)
      → IsValid o
      → WellFormed items
      → vslprintf fl o (format items) (arguments items) ≡ printed (emit (rendering items) o)
  unfolding vslprintf
  vslprintf-rendering items o h g =
      print_loop-rendering (suc (length (format items))) items o (omega arith) h g
