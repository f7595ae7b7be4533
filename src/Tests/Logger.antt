-- ===== src/Tests/Logger.antt =====
-- Examples for the log: my_nginx_event/src/logger/my_logger.cpp.
use mynginx_evnet_module.Base.{
  ℕ, ◌+◌, ◌-◌, ◌*◌, ◌/◌, ◌≤◌, ◌<◌, ◌≡◌, refl, false, List, [], ◌∷◌, ◌++◌, arith, length, replicate,
}
use mynginx_evnet_module.Base.Bytes.{Bytes, codes}
use mynginx_evnet_module.Base.CString.{c_str}
use mynginx_evnet_module.Base.Decimal.{AllDigits}
use mynginx_evnet_module.Logger.{
  fill_digits, number_text, Out, put_all, base, int64_len, sprintf_num,
}
use mynginx_evnet_module.Logger.Format.{text_arg, double, Floating, printed, vslprintf}
use mynginx_evnet_module.Logger.Emit.{number_field, signed_field, IsValid, emit}
use mynginx_evnet_module.Logger.Number.{value_in, sprintf_num-value}
use mynginx_evnet_module.Logger.Bounds.{StaysIn, vslprintf-StaysIn}
use mynginx_evnet_module.Logger.Items.{
  Item, plain, number, string, as_signed, format, arguments, rendering,
}
use mynginx_evnet_module.Logger.Render.{vslprintf-rendering}
use mynginx_evnet_module.Base.Decimal.{decimal, digits}
use mynginx_evnet_module.Logger.Line.Text.{error_text, stderr_line-text}
use mynginx_evnet_module.Logger.Line.{int_text, Time, log_line, stderr_line}
use mynginx_evnet_module.Logger.Line.Bounds.{IsLine, lines-IsLine}

-- Hundredths, as numbers with a fraction.
abbrev hundredths : Floating ℕ
hundredths = record {
  is_negative = λ f. false;
  negate = λ f. f;
  to_uint64 = λ f. f / 100;
  of_uint64 = λ n. n * 100;
  subtract = λ f g. f - g;
  multiply = λ f g. f * g / 100;
  add_half = λ f. f + 50;
}

abbrev place : Out
place = record { text = []; buf = 0; last = 32 }

abbrev short_place : Out
short_place = record { text = []; buf = 0; last = 9 }

sprintf_num-value_example :
    (ds : Bytes) × (sprintf_num place 48879 b'0' 1 8
      ≡ put_all (replicate (8 - length ds) b'0' ++ ds) place)
    × ((length ds ≤ int64_len) × (0 < length ds))
    × (value_in (base 1) 0 ds ≡ 48879)
unfolding IsValid
sprintf_num-value_example =
    sprintf_num-value place 48879 b'0' 1 8 (omega arith, omega arith) (omega arith) (omega arith)

vslprintf-StaysIn_example :
    StaysIn short_place (vslprintf hundredths short_place (codes "load %.1f") (double 199 ∷ []))
unfolding IsValid
vslprintf-StaysIn_example =
    vslprintf-StaysIn hundredths short_place (codes "load %.1f") (double 199 ∷ [])
      (omega arith, omega arith)

abbrev items : List Item
items = string (codes "fd") ∷ plain b'=' ∷ number (codes "05") as_signed 42 ∷ []

vslprintf-rendering_example :
    vslprintf hundredths place (format items) (arguments items)
    ≡ printed (emit (rendering items) place)
unfolding IsValid AllDigits
vslprintf-rendering_example =
    vslprintf-rendering hundredths items place (omega arith, omega arith)
      ((refl, refl), (((omega arith, omega arith), ((omega arith, omega arith), tt)), tt))

abbrev evening : Time
evening = record { tm_year = 124; tm_mon = 9; tm_mday = 22; tm_hour = 16; tm_min = 53; tm_sec = 13 }

lines-IsLine_example :
    IsLine (
      log_line hundredths evening
        (λ e. codes "Success")
        17113
        6
        2
        (codes "started %s")
        (text_arg (codes "worker") ∷ []))
    × IsLine (
        stderr_line hundredths
          (λ e. codes "Success")
          2
          (codes "started %s")
          (text_arg (codes "worker") ∷ []))
lines-IsLine_example =
    lines-IsLine hundredths evening (λ e. codes "Success") 17113 6 2 (codes "started %s")
      (text_arg (codes "worker") ∷ [])

stderr_line-text_example :
    (o : Out) × (stderr_line hundredths
        (λ e. codes "No such file")
        2
        (format items)
        (arguments items)
      ≡ printed o)
    × (o.text
        ≡ (codes "nginx: " ++ rendering items ++ error_text (λ e. codes "No such file") 2)
          ++ b'\n' ∷ [])
unfolding AllDigits int_text decimal digits fill_digits number_text number_field signed_field c_str
stderr_line-text_example =
    stderr_line-text hundredths (λ e. codes "No such file") 2 items
      ((refl, refl), (((omega arith, omega arith), ((omega arith, omega arith), tt)), tt))
      (omega arith) (omega arith)
