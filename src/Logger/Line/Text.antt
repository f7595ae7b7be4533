-- ===== src/Logger/Line/Text.antt =====
-- The text of a line that `ngx_log_stderr` of my_nginx_event/src/logger/my_logger.cpp writes.
use mynginx_evnet_module.Base.{
  ℕ, zero, suc, ◌+◌, ◌-◌, ◌*◌, ◌/◌, ◌%◌, ◌^◌, ◌≤◌, ◌<◌, ◌≡◌, refl, sym, ap, ◌∙◌, List, [], ◌∷◌,
  ◌++◌, append_assoc, append-nil, arith, ltb, ◌==◌, Bool-cases, inl, inr, length, length-append,
  take, take_all, lt→ltb, lt→not_leb, min, if◌then◌else◌,
}
use mynginx_evnet_module.Base.Bytes.{Bytes, codes}
use mynginx_evnet_module.Base.Decimal.{digits, decimal}
use mynginx_evnet_module.Logger.{Out, put, put_all}
use mynginx_evnet_module.Logger.Format.{Floating, printed}
use mynginx_evnet_module.Logger.Emit.{IsValid, emit}
use mynginx_evnet_module.Logger.Items.{Item, format, rendering, WellFormed, arguments}
use mynginx_evnet_module.Logger.Render.{vslprintf-rendering}
use mynginx_evnet_module.Logger.Line.{
  int_text, leftstr, leftstr_size, log_errno, with_errno, seal, seal_line, then_print, stderr_line,
}

-- 10 ^ k
abbrev tens : ℕ → ℕ
tens zero = 1
tens (suc k) = 10 * tens k

length-digits : (k fuel n : ℕ) → n < tens (suc k) → length (digits fuel n) ≤ suc k
unfolding digits
length-digits k zero n h = omega arith
length-digits zero (suc fuel) n h = rw (lt→ltb n 10 (omega (arith, h))) (omega arith)
length-digits (suc k) (suc fuel) n h = elim (Bool-cases (ltb n 10)) [
  | inl e ↦ rw e (omega arith)
  | inr e ↦ rw e (
      omega (
        arith,
        length-append (digits fuel (n / 10)) ((b'0' + n % 10) ∷ []),
        length-digits k fuel (n / 10) (omega (arith, h)),
      ))
]

int_text-small : (n : ℕ) → n < 2 ^ 31 → int_text n ≡ decimal n
unfolding int_text
int_text-small n h = rw (lt→not_leb (2 ^ 31) n h) refl

length-decimal_five : (n : ℕ) → n < 100000 → length (decimal n) ≤ 5
unfolding decimal
length-decimal_five n h = length-digits 4 (suc n) n h

-- An error number below 100000 fits its array.
length-leftstr : (err : ℕ) → err < 100000 → length (leftstr err) < leftstr_size
length-leftstr err h = omega (
  arith,
  length-append (int_text err) (codes ": "),
  length-decimal_five err h,
  ap length (int_text-small err (omega (arith, h))),
)

-- What is written behind the message for an error.
abbrev pub error_text : (ℕ → Bytes) → ℕ → Bytes
error_text strerror err = if err == 0 then [] else leftstr err ++ strerror err ++ codes ") "

-- A text at a place in the array.
abbrev at_text : Bytes → Out
at_text t = record { text = t; buf = length t; last = 2048 }

Out-eq :
    (t u : Bytes) (b : ℕ)
    → t ≡ u
    → b ≡ length u
    → record { text = t; buf = b; last = 2048 } ≡ at_text u
Out-eq t u b e h =
    ap (λ x. record { text = x; buf = b; last = 2048 }) e
    ∙ ap (λ x. record { text = u; buf = x; last = 2048 }) h

with_errno-text :
    (strerror : ℕ → Bytes) (err : ℕ) (t : Bytes)
    → err < 100000
    → length (t ++ error_text strerror err) < 2047
    → with_errno strerror err (at_text t) ≡ printed (at_text (t ++ error_text strerror err))
unfolding log_errno put_all
with_errno-text strerror err t b h = elim (Bool-cases (err == 0)) [
  | inl z ↦ rw z (ap (λ u. printed (at_text u)) (sym (append-nil t)))
  | inr z ↦
      let message = leftstr err ++ strerror err ++ codes ") " in
      let room : length (t ++ message) < 2047 = rw z at h in
      let fits = lt→not_leb leftstr_size (length (leftstr err)) (length-leftstr err b) in
      let below =
        lt→ltb (length t + length message) 2048 (omega (arith, room, length-append t message)) in
      rw (z, fits, below)
        (ap printed (
          Out-eq (t ++ message) (t ++ message) (length t + length message) refl
            (omega (arith, length-append t message))))
]

seal-text : (t : Bytes) → length t < 2047 → (seal (at_text t)).text ≡ t ++ b'\n' ∷ []
unfolding seal put
seal-text t h = rw (lt→not_leb 2047 (length t) h) refl

emit-text : (t bs : Bytes) → length (t ++ bs) ≤ 2048 → emit bs (at_text t) ≡ at_text (t ++ bs)
unfolding emit
emit-text t bs h =
    let room : length bs ≤ 2048 - length t = omega (arith, h, length-append t bs) in
    Out-eq (t ++ take (2048 - length t) bs) (t ++ bs) (length t + min (2048 - length t) (length bs))
      (ap (λ u. t ++ u) (take_all (2048 - length t) bs room))
      (omega (arith, room, length-append t bs))

module _ {D : Type 0} (fl : Floating D) where
  -- For a format made of plain bytes, %%, %s, %P and numbers, and an error number below 100000: where
  -- it all has room in the array `errstr`, the line that `ngx_log_stderr` writes is `nginx: `, the texts
  -- of the items, for a number other than 0 the number and the text of the error in brackets, and a
  -- newline, with nothing cut off.
  pub stderr_line-text :
      (strerror : ℕ → Bytes) (err : ℕ) (items : List Item)
      → WellFormed items
      → err < 100000
      → length (codes "nginx: " ++ rendering items ++ error_text strerror err) < 2047
      → (o : Out) × (stderr_line fl strerror err (format items) (arguments items) ≡ printed o)
        × (o.text ≡ (codes "nginx: " ++ rendering items ++ error_text strerror err) ++ b'\n' ∷ [])
  unfolding stderr_line put_all IsValid
  stderr_line-text strerror err items g b h =
      let t = codes "nginx: " ++ rendering items in
      let whole = append_assoc (codes "nginx: ") (rendering items) (error_text strerror err) in
      let room : length (t ++ error_text strerror err) < 2047 = omega (arith, h, ap length whole) in
      let short : length t ≤ 2048 =
        omega (arith, room, length-append t (error_text strerror err)) in
      (
        seal (at_text (t ++ error_text strerror err)),
        ap (λ r. then_print r (seal_line strerror err))
              (vslprintf-rendering fl items (at_text (codes "nginx: ")) (omega arith, omega arith) g
                ∙ ap printed (emit-text (codes "nginx: ") (rendering items) short))
            ∙ ap (λ r. then_print r (λ o'. printed (seal o')))
                (with_errno-text strerror err t b room),
        seal-text (t ++ error_text strerror err) room ∙ ap (λ u. u ++ b'\n' ∷ []) whole,
      )
