-- ===== src/Logger/Number.antt =====
-- The digits of `ngx_sprintf_num` in my_nginx_event/src/logger/my_logger.cpp, read back as a number.
use mynginx_evnet_module.Base.{
  ℕ, zero, suc, ◌+◌, ◌-◌, ◌*◌, ◌/◌, ◌%◌, ◌^◌, ◌≤◌, ◌<◌, ◌≡◌, refl, ap, ◌∙◌, false, inl, inr, [],
  ◌∷◌, ◌++◌, arith, if◌then◌else◌, leb, ◌==◌, ◌&&◌, Bool-cases, leb→le, length, replicate,
  length-append, length-replicate, ==_iff,
}
use mynginx_evnet_module.Base.Bytes.{Bytes}
use mynginx_evnet_module.Logger.{
  Out, put_all, digit, base, fill_digits, number_text, sprintf_num, int64_len,
}
use mynginx_evnet_module.Logger.Emit.{IsValid, number_field, sprintf_num-emit, emit_all}

-- What a digit of either case is worth.
abbrev digit_value : ℕ → ℕ
digit_value c = if leb c b'9' then c - b'0' else if leb c b'F' then c - b'A' + 10 else c - b'a' + 10

-- The number that digits say in a base, read on from `acc`.
abbrev pub value_in : ℕ → ℕ → Bytes → ℕ
value_in b acc [] = acc
value_in b acc (c ∷ cs) = value_in b (acc * b + digit_value c) cs

-- `b` to the power of `fuel`.
abbrev numbers : ℕ → ℕ → ℕ
numbers b zero = 1
numbers b (suc fuel) = numbers b fuel * b

digit_value-digit : (hex d : ℕ) → d < 16 → digit_value (digit hex d) ≡ d
digit_value-digit hex d h = ground arith

value-fill_decimal :
    (fuel n : ℕ) (p : Bytes)
    → n < numbers 10 fuel
    → value_in 10 0 (fill_digits fuel 0 n p) ≡ value_in 10 n p
unfolding fill_digits
value-fill_decimal zero n p h = ap (λ m. value_in 10 m p) (omega arith)
value-fill_decimal (suc fuel) n p h =
    let d = digit_value-digit 0 (n % 10) (omega arith) in
    let whole : n / 10 * 10 + n % 10 ≡ n = omega arith in
    elim (Bool-cases (n / 10 == 0)) [
      | inl e ↦
          let z = (==_iff (n / 10) 0).0 e in rw e (ap (λ m. value_in 10 m p) (omega (arith, d, z)))
      | inr e ↦ rw e (
          value-fill_decimal fuel (n / 10) (digit 0 (n % 10) ∷ p) (omega arith)
          ∙ ap (λ m. value_in 10 m p) (ap (◌+◌ (n / 10 * 10)) d ∙ whole))
    ]

value-fill_hex :
    (fuel hex n : ℕ) (p : Bytes)
    → (hex == 0) ≡ false
    → n < numbers 16 fuel
    → value_in 16 0 (fill_digits fuel hex n p) ≡ value_in 16 n p
unfolding fill_digits
value-fill_hex zero hex n p hx h = ap (λ m. value_in 16 m p) (omega arith)
value-fill_hex (suc fuel) hex n p hx h =
    let d = digit_value-digit hex (n % 16) (omega arith) in
    let whole : n / 16 * 16 + n % 16 ≡ n = omega arith in
    elim (Bool-cases (n / 16 == 0)) [
      | inl e ↦
          let z = (==_iff (n / 16) 0).0 e in
          rw (hx, e) (ap (λ m. value_in 16 m p) (omega (arith, d, z)))
      | inr e ↦
          rw (hx, e)
            (value-fill_hex fuel hex (n / 16) (digit hex (n % 16) ∷ p) hx (omega arith)
              ∙ ap (λ m. value_in 16 m p) (ap (◌+◌ (n / 16 * 16)) d ∙ whole))
    ]

length-fill_digits :
    (fuel hex n : ℕ) (p : Bytes) → length (fill_digits fuel hex n p) ≤ fuel + length p
unfolding fill_digits
length-fill_digits zero hex n p = omega arith
length-fill_digits (suc fuel) hex n p = elim (Bool-cases (n / base hex == 0)) [
  | inl e ↦ rw e (omega arith)
  | inr e ↦
      let ih = length-fill_digits fuel hex (n / base hex) (digit hex (n % base hex) ∷ p) in
      rw e (omega (arith, ih))
]

grows-fill_digits : (fuel hex n : ℕ) (p : Bytes) → length p ≤ length (fill_digits fuel hex n p)
unfolding fill_digits
grows-fill_digits zero hex n p = omega arith
grows-fill_digits (suc fuel) hex n p = elim (Bool-cases (n / base hex == 0)) [
  | inl e ↦ rw e (omega arith)
  | inr e ↦
      let ih = grows-fill_digits fuel hex (n / base hex) (digit hex (n % base hex) ∷ p) in
      rw e (omega (arith, ih))
]

base_hex : (hex : ℕ) → (hex == 0) ≡ false → base hex ≡ 16
base_hex hex e = rw e refl

number_text_hex :
    (hex n : ℕ) → (hex == 0) ≡ false → number_text hex n ≡ fill_digits int64_len hex n []
unfolding number_text
number_text_hex hex n e = rw e refl

value-number_text : (hex n : ℕ) → n < 2 ^ 64 → value_in (base hex) 0 (number_text hex n) ≡ n
unfolding number_text
value-number_text hex n h = elim (Bool-cases (hex == 0)) [
  | inl e ↦
      let z = (==_iff hex 0).0 e in
      elim (Bool-cases (leb n 4294967295)) [
        | inl l ↦
            let small = leb→le n 4294967295 l in
            let same : n % 2 ^ 32 ≡ n = omega (arith, small) in
            rw (z, l, same) (value-fill_decimal 20 n [] (omega arith))
        | inr l ↦ rw (z, l) (value-fill_decimal 20 n [] (omega arith))
      ]
  | inr e ↦
      ap (λ b. value_in b 0 (number_text hex n)) (base_hex hex e)
      ∙ ap (value_in 16 0) (number_text_hex hex n e)
      ∙ value-fill_hex 20 hex n [] e (omega arith)
]

fill_digits-length :
    (hex n : ℕ)
    → (length (fill_digits int64_len hex n []) ≤ int64_len)
      × (0 < length (fill_digits int64_len hex n []))
unfolding fill_digits
fill_digits-length hex n = elim (Bool-cases (n / base hex == 0)) [
  | inl e ↦ rw e (omega arith, omega arith)
  | inr e ↦
      let p = digit hex (n % base hex) ∷ [] in
      let most = length-fill_digits 19 hex (n / base hex) p in
      let least = grows-fill_digits 19 hex (n / base hex) p in
      rw e (omega (arith, most), omega (arith, least))
]

pub length-number_text :
    (hex n : ℕ) → (length (number_text hex n) ≤ int64_len) × (0 < length (number_text hex n))
unfolding number_text fill_digits
length-number_text hex n = elim (Bool-cases (hex == 0 && leb n 4294967295)) [
  | inl e ↦ rw e (fill_digits-length hex (n % 2 ^ 32))
  | inr e ↦ rw e (fill_digits-length hex n)
]

-- A number is printed in full where there is room for its width and for 20 bytes: at most 20 digits,
-- at least one, that read back as the number in base 10 or 16, behind as many fill bytes as the
-- digits are fewer than the width.
pub sprintf_num-value :
    (o : Out) (n fill hex width : ℕ)
    → IsValid o
    → n < 2 ^ 64
    → o.buf + width + int64_len ≤ o.last
    → (ds : Bytes) × (sprintf_num o n fill hex width
        ≡ put_all (replicate (width - length ds) fill ++ ds) o)
      × ((length ds ≤ int64_len) × (0 < length ds))
      × (value_in (base hex) 0 ds ≡ n)
unfolding number_field
sprintf_num-value o n fill hex width v h k =
    let ds = number_text hex n in
    let l = length-number_text hex n in
    let padding = replicate (width - length ds) fill in
    let room : o.buf + length (padding ++ ds) ≤ o.last =
      omega (arith, l, k, length-append padding ds, length-replicate (width - length ds) fill) in
    (
      ds,
      sprintf_num-emit o n fill hex width v ∙ emit_all (padding ++ ds) o room,
      l,
      value-number_text hex n h,
    )
