-- ===== src/Logger/Emit.antt =====
-- Every operation of my_nginx_event/src/logger/my_logger.cpp writes as much of a text as has room in
-- front of `last`.
use native.Mathlib.Nat.{zero-sub, sub-zero, suc-sub-suc}
use mynginx_evnet_module.Base.{
  ℕ, zero, suc, ◌+◌, ◌-◌, ◌%◌, ◌^◌, ◌≤◌, ◌<◌, min, ◌≡◌, refl, sym, ap, ◌∙◌, inl, inr, [], ◌∷◌, ◌++◌,
  append_assoc, append-nil, arith, if◌then◌else◌, ltb, leb, ◌==◌, Bool-cases, ltb→lt, le_of_ltb,
  leb→le, length, take, replicate, length-append, length-take, take_all,
}
use mynginx_evnet_module.Base.Bytes.{Bytes}
use mynginx_evnet_module.Base.CString.{c_str}
use mynginx_evnet_module.Logger.{Out, put, put_all, pad, copy_digits, number_text, sprintf_num}
use mynginx_evnet_module.Logger.Format.{copy_text, put_signed}

-- The place is at most the limit, which is an address of 64 bits.
unfoldable pub IsValid : Out → Type 0
IsValid o = (o.buf ≤ o.last) × (o.last < 2 ^ 64)

abbrev pub at : Bytes → ℕ → ℕ → Out
at text buf last = record { text = text; buf = buf; last = last }

-- As much of a text as has room.
unfoldable pub emit : Bytes → Out → Out
emit bs o =
    at (o.text ++ take (o.last - o.buf) bs) (o.buf + min (o.last - o.buf) (length bs)) o.last

at_eq : (t t' : Bytes) (b b' l : ℕ) → t ≡ t' → b ≡ b' → at t b l ≡ at t' b' l
at_eq t t' b b' l h k = ap (λ x. at x b l) h ∙ ap (λ x. at t' x l) k

take-append_split :
    (n : ℕ) (xs ys : Bytes) → take n (xs ++ ys) ≡ take n xs ++ take (n - length xs) ys
take-append_split zero xs ys = rw (zero-sub (length xs)) refl
take-append_split (suc n) [] ys = rw (sub-zero (suc n)) refl
take-append_split (suc n) (x ∷ xs) ys =
    rw (suc-sub-suc n (length xs)) (ap (◌∷◌ x) (take-append_split n xs ys))

pub emit-IsValid : (bs : Bytes) (o : Out) → IsValid o → IsValid (emit bs o)
unfolding IsValid emit
emit-IsValid bs o v = (omega (arith, v), v.1)

pub emit-emit : (xs bs : Bytes) (o : Out) → emit bs (emit xs o) ≡ emit (xs ++ bs) o
unfolding emit
emit-emit xs bs o =
    let m = o.last - o.buf in
    let e : o.last - (o.buf + min m (length xs)) ≡ m - length xs = omega arith in
    at_eq ((o.text ++ take m xs) ++ take (o.last - (o.buf + min m (length xs))) bs)
      (o.text ++ take m (xs ++ bs))
      (o.buf + min m (length xs) + min (o.last - (o.buf + min m (length xs))) (length bs))
      (o.buf + min m (length (xs ++ bs))) o.last
      (rw (e, take-append_split m xs bs, append_assoc) refl) (omega (arith, length-append xs bs))

pub emit-nil : (o : Out) → emit [] o ≡ o
unfolding emit
emit-nil o =
    at_eq (o.text ++ take (o.last - o.buf) []) o.text (o.buf + min (o.last - o.buf) 0) o.buf o.last
      (ap (◌++◌ o.text) (take_all (o.last - o.buf) [] (omega arith)) ∙ append-nil o.text)
      (omega arith)

pub emit_full : (bs : Bytes) (o : Out) → o.last ≤ o.buf → emit bs o ≡ o
unfolding emit
emit_full bs o h =
    let e : o.last - o.buf ≡ 0 = omega arith in
    at_eq (o.text ++ take (o.last - o.buf) bs) o.text (o.buf + min (o.last - o.buf) (length bs))
      o.buf o.last (rw e (append-nil o.text)) (omega arith)

pub emit_all : (bs : Bytes) (o : Out) → o.buf + length bs ≤ o.last → emit bs o ≡ put_all bs o
unfolding emit put_all
emit_all bs o h =
    at_eq (o.text ++ take (o.last - o.buf) bs) (o.text ++ bs)
      (o.buf + min (o.last - o.buf) (length bs)) (o.buf + length bs) o.last
      (ap (◌++◌ o.text) (take_all (o.last - o.buf) bs (omega arith))) (omega arith)

pub put-emit : (c : ℕ) (o : Out) → o.buf < o.last → put c o ≡ emit (c ∷ []) o
unfolding put put_all
put-emit c o h = sym (emit_all (c ∷ []) o (omega arith))

put_all-emit : (bs : Bytes) (o : Out) → o.buf + length bs ≤ o.last → put_all bs o ≡ emit bs o
put_all-emit bs o h = sym (emit_all bs o h)

-- The copy of a text stops at the limit.
pub copy_text-emit : (p : Bytes) (o : Out) → o.buf ≤ o.last → copy_text p o ≡ emit (c_str p) o
unfolding copy_text c_str put
copy_text-emit [] o h = sym (emit-nil o)
copy_text-emit (c ∷ p) o h = elim (Bool-cases (c == 0)) [
  | inl e ↦ rw e (sym (emit-nil o))
  | inr e ↦ elim (Bool-cases (ltb o.buf o.last)) [
    | inl l ↦
        let below = ltb→lt o.buf o.last l in
        rw (e, l)
          (copy_text-emit p (put c o) (omega arith)
            ∙ ap (emit (c_str p)) (put-emit c o below)
            ∙ emit-emit (c ∷ []) (c_str p) o)
    | inr l ↦ rw (e, l) (sym (emit_full (c ∷ c_str p) o (le_of_ltb o.buf o.last l)))
  ]
]

pad-emit : (k c : ℕ) (o : Out) → o.buf ≤ o.last → pad k c o ≡ emit (replicate k c) o
unfolding pad put
pad-emit zero c o h = sym (emit-nil o)
pad-emit (suc k) c o h = elim (Bool-cases (ltb o.buf o.last)) [
  | inl l ↦
      let below = ltb→lt o.buf o.last l in
      rw l (
        pad-emit k c (put c o) (omega arith)
        ∙ ap (emit (replicate k c)) (put-emit c o below)
        ∙ emit-emit (c ∷ []) (replicate k c) o)
  | inr l ↦ rw l (sym (emit_full (c ∷ replicate k c) o (le_of_ltb o.buf o.last l)))
]

copy_digits-emit : (ds : Bytes) (o : Out) → IsValid o → copy_digits ds o ≡ emit ds o
unfolding copy_digits put_all emit IsValid
copy_digits-emit ds o v = elim (Bool-cases (leb o.last (o.buf + length ds))) [
  | inl e ↦
      let full = leb→le o.last (o.buf + length ds) e in
      let len : (2 ^ 64 + o.last - o.buf) % 2 ^ 64 ≡ o.last - o.buf = omega (arith, v) in
      rw (e, len)
        (ap (λ n. at (o.text ++ take (o.last - o.buf) ds) (o.buf + n) o.last)
          (length-take (o.last - o.buf) ds))
  | inr e ↦ rw e (put_all-emit ds o (ground (arith, e)))
]

-- A number in its field, written without a limit.
unfoldable pub number_field : ℕ → ℕ → ℕ → ℕ → Bytes
unfolding number_text
number_field ui64 fill hex width =
    let ds = number_text hex ui64 in replicate (width - length ds) fill ++ ds

pub sprintf_num-emit :
    (o : Out) (ui64 fill hex width : ℕ)
    → IsValid o
    → sprintf_num o ui64 fill hex width ≡ emit (number_field ui64 fill hex width) o
unfolding sprintf_num number_field IsValid
sprintf_num-emit o ui64 fill hex width v =
    let ds = number_text hex ui64 in
    let padding = replicate (width - length ds) fill in
    ap (copy_digits ds) (pad-emit (width - length ds) fill o v.0)
    ∙ copy_digits-emit ds (emit padding o) (emit-IsValid padding o v)
    ∙ emit-emit padding ds o

-- The sign and the number, written without a limit.
unfoldable pub signed_field : ℕ → ℕ → ℕ → ℕ → Bytes
unfolding number_field
signed_field i64 fill hex width =
    if leb (2 ^ 63) i64
    then b'-' ∷ number_field (2 ^ 64 - i64) fill hex width
    else number_field i64 fill hex width

pub put_signed-emit :
    (i64 fill hex width : ℕ) (o : Out)
    → IsValid o
    → o.buf < o.last
    → put_signed i64 fill hex width o ≡ emit (signed_field i64 fill hex width) o
unfolding put_signed signed_field IsValid put
put_signed-emit i64 fill hex width o v h = elim (Bool-cases (leb (2 ^ 63) i64)) [
  | inl e ↦
      let text = number_field (2 ^ 64 - i64) fill hex width in
      rw e (
        sprintf_num-emit (put b'-' o) (2 ^ 64 - i64) fill hex width (omega arith, v.1)
        ∙ ap (emit text) (put-emit b'-' o h)
        ∙ emit-emit (b'-' ∷ []) text o)
  | inr e ↦ rw e (sprintf_num-emit o i64 fill hex width v)
]
