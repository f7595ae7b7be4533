-- ===== src/Logger/Bounds.antt =====
-- No write of `ngx_vslprintf` in my_nginx_event/src/logger/my_logger.cpp stands at or behind `last`.
use mynginx_evnet_module.Base.{
  ℕ, zero, suc, ◌+◌, ◌-◌, ◌≤◌, ◌<◌, ◌≡◌, sym, ap, ◌∙◌, inl, inr, Option, none, some, List, [], ◌∷◌,
  ◌++◌, arith, ltb, ◌==◌, ◌||◌, not, Bool-cases, length, take, length-take,
}
use mynginx_evnet_module.Base.Bytes.{Bytes}
use mynginx_evnet_module.Logger.{Out}
use mynginx_evnet_module.Logger.Format.{
  Arg, Floating, Printing, Printed, printed, undefined, out_of_fuel, print_step, print_loop,
  vslprintf,
}
use mynginx_evnet_module.Logger.Emit.{IsValid, emit, emit-nil}
use mynginx_evnet_module.Logger.Turns.{Emits, Emits-trans, Emits-IsValid, Turns, print_step-Turns}

-- What a printing leaves.
abbrev Ends : Out → Printed → Type 0
Ends o (printed o') = Emits o o'
Ends o undefined = Unit {0}
Ends o out_of_fuel = ⊥

module _ {D : Type 0} (fl : Floating D) where
  Ends-trans : (o o' : Out) (r : Printed) → Emits o o' → Ends o' r → Ends o r
  Ends-trans o o' (printed o'') h t = Emits-trans o o' o'' h t
  Ends-trans o o' undefined h t = tt
  Ends-trans o o' out_of_fuel h t = t

  -- What the rest of the loop does, it does behind a turn.
  print_step-Ends :
      (fuel n : ℕ) (o : Out) (r : Option (Printing D))
      → ((o : Out) (fmt : Bytes) (args : List (Arg D))
          → length fmt < fuel
          → IsValid o
          → Ends o (print_loop fl fuel (record { out = o; fmt = fmt; args = args })))
      → n < fuel
      → IsValid o
      → Turns n o r
      → Ends o (elim r as (λ _. Printed) [ none ↦ undefined | some s' ↦ print_loop fl fuel s' ])
  print_step-Ends fuel n o none go l h t = tt
  print_step-Ends fuel n o (some s) go l h t =
      Ends-trans o s.out (print_loop fl fuel s) t.0
        (go s.out s.fmt s.args (omega (arith, t.1)) (Emits-IsValid o s.out h t.0))

  print_loop-Ends :
      (fuel : ℕ) (o : Out) (fmt : Bytes) (args : List (Arg D))
      → length fmt < fuel
      → IsValid o
      → Ends o (print_loop fl fuel (record { out = o; fmt = fmt; args = args }))
  unfolding print_loop
  print_loop-Ends zero o fmt args l h = absurd (omega arith)
  print_loop-Ends (suc fuel) o [] args l h = ([], sym (emit-nil o))
  print_loop-Ends (suc fuel) o (c ∷ fmt) args l h =
      elim (Bool-cases (c == 0 || not (ltb o.buf o.last))) [
        | inl e ↦ rw e ([], sym (emit-nil o))
        | inr e ↦
            let below : o.buf < o.last = ground (arith, e) in
            let s : Printing D = record { out = o; fmt = c ∷ fmt; args = args } in
            rw e (
              print_step-Ends fuel (length fmt) o (print_step fl c fmt s) (print_loop-Ends fuel)
                (omega arith) h (print_step-Turns fl c fmt s h below))
      ]

-- What has been printed is in front of the limit, and each byte of it has its place.
abbrev pub StaysIn : Out → Printed → Type 0
StaysIn o (printed o') =
    (bs : Bytes) × (o'.text ≡ o.text ++ bs)
    × (o'.buf ≡ o.buf + length bs)
    × (o'.buf ≤ o.last)
    × (o'.last ≡ o.last)
StaysIn o undefined = Unit {0}
StaysIn o out_of_fuel = ⊥

Ends-StaysIn : (o : Out) (r : Printed) → IsValid o → Ends o r → StaysIn o r
unfolding IsValid emit
Ends-StaysIn o (printed o') h t =
    let room = o.last - o.buf in
    (
      take room t.0,
      ap (λ x. x.text) t.1,
      ap (λ x. x.buf) t.1 ∙ ap (◌+◌ o.buf) (sym (length-take room t.0)),
      omega (arith, ap (λ x. x.buf) t.1, h.0),
      ap (λ x. x.last) t.1,
    )
Ends-StaysIn o undefined h t = tt
Ends-StaysIn o out_of_fuel h t = t

-- For every format and all arguments, from a place that is at most the limit, the printing comes to
-- an end: either it is undefined, since an argument has another type than its directive or the
-- format ends inside a directive, or it has written bytes behind those that stood there, one per
-- place, and the place it stops at is at most the limit.
pub vslprintf-StaysIn :
    {D : Type 0} (fl : Floating D) (o : Out) (fmt : Bytes) (args : List (Arg D))
    → IsValid o
    → StaysIn o (vslprintf fl o fmt args)
unfolding vslprintf
vslprintf-StaysIn fl o fmt args h =
    Ends-StaysIn o (vslprintf fl o fmt args) h
      (print_loop-Ends fl (suc (length fmt)) o fmt args (omega arith) h)
