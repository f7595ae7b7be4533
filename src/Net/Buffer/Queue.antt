-- ===== src/Net/Buffer/Queue.antt =====
-- The buffer of Buffer.h is a queue of bytes: every operation keeps the indices valid and acts on
-- the readable bytes as a queue does.
use mynginx_evnet_module.Base.{
  ℕ, ◌+◌, ◌-◌, ◌≤◌, ◌<◌, ◌≡◌, refl, sym, ◌∙◌, ap, inl, inr, List, [], ◌∷◌, ◌++◌, arith, Bool-cases,
  le_of_ltb, drop-take, ltb, length, take, drop, replicate, slice, length-append, length-take,
  length-drop, length-slice, length-replicate, slice_write, slice-append, take_all, drop_all,
  drop-drop, take-take_le,
}
use mynginx_evnet_module.Base.Bytes.{Bytes}
use mynginx_evnet_module.Net.Buffer.{
  Buffer, new, cheap_prepend, retrieve, resize, retrieve_all, copy_to, grow, compact, make_space,
  ensure_writable_bytes, write, append, contents, IsValid, readable_bytes, writable_bytes,
  prependable_bytes, retrieve_as_string, peek,
}

length-copy_to : (s d : Bytes) (w : ℕ) → w + length d ≤ length s → length (copy_to s w d) ≡ length s
length-copy_to s d w h = omega (
  arith,
  length-append (take w s) (d ++ drop (w + length d) s),
  length-append d (drop (w + length d) s),
  length-take w s,
  length-drop (w + length d) s,
)

pub new-IsValid : (size : ℕ) → IsValid (new size)
unfolding new
new-IsValid size = omega (arith, length-replicate {A = ℕ} (size + cheap_prepend) 0)

write-IsValid :
    (b : Buffer) (d : Bytes)
    → IsValid b
    → b.writer_index + length d ≤ length b.storage
    → IsValid (write b d)
unfolding write
write-IsValid b d v h = omega (arith, v, length-copy_to b.storage d b.writer_index h)

write-contents : (b : Buffer) (d : Bytes) → IsValid b → contents (write b d) ≡ contents b ++ d
unfolding write
write-contents b d v = slice_write b.storage d _ b.reader_index b.writer_index v.ordered v.within

-- What `make_space` promises when there is too little room behind the write index.
record MakesRoom (b c : Buffer) (len : ℕ) : Type 0 where
  valid : IsValid c
  same : contents c ≡ contents b
  room : c.writer_index + len ≤ length c.storage

length-resize : (s : Bytes) (n : ℕ) → length s ≤ n → length (resize s n) ≡ n
length-resize s n h = omega (
  arith,
  length-append (take n s) (replicate (n - length s) 0),
  length-take n s,
  length-replicate {A = ℕ} (n - length s) 0,
)

grow-MakesRoom :
    (b : Buffer) (len : ℕ)
    → IsValid b
    → length b.storage < b.writer_index + len
    → MakesRoom b (grow b len) len
unfolding grow
grow-MakesRoom b len v h =
    let l = length-resize b.storage (b.writer_index + len) (omega arith) in
    record {
      valid = omega (arith, l, v);
      same =
          rw (take_all (b.writer_index + len) b.storage (omega arith))
            (slice-append b.storage _ b.reader_index b.writer_index v.ordered v.within);
      room = omega (arith, l);
    }

compact-MakesRoom :
    (b : Buffer) (len : ℕ)
    → IsValid b
    → len + cheap_prepend ≤ length b.storage - b.writer_index + b.reader_index
    → MakesRoom b (compact b) len
unfolding compact
compact-MakesRoom b len v h =
    let m = length-slice b.storage b.reader_index b.writer_index v.ordered v.within in
    let l = length-copy_to b.storage (contents b) cheap_prepend (omega (arith, m, v)) in
    record {
      valid = omega (arith, l, v);
      same =
          ap (λ k. slice (compact b).storage cheap_prepend (cheap_prepend + k)) (sym m)
          ∙ slice_write b.storage (contents b) _ cheap_prepend cheap_prepend (omega arith)
              (omega (arith, v));
      room = omega (arith, l, v);
    }

make_space-MakesRoom :
    (b : Buffer) (len : ℕ)
    → IsValid b
    → length b.storage < b.writer_index + len
    → MakesRoom b (make_space b len) len
unfolding make_space
make_space-MakesRoom b len v h =
    elim (Bool-cases
      (ltb (length b.storage - b.writer_index + b.reader_index) (len + cheap_prepend))) [
        | inl e ↦ rw e (grow-MakesRoom b len v h)
        | inr e ↦ rw e (compact-MakesRoom b len v (ground arith))
      ]

ensure-MakesRoom :
    (b : Buffer) (len : ℕ) → IsValid b → MakesRoom b (ensure_writable_bytes b len) len
unfolding ensure_writable_bytes make_space
ensure-MakesRoom b len v = elim (Bool-cases (ltb (length b.storage - b.writer_index) len)) [
  | inl e ↦ rw e (make_space-MakesRoom b len v (ground arith))
  | inr e ↦ rw e (record { valid = v; same = refl; room = ground (arith, v) })
]

pub append-IsValid : (b : Buffer) (d : Bytes) → IsValid b → IsValid (append b d)
unfolding append
append-IsValid b d v = let m = ensure-MakesRoom b (length d) v in write-IsValid _ d m.valid m.room

pub append-contents : (b : Buffer) (d : Bytes) → IsValid b → contents (append b d) ≡ contents b ++ d
unfolding append
append-contents b d v =
    let m = ensure-MakesRoom b (length d) v in write-contents _ d m.valid ∙ ap (λ t. t ++ d) m.same

pub retrieve-IsValid : (b : Buffer) (n : ℕ) → IsValid b → IsValid (retrieve b n)
unfolding retrieve
retrieve-IsValid b n v = ground arith

pub retrieve-contents :
    (b : Buffer) (n : ℕ) → IsValid b → contents (retrieve b n) ≡ drop n (contents b)
unfolding retrieve
retrieve-contents b n v = elim (Bool-cases (ltb n (b.writer_index - b.reader_index))) [
  | inl e ↦
      rw
        (
          e,
          drop-take n (b.writer_index - b.reader_index) (drop b.reader_index b.storage),
          drop-drop b.reader_index n b.storage,
        )
        (ap (λ k. take k (drop n (drop b.reader_index b.storage)))
          {x = b.writer_index - (b.reader_index + n)} {y = b.writer_index - b.reader_index - n}
          (omega arith))
  | inr e ↦ rw e (
      sym (
        drop_all n (contents b) (
          omega (
            arith,
            length-slice b.storage b.reader_index b.writer_index v.ordered v.within,
            le_of_ltb n (b.writer_index - b.reader_index) e,
          ))))
]

-- The calls of a client, and the queue of bytes that they are specified by.
pub data Call : Type 0 where
  appends : Bytes → Call
  retrieves : ℕ → Call
  retrieves_all : Call

pub step : Buffer → Call → Buffer
step b (appends d) = append b d
step b (retrieves n) = retrieve b n
step b retrieves_all = retrieve_all b

pub run : Buffer → List Call → Buffer
run b [] = b
run b (c ∷ cs) = run (step b c) cs

abbrev pub queue_step : Bytes → Call → Bytes
queue_step q (appends d) = q ++ d
queue_step q (retrieves n) = drop n q
queue_step q retrieves_all = []

abbrev pub queue_run : Bytes → List Call → Bytes
queue_run q [] = q
queue_run q (c ∷ cs) = queue_run (queue_step q c) cs

retrieve_all-IsValid : (b : Buffer) → IsValid b → IsValid (retrieve_all b)
unfolding retrieve_all
retrieve_all-IsValid b v = omega (arith, v)

retrieve_all-contents : (b : Buffer) → contents (retrieve_all b) ≡ []
unfolding retrieve_all
retrieve_all-contents b = refl

step-Refines :
    (b : Buffer) (c : Call)
    → IsValid b
    → IsValid (step b c) × (contents (step b c) ≡ queue_step (contents b) c)
unfolding step
step-Refines b (appends d) v = (append-IsValid b d v, append-contents b d v)
step-Refines b (retrieves n) v = (retrieve-IsValid b n v, retrieve-contents b n v)
step-Refines b retrieves_all v = (retrieve_all-IsValid b v, retrieve_all-contents b)

-- Whatever calls a client makes on a valid buffer, the indices stay in order and in range, and the
-- readable bytes are those of a queue of bytes under the same calls.
pub run-Refines :
    (b : Buffer) (cs : List Call)
    → IsValid b
    → IsValid (run b cs) × (contents (run b cs) ≡ queue_run (contents b) cs)
unfolding run
run-Refines b [] v = (v, refl)
run-Refines b (c ∷ cs) v =
    let (w, e) = step-Refines b c v in
    let (w', e') = run-Refines (step b c) cs w in (w', e' ∙ ap (λ q. queue_run q cs) e)

ensure_in_place :
    (b : Buffer) (len : ℕ)
    → IsValid b
    → readable_bytes b + len + cheap_prepend ≤ length b.storage
    → length (ensure_writable_bytes b len).storage ≡ length b.storage
unfolding ensure_writable_bytes make_space compact readable_bytes writable_bytes prependable_bytes
ensure_in_place b len v h =
    let m = length-slice b.storage b.reader_index b.writer_index v.ordered v.within in
    ground (arith, length-copy_to b.storage (contents b) cheap_prepend (omega (arith, m, v)))

-- A buffer whose free bytes, before and behind the readable ones, suffice does not grow.
append_in_place :
    (b : Buffer) (d : Bytes)
    → IsValid b
    → readable_bytes b + length d + cheap_prepend ≤ length b.storage
    → length (append b d).storage ≡ length b.storage
unfolding append write
append_in_place b d v h =
    let m = ensure-MakesRoom b (length d) v in
    length-copy_to _ d _ m.room ∙ ensure_in_place b (length d) v h

-- Reads the readable bytes as a string and removes them.
retrieve_as_string-contents :
    (b : Buffer) (n : ℕ)
    → IsValid b
    → n ≤ readable_bytes b
    → ((retrieve_as_string b n).0 ≡ take n (contents b))
      × (contents (retrieve_as_string b n).1 ≡ drop n (contents b))
unfolding retrieve_as_string readable_bytes peek
retrieve_as_string-contents b n v h = (
  sym (take-take_le n (b.writer_index - b.reader_index) (drop b.reader_index b.storage) h),
  retrieve-contents b n v,
)
