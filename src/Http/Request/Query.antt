-- ===== src/Http/Request/Query.antt =====
-- `setQueryParameters` of my_nginx_event/src/http/my_http_request.cpp reads back what a client writes.
use mynginx_evnet_module.Base.{
  ℕ, zero, suc, ◌≤◌, ◌≡◌, List, [], ◌∷◌, ◌++◌, arith, length, length-append, take_before, drop_past,
}
use mynginx_evnet_module.Base.Bytes.{Bytes, Lacks, find_byte-append, find_byte-Lacks}
use mynginx_evnet_module.Base.Dict.{insert}
use mynginx_evnet_module.Http.Request.{HttpRequest, set_pair, query_loop, set_query_parameters}

-- `key=value`
abbrev pub pair_text : Bytes × Bytes → Bytes
pair_text p = p.0 ++ b'=' ∷ p.1

-- The pieces of a query, with `&` between them.
abbrev pub query_text : Bytes × Bytes → List (Bytes × Bytes) → Bytes
query_text p [] = pair_text p
query_text p (q ∷ qs) = pair_text p ++ b'&' ∷ query_text q qs

-- A key has no `=` or `&`, a value no `&`.
abbrev pub IsPair : Bytes × Bytes → Type 0
IsPair p = Lacks b'=' p.0 × Lacks b'&' (pair_text p)

abbrev pub ArePairs : List (Bytes × Bytes) → Type 0
ArePairs [] = Unit {0}
ArePairs (p ∷ ps) = IsPair p × ArePairs ps

abbrev pub insert_all : List (Bytes × Bytes) → List (Bytes × Bytes) → List (Bytes × Bytes)
insert_all [] m = m
insert_all ((k, v) ∷ ps) m = insert_all ps (insert k v m)

set_pair-pair_text :
    (p : Bytes × Bytes) (m : List (Bytes × Bytes))
    → Lacks b'=' p.0
    → set_pair (pair_text p) m ≡ insert p.0 p.1 m
unfolding set_pair
set_pair-pair_text (k, v) m h =
    rw (find_byte-append b'=' k v h, set_pair, take_before k (b'=' ∷ v), drop_past k v b'=')

query_loop-query_text :
    (fuel : ℕ) (p : Bytes × Bytes) (qs m : List (Bytes × Bytes))
    → length (query_text p qs) ≤ fuel
    → IsPair p
    → ArePairs qs
    → query_loop fuel (query_text p qs) m ≡ insert_all (p ∷ qs) m
unfolding query_loop
query_loop-query_text zero p [] m le h hs = set_pair-pair_text p m h.0
query_loop-query_text (suc fuel) p [] m le h hs =
    rw (find_byte-Lacks b'&' (pair_text p) h.1, query_loop) (set_pair-pair_text p m h.0)
query_loop-query_text zero p (q ∷ qs) m le h hs =
    absurd (omega (arith, length-append (pair_text p) (b'&' ∷ query_text q qs)))
query_loop-query_text (suc fuel) p (q ∷ qs) m le h hs =
    rw
      (
        find_byte-append b'&' (pair_text p) (query_text q qs) h.1,
        query_loop,
        take_before (pair_text p) (b'&' ∷ query_text q qs),
        drop_past (pair_text p) (query_text q qs) b'&',
        set_pair-pair_text p m h.0,
      )
      (query_loop-query_text fuel q qs (insert p.0 p.1 m)
        (omega (arith, length-append (pair_text p) (b'&' ∷ query_text q qs))) hs.0 hs.1)

-- A query of `key=value` pieces joined by `&`, whose keys hold no `=` and no `&` and whose values
-- hold no `&`, is read as exactly those pairs, stored in order over the parameters that were there;
-- no other field of the request changes.
pub set_query_parameters-query_text :
    (r : HttpRequest) (p : Bytes × Bytes) (qs : List (Bytes × Bytes))
    → IsPair p
    → ArePairs qs
    → set_query_parameters r (query_text p qs)
      ≡ record r { query_parameters = insert_all (p ∷ qs) r.query_parameters }
unfolding set_query_parameters
set_query_parameters-query_text r p qs h hs =
    rw (query_loop-query_text (length (query_text p qs)) p qs r.query_parameters (omega arith) h hs)
