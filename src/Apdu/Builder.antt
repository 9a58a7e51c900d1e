-- ===== src/Apdu/Builder.antt =====
-- The response builder of src/apdu.c: what is sent, and that it stays inside the capacity.
use ward3n.Base.{
  ℕ, suc, ◌+◌, ◌^◌, ◌≤◌, ◌<◌, ◌≡◌, refl, sym, ◌∙◌, ap, true, List, [], ◌∷◌, ◌++◌, append-nil,
  append_assoc, length, take, drop, flatten, write_at, length-append, length-write_at,
  take-write_at, drop-write_at, take_all, arith,
}
use ward3n.Apdu.{u32, Resp, Answer, resp_init, resp_append, append_parts, emit, sent, sw_bytes}

-- The builder's state between two calls: room for the status word is kept inside the buffer.
pub record IsOpen (r : Resp) : Type 0 where
  pub room : r.len + 2 ≤ r.capacity
  pub inside : r.capacity ≤ length r.buf
  pub small : r.capacity < 2 ^ 31

-- The bytes appended so far.
abbrev pub body : Resp → List ℕ
body r = take r.len r.buf

pub resp_append-IsOpen :
    (r : Resp) (p : List ℕ) → IsOpen r → length p < 2 ^ 31 → IsOpen (resp_append r p (length p)).0
unfolding resp_append
resp_append-IsOpen r p v small = ground (arith, length-write_at r.buf r.len (take (length p) p))

resp_append-capacity :
    (r : Resp) (p : List ℕ) → (resp_append r p (length p)).0.capacity ≡ r.capacity
unfolding resp_append
resp_append-capacity r p = ground arith

-- Bytes that fit are copied behind those that are there.
resp_append-fits :
    (r : Resp) (x : ℕ) (p : List ℕ)
    → IsOpen r
    → r.len + suc (length p) + 2 ≤ r.capacity
    → resp_append r (x ∷ p) (suc (length p))
      ≡ (record r { buf = write_at r.buf r.len (x ∷ p); len = r.len + suc (length p) }, true)
unfolding resp_append
resp_append-fits r x p v fits = ground (arith, take_all (length p) p (omega arith))

-- Bytes that fit are appended, in order.
pub resp_append-body :
    (r : Resp) (p : List ℕ)
    → IsOpen r
    → r.len + length p + 2 ≤ r.capacity
    → (body (resp_append r p (length p)).0 ≡ body r ++ p)
      × ((resp_append r p (length p)).0.len ≡ r.len + length p)
unfolding resp_append
resp_append-body r [] v fits = (sym (append-nil _), omega arith)
resp_append-body r (x ∷ p) v fits =
    rw (resp_append-fits r x p v fits) (take-write_at r.buf r.len (x ∷ p) (omega arith), refl)

resp_append-kept :
    (r : Resp) (p : List ℕ)
    → IsOpen r
    → length p < 2 ^ 31
    → (drop r.capacity (resp_append r p (length p)).0.buf ≡ drop r.capacity r.buf)
      × (length (resp_append r p (length p)).0.buf ≡ length r.buf)
unfolding resp_append
resp_append-kept r p v small = ground (
  arith,
  length-write_at r.buf r.len (take (length p) p),
  drop-write_at r.buf r.len (take (length p) p) r.capacity,
  take_all (length p) p (omega arith),
)

append_parts-IsOpen :
    (r : Resp) (ps : List (List ℕ))
    → IsOpen r
    → length (flatten ps) < 2 ^ 31
    → IsOpen (append_parts r ps)
      × ((append_parts r ps).capacity ≡ r.capacity)
      × (drop r.capacity (append_parts r ps).buf ≡ drop r.capacity r.buf)
      × (length (append_parts r ps).buf ≡ length r.buf)
unfolding append_parts
append_parts-IsOpen r [] v small = (v, refl, refl, refl)
append_parts-IsOpen r (p ∷ ps) v small =
    let r' = (resp_append r p (length p)).0 in
    let joined = length-append p (flatten ps) in
    let v' = resp_append-IsOpen r p v (omega (arith, joined)) in
    let cap = resp_append-capacity r p in
    let kept = resp_append-kept r p v (omega (arith, joined)) in
    let ih = append_parts-IsOpen r' ps v' (omega (arith, joined)) in
    (ih.0, ih.1 ∙ cap, (rw cap at ih.2) ∙ kept.0, ih.3 ∙ kept.1)

append_parts-body :
    (r : Resp) (ps : List (List ℕ))
    → IsOpen r
    → r.len + length (flatten ps) + 2 ≤ r.capacity
    → (body (append_parts r ps) ≡ body r ++ flatten ps)
      × ((append_parts r ps).len ≡ r.len + length (flatten ps))
unfolding append_parts
append_parts-body r [] v fits = (sym (append-nil _), omega arith)
append_parts-body r (p ∷ ps) v fits =
    let r' = (resp_append r p (length p)).0 in
    let joined = length-append p (flatten ps) in
    let v' = resp_append-IsOpen r p v (omega (arith, joined)) in
    let cap = resp_append-capacity r p in
    let one = resp_append-body r p v (omega (arith, joined)) in
    let ih = append_parts-body r' ps v' (omega (arith, joined, cap, one.1)) in
    (ih.0 ∙ (rw one.0 (append_assoc (body r) p (flatten ps))), omega (arith, ih.1, one.1, joined))

resp_init-IsOpen :
    (out : List ℕ) (cap : ℕ)
    → 2 ≤ cap
    → cap ≤ length out
    → cap < 2 ^ 31
    → IsOpen (resp_init out cap)
unfolding resp_init
resp_init-IsOpen out cap h inside small = ground arith

-- In a buffer that has the stated capacity, below 2^31, a response whose body fits is sent whole: the appended bytes in order, then the two
-- bytes of the status word, and the returned count is their number.
pub emit-sent :
    (out : List ℕ) (cap : ℕ) (a : Answer)
    → length (flatten a.parts) + 2 ≤ cap
    → cap ≤ length out
    → cap < 2 ^ 31
    → (sent (emit out cap a) ≡ flatten a.parts ++ sw_bytes a.sw)
      × ((emit out cap a).size ≡ length (flatten a.parts) + 2)
unfolding emit
emit-sent out cap a fits inside small =
    let r = resp_init out cap in
    let v = resp_init-IsOpen out cap (omega arith) inside small in
    let end = append_parts r a.parts in
    let open_end = append_parts-IsOpen r a.parts v (omega arith) in
    let (bytes, len) = append_parts-body r a.parts v (omega arith) in
    let size : u32 (end.len + 2) ≡ end.len + 2 = omega (arith, open_end.0) in
    (
      rw size (take-write_at end.buf end.len (sw_bytes a.sw) (omega (arith, open_end.0)))
          ∙ ap (λ t. t ++ sw_bytes a.sw) bytes,
      size ∙ omega (arith, len),
    )

-- Whatever a handler appends, below 2^31 bytes, in a buffer that has the stated capacity, from 2 to
-- 2^31: the builder writes only inside the capacity, keeps the buffer's
-- length, and returns a count between 2 and the capacity.
pub emit-inside :
    (out : List ℕ) (cap : ℕ) (a : Answer)
    → 2 ≤ cap
    → cap ≤ length out
    → cap < 2 ^ 31
    → length (flatten a.parts) < 2 ^ 31
    → (drop cap (emit out cap a).buf ≡ drop cap out)
      × (length (emit out cap a).buf ≡ length out)
      × (2 ≤ (emit out cap a).size)
      × ((emit out cap a).size ≤ cap)
unfolding emit
emit-inside out cap a two inside small parts =
    let r = resp_init out cap in
    let v = resp_init-IsOpen out cap two inside small in
    let end = append_parts r a.parts in
    let (v', c, kept, len) = append_parts-IsOpen r a.parts v parts in
    (
      drop-write_at end.buf end.len (sw_bytes a.sw) cap (omega (arith, v', c)) ∙ kept,
      length-write_at end.buf end.len (sw_bytes a.sw) ∙ len,
      omega (arith, v', c),
      omega (arith, v', c),
    )
