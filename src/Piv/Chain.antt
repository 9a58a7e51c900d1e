-- ===== src/Piv/Chain.antt =====
-- ISO 7816 chaining in src/piv.c: GET DATA and GET RESPONSE hand an object over in pieces.
use ward3n.Base.{
  ℕ, ◌+◌, ◌-◌, ◌≤◌, ◌<◌, min, ◌≡◌, refl, sym, ◌∙◌, ap, List, [], ◌∷◌, append-nil, length, take,
  drop, flatten, length-take, length-drop, take_all, drop_all, drop-take, drop-drop, take-take,
  arith, leb, if◌then◌else◌, Bool-cases, inl, inr,
}
use ward3n.Apdu.{Cmd, Answer, status}
use ward3n.Apdu.Status.{sw_ok, sw_conditions_not_satisfied, sw_more_data_lem}
use ward3n.Piv.Applet.{Piv, wanted, more_status, send_now, handle_get_response}

-- What holds of `_piv` between two commands.
pub record IsValid (p : Piv) : Type 0 where
  pub buffer : length p.chain_buf ≡ 4096
  pub inside : p.chain_len ≤ 4096
  pub sent : p.chain_offset ≤ p.chain_len

-- The bytes that are still to be sent.
abbrev pub pending : Piv → List ℕ
pending p = drop p.chain_offset (take p.chain_len p.chain_buf)

pub length-pending : (p : Piv) → IsValid p → length (pending p) ≡ p.chain_len - p.chain_offset
length-pending p v = omega (
  arith,
  length-drop p.chain_offset (take p.chain_len p.chain_buf),
  length-take p.chain_len p.chain_buf,
)

send_now-min :
    (cmd : Cmd) (p : Piv) → send_now cmd p ≡ min (wanted cmd) (p.chain_len - p.chain_offset)
unfolding send_now
send_now-min cmd p = ground arith

-- The status word that tells how much is left: 9000 for nothing, else 61xx with at most 255.
abbrev pub left_status : ℕ → ℕ
left_status left = if leb left 0 then sw_ok else 0x6100 + min left 255

pub more_status_lem : (n : ℕ) → more_status n ≡ 0x6100 + min n 255
more_status_lem n = ground (arith, sw_more_data_lem 255, sw_more_data_lem n)

-- The state after `send_now` bytes more.
abbrev advanced : Cmd → Piv → Piv
advanced cmd p = record p { chain_offset = p.chain_offset + send_now cmd p }

get_response-pending :
    (cmd : Cmd) (p : Piv)
    → IsValid p
    → p.chain_offset < p.chain_len
    → handle_get_response cmd p ≡ (
      advanced cmd p,
      record {
        parts = take (send_now cmd p) (drop p.chain_offset p.chain_buf) ∷ [];
        sw = left_status (p.chain_len - (p.chain_offset + send_now cmd p));
      },
    )
unfolding handle_get_response
get_response-pending cmd p v h =
    let left : ℕ = p.chain_len - (p.chain_offset + send_now cmd p) in
    ground (arith, send_now-min cmd p, more_status_lem left)

advanced-IsValid : (cmd : Cmd) (p : Piv) → IsValid p → IsValid (advanced cmd p)
advanced-IsValid cmd p v = ground (arith, send_now-min cmd p)

-- The part that is sent is the front of what is pending, and what is pending then is the rest.
advanced-pending :
    (cmd : Cmd) (p : Piv)
    → IsValid p
    → (take (send_now cmd p) (drop p.chain_offset p.chain_buf) ≡ take (send_now cmd p) (pending p))
      × (pending (advanced cmd p) ≡ drop (send_now cmd p) (pending p))
advanced-pending cmd p v =
    let rest : ℕ = p.chain_len - p.chain_offset in
    (
      rw drop-take (
          sym (
            take-take (send_now cmd p) rest (drop p.chain_offset p.chain_buf)
              (omega (arith, send_now-min cmd p)))),
      sym (drop-drop (send_now cmd p) p.chain_offset (take p.chain_len p.chain_buf)),
    )

get_response-refused :
    (cmd : Cmd) (p : Piv)
    → p.chain_len ≤ p.chain_offset
    → handle_get_response cmd p ≡ (p, status sw_conditions_not_satisfied)
unfolding handle_get_response
get_response-refused cmd p h = ground arith

-- What GET RESPONSE does to a valid state: `p'` and `a` are the state and the answer.
pub record Responds (cmd : Cmd) (p p' : Piv) (a : Answer) : Type 0 where
  pub bytes : flatten a.parts ≡ take (wanted cmd) (pending p)
  pub rest : pending p' ≡ drop (wanted cmd) (pending p)
  pub told : a.sw ≡ left_status (length (pending p'))
  pub valid : IsValid p'

take-min : (xs : List ℕ) (n m : ℕ) → m ≡ min n (length xs) → take m xs ≡ take n xs
take-min xs n m e = elim (Bool-cases (leb n (length xs))) [
  | inl le ↦ let same : m ≡ n = ground arith in rw same refl
  | inr gt ↦ take_all m xs (ground arith) ∙ sym (take_all n xs (ground arith))
]

drop-min : (xs : List ℕ) (n m : ℕ) → m ≡ min n (length xs) → drop m xs ≡ drop n xs
drop-min xs n m e = elim (Bool-cases (leb n (length xs))) [
  | inl le ↦ let same : m ≡ n = ground arith in rw same refl
  | inr gt ↦ drop_all m xs (ground arith) ∙ sym (drop_all n xs (ground arith))
]

-- GET RESPONSE in a valid state. With nothing pending it is refused by 6985 and changes nothing.
-- Otherwise it sends the next Le bytes that are pending, or all where they are fewer, keeps the
-- others pending, and its status word tells how many are left.
pub get_response_lem :
    (cmd : Cmd) (p : Piv)
    → IsValid p
    → let (p', a) = handle_get_response cmd p in
      (length (pending p) ≡ 0 → (p' ≡ p) × (a ≡ status sw_conditions_not_satisfied))
      × (1 ≤ length (pending p) → Responds cmd p p' a)
get_response_lem cmd p v =
    let len = length-pending p v in
    let n = send_now-min cmd p in
    (
      λ e. (
        ap (λ t. t.0) (get_response-refused cmd p (omega (arith, len))),
        ap (λ t. t.1) (get_response-refused cmd p (omega (arith, len))),
      ),
      λ h. rw (get_response-pending cmd p v (omega (arith, len))) (record {
        bytes =
            append-nil _
            ∙ (advanced-pending cmd p v).0
            ∙ take-min (pending p) (wanted cmd) (send_now cmd p) (omega (arith, n, len));
        rest =
            (advanced-pending cmd p v).1
            ∙ drop-min (pending p) (wanted cmd) (send_now cmd p) (omega (arith, n, len));
        told = ap left_status (sym (length-pending (advanced cmd p) (advanced-IsValid cmd p v)));
        valid = advanced-IsValid cmd p v;
      }),
    )
