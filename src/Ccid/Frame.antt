-- ===== src/Ccid/Frame.antt =====
-- The frame of the responses that src/ccid.c builds itself: header and length.
use ward3n.Base.{
  ℕ, ◌+◌, ◌≤◌, ◌≡◌, refl, ◌∙◌, ap, Bool, ◌&&◌, List, ◌++◌, length, get_or, take, drop, write_at,
  length-drop, length-write_at, write_at_lem, IsBytes, arith, ltb, leb, ◌==◌, Bool-cases, inl, inr,
  if◌then◌else◌,
}
use ward3n.Apdu.{u32}
use ward3n.Ccid.{Reader}
use ward3n.Ccid.Responses.{
  Response, make_slot_status, make_data_block, set_parameters, set_data_rate, b_status,
}
use ward3n.Ccid.Header.{data_block, slot_status, parameters, ccid_header, u32_le, read_u32}

-- A transmit buffer of 512 bytes that begins with a header for `seq`, whose dwLength is the number of
-- the response's bytes behind the header; the response lies inside the buffer.
pub record Framed (seq : ℕ) (r : Response) : Type 0 where
  pub kind : ℕ
  pub len : ℕ
  pub specific_0 : ℕ
  pub specific_1 : ℕ
  pub specific_2 : ℕ
  pub rest : List ℕ
  pub frame : r.0 ≡ ccid_header kind len seq specific_0 specific_1 specific_2 ++ rest
  pub room : length rest ≡ 502
  pub len_lem : r.1 ≡ 10 + len
  pub fits : len ≤ 502

-- A header written over the front of the buffer.
write_header :
    (tx : List ℕ) (kind len seq s0 s1 s2 : ℕ)
    → length tx ≡ 512
    → write_at tx 0 (ccid_header kind len seq s0 s1 s2)
      ≡ ccid_header kind len seq s0 s1 s2 ++ drop 10 tx
write_header tx kind len seq s0 s1 s2 h =
    write_at_lem tx 0 (ccid_header kind len seq s0 s1 s2) (omega arith)

-- A body written behind a header.
write_body :
    (kind len seq s0 s1 s2 : ℕ) (rest body : List ℕ)
    → write_at (ccid_header kind len seq s0 s1 s2 ++ rest) 10 body
      ≡ ccid_header kind len seq s0 s1 s2 ++ write_at rest 0 body
unfolding write_at
write_body kind len seq s0 s1 s2 rest body = refl

module _ (tx : List ℕ) (kind len seq s0 s1 s2 : ℕ) (h : length tx ≡ 512) (small : len ≤ 502) where
  -- A response that is only a header, or whose body is what the buffer holds already.
  pub header_only : Framed seq (write_at tx 0 (ccid_header kind len seq s0 s1 s2), 10 + len)
  header_only = record {
    kind = kind;
    len = len;
    specific_0 = s0;
    specific_1 = s1;
    specific_2 = s2;
    rest = drop 10 tx;
    frame = write_header tx kind len seq s0 s1 s2 h;
    room = omega (arith, length-drop 10 tx);
    len_lem = refl;
    fits = small;
  }

  pub header_and_body :
      (body : List ℕ)
      → Framed seq (write_at (write_at tx 0 (ccid_header kind len seq s0 s1 s2)) 10 body, 10 + len)
  header_and_body body = record {
    kind = kind;
    len = len;
    specific_0 = s0;
    specific_1 = s1;
    specific_2 = s2;
    rest = write_at (drop 10 tx) 0 body;
    frame =
        ap (λ t. write_at t 10 body) (write_header tx kind len seq s0 s1 s2 h)
        ∙ write_body kind len seq s0 s1 s2 (drop 10 tx) body;
    room = length-write_at (drop 10 tx) 0 body ∙ omega (arith, length-drop 10 tx);
    len_lem = refl;
    fits = small;
  }

pub slot_status-Framed :
    (powered : Bool) (tx : List ℕ) (seq cmd error clock : ℕ)
    → length tx ≡ 512
    → Framed seq (make_slot_status powered tx seq cmd error clock)
unfolding make_slot_status
slot_status-Framed powered tx seq cmd error clock h =
    header_only tx slot_status 0 seq (b_status cmd powered) error clock h (omega arith)

pub data_block-Framed :
    (powered : Bool) (tx : List ℕ) (seq cmd error : ℕ) (body : List ℕ)
    → length tx ≡ 512
    → length body ≤ 502
    → Framed seq (make_data_block powered tx seq cmd error body)
unfolding make_data_block
data_block-Framed powered tx seq cmd error body h small = elim (Bool-cases (length body == 0)) [
  | inl empty ↦
      rw empty (header_only tx data_block (length body) seq (b_status cmd powered) error 0 h small)
  | inr full ↦
      rw full (
        header_and_body tx data_block (length body) seq (b_status cmd powered) error 0 h small body)
]

pub set_parameters-Framed :
    (tx msg : List ℕ) (n : ℕ) → length tx ≡ 512 → Framed (get_or msg 6 0) (set_parameters tx msg n)
unfolding set_parameters
set_parameters-Framed tx msg n h =
    let asked : ℕ = read_u32 msg 1 in
    let plen : ℕ = if ltb 502 asked then 0 else asked in
    let small : plen ≤ 502 = ground arith in
    elim (Bool-cases (ltb 0 plen && leb (u32 (10 + plen)) n)) [
      | inl copied ↦ rw copied (
          header_and_body tx parameters plen (get_or msg 6 0) 0 0 (get_or msg 9 0) h small
            (take plen (drop 10 msg)))
      | inr kept ↦
          rw kept (header_only tx parameters plen (get_or msg 6 0) 0 0 (get_or msg 9 0) h small)
    ]

-- A write behind the first bytes of the body keeps the frame.
write_again :
    (seq : ℕ) (r : Response) (more : List ℕ) → Framed seq r → Framed seq (write_at r.0 14 more, r.1)
unfolding write_at
write_again seq r more f = record {
  kind = f.kind;
  len = f.len;
  specific_0 = f.specific_0;
  specific_1 = f.specific_1;
  specific_2 = f.specific_2;
  rest = write_at f.rest 4 more;
  frame = ap (λ t. write_at t 14 more) f.frame;
  room = length-write_at f.rest 4 more ∙ f.room;
  len_lem = f.len_lem;
  fits = f.fits;
}

pub set_data_rate-Framed :
    (tx msg : List ℕ) (n : ℕ) → length tx ≡ 512 → Framed (get_or msg 6 0) (set_data_rate tx msg n)
unfolding set_data_rate
set_data_rate-Framed tx msg n h =
    let seq : ℕ = get_or msg 6 0 in
    elim (Bool-cases (leb 8 (read_u32 msg 1) && leb (10 + 8) n)) [
      | inl echoed ↦
          rw echoed (header_and_body tx 0x84 8 seq 0 0 0 h (omega arith) (take 8 (drop 10 msg)))
      | inr default ↦ rw default (
          write_again seq
            (write_at (write_at tx 0 (ccid_header 0x84 8 seq 0 0 0)) 10 (u32_le 0xDFC), 18)
            (u32_le 0x25CD) (header_and_body tx 0x84 8 seq 0 0 0 h (omega arith) (u32_le 0xDFC)))
    ]

-- What holds of a reader between two messages: bytes in the receive buffer, and 512 bytes of transmit
-- buffer.
pub record IsReader {Keys : Type 0} (r : Reader Keys) : Type 0 where
  pub received : IsBytes r.ccid.rx_buf
  pub transmit : length r.ccid.tx_buf ≡ 512

pub length-Framed : (seq : ℕ) (r : Response) → Framed seq r → length r.0 ≡ 512
length-Framed seq r f = ap length f.frame ∙ omega (arith, f.room)
