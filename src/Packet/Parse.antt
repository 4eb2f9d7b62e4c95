-- ===== src/Packet/Parse.antt =====
-- `ReUse` and the constructor: every outcome of parsing a buffer.
use septem_cpp.Common.{
  ℕ, ◌+◌, ◌-◌, ◌≤◌, ◌<◌, ◌≡◌, ◌⊎◌, inl, inr, refl, sym, ap, ◌∙◌, List, ◌++◌, false, ◌==◌, length,
  Access, done, ◌>>=◌, IsBytes, arith,
}
use septem_cpp.Buffer.Syncword.{buffer_buffer_syncword-IsFirst, SyncwordAt}
use septem_cpp.Wire.Head
use septem_cpp.Wire.Head.{Head as HeadStruct}
use septem_cpp.Wire.Xor.{xor_loop}
use septem_cpp.Wire.Slice.{slice, length-slice, slice-append, head-mem_read}
use septem_cpp.Packet.{Packet, read_head, read_packet, reuse, create, reuse_head}
use septem_cpp.Packet.Write.{image}
use septem_cpp.Packet.Rest.{rest_of, IsRejected, IsRest, RestOutcome, read_rest_outcome}

-- `q` was parsed out of the bytes from `start` to `n`, where the syncword first stands at `start`.
pub record IsParsed (data_ptr : List ℕ) (size syncword start : ℕ) (q : Packet) (n : ℕ)
    : Type 0 where
  pub fits : n ≤ size
  pub found : SyncwordAt data_ptr syncword start
  pub first : (j : ℕ) → j < start → ¬ SyncwordAt data_ptr syncword j
  pub ends : start + length (image q) ≡ n
  pub bytes : image q ≡ slice data_ptr start (length (image q))
  pub flag : q.fast_integrity ≡ (xor_loop 0 (image q) == 0)
  pub session : q.sid ≡ Head.session_id q.head

module _ (data_ptr : List ℕ) (h : IsBytes data_ptr) (size : ℕ) (held : size ≤ length data_ptr) where
  abbrev pub PacketOutcome : ℕ → Access (Packet × ℕ) → Type 0
  PacketOutcome syncword result =
      (q : Packet) × (n : ℕ) × (result ≡ done (q, n))
      × (IsRejected size q n ⊎ ((start : ℕ) × IsParsed data_ptr size syncword start q n))

  IsRest-IsParsed :
      {syncword start n : ℕ} {head : HeadStruct} {q : Packet}
      → SyncwordAt data_ptr syncword start
      → ((j : ℕ) → j < start → ¬ SyncwordAt data_ptr syncword j)
      → Head.to_bytes head ≡ slice data_ptr start 16
      → IsRest data_ptr size (start + 16) head q n
      → IsParsed data_ptr size syncword start q n
  IsRest-IsParsed {syncword} {start} {n} {head} {q} found first img v =
      let rest_len = length (rest_of q) in
      let whole : image q ≡ slice data_ptr start (16 + rest_len) =
        ap (λ d. Head.to_bytes d ++ rest_of q) v.same_head
        ∙ (λ i. img i ++ v.bytes i)
        ∙ slice-append data_ptr start 16 rest_len in
      let a = v.fits in
      let b = v.ends in
      let len : length (image q) ≡ 16 + rest_len =
        ap length whole ∙ length-slice data_ptr start (16 + rest_len) (omega arith) in
      record {
        fits = v.fits;
        found = found;
        first = first;
        ends = omega arith;
        bytes = whole ∙ ap (slice data_ptr start) (sym len);
        flag = v.flag;
        session = v.session;
      }

  read_head_outcome :
      (p : Packet) (syncword start : ℕ)
      → start ≤ size
      → p.fast_integrity ≡ false
      → SyncwordAt data_ptr syncword start
      → ((j : ℕ) → j < start → ¬ SyncwordAt data_ptr syncword j)
      → PacketOutcome syncword (read_head data_ptr size p start)
  unfolding read_head
  read_head_outcome p syncword start room unset found first =
      elim (head-mem_read data_ptr h start (size - start) (omega arith) p.head) [
        | inl short ↦ (p, size, rw (short, ◌>>=◌), inl (refl, unset))
        | inr (fits, head, reads, img) ↦
            rw (reads, ◌>>=◌)
              (finish head img (
                read_rest_outcome data_ptr h size held (record p { head = head }) (start + 16)
                  (omega arith) unset))
      ]
    where
      finish :
          (head : HeadStruct)
          → Head.to_bytes head ≡ slice data_ptr start 16
          → {result : Access (Packet × ℕ)}
          → RestOutcome data_ptr h size held (start + 16) head result
          → PacketOutcome syncword result
      finish head img (q, n, e, inl rejected) = (q, n, e, inl rejected)
      finish head img (q, n, e, inr rest) =
          (q, n, e, inr (start, IsRest-IsParsed found first img rest))

  read_packet_outcome :
      (p : Packet)
      → p.fast_integrity ≡ false
      → PacketOutcome p.head.syncword (read_packet data_ptr size p)
  unfolding read_packet
  read_packet_outcome p unset =
      let (r, search, where_found) =
        buffer_buffer_syncword-IsFirst data_ptr size p.head.syncword held in
      rw (search, ◌>>=◌)
        (elim where_found [
          | inr (neg, nowhere) ↦ rw neg (p, size, refl, inl (refl, unset))
          | inl (i, at, lo, hi, hit, first) ↦ rw at (
              read_head_outcome p p.head.syncword i (omega arith) unset hit
                (λ j lt. first j (omega arith) lt))
        ])

  -- On a buffer of bytes that holds its size, `ReUse` returns, whatever packet is used again, and
  -- reads nothing out of range. Either it rejects: `BytesRead` is the whole size and the packet is
  -- not valid. Or it parsed a packet, from the first place of the syncword: the packet's image is
  -- the bytes from there to `BytesRead`, which is within the size, the packet is valid exactly when
  -- the exclusive or of these bytes is 0, and its session id is the head's.
  pub reuse_outcome :
      (p : Packet) (syncword : ℕ) → PacketOutcome syncword (reuse data_ptr size p syncword)
  unfolding reuse
  reuse_outcome p syncword = read_packet_outcome _ refl

  -- The constructor has the same outcomes.
  create_outcome : (syncword : ℕ) → PacketOutcome syncword (create data_ptr size syncword)
  unfolding create
  create_outcome syncword = read_packet_outcome _ refl

  -- `ReUse` behind a given head has the same two outcomes: it rejects, or the body and the foot are
  -- the first bytes of the buffer, and the packet is valid exactly when the exclusive or of the
  -- head's image and of these is 0.
  pub reuse_head_outcome :
      (p : Packet) (head : HeadStruct)
      → RestOutcome data_ptr h size held 0 head (reuse_head data_ptr size p head)
  unfolding reuse_head
  reuse_head_outcome p head = read_rest_outcome data_ptr h size held _ 0 (omega arith) refl
