-- ===== src/Packet/Calls.antt =====
-- Sequences of calls on a packet.
use septem_cpp.Common.{
  ℕ, ◌^◌, ◌≤◌, ◌<◌, ◌≡◌, refl, List, [], ◌∷◌, length, Access, done, ◌>>=◌, IsBytes, bit_xor,
  bit_xor-lt, arith,
}
use septem_cpp.Wire.Head
use septem_cpp.Wire.Head.{Head as HeadStruct}
use septem_cpp.Wire.Body
use septem_cpp.Wire.Foot
use septem_cpp.Wire.Foot.{Timespec}
use septem_cpp.Wire.Xor.{xor_loop, xor_loop-lt}
use septem_cpp.Wire.Image.{IsHead, head-IsBytes, foot-IsBytes}
use septem_cpp.Wire.Ranges.{set_now-IsFoot}
use septem_cpp.Packet.{
  Packet, reuse, reuse_head, on_seal, on_stamp_seal, check_integrity, reuse_as_heartbeat,
  on_dealloc, on_alloc,
}
use septem_cpp.Packet.Write.{image}
use septem_cpp.Packet.Seal.{IsSealable, on_seal-eq, check_integrity_iff, image-IsBytes}
use septem_cpp.Packet.Typing.{IsTyped, reuse-Reads, reuse_head-Reads}

pub data PacketCall : Type 0 where
  call_reuse : List ℕ → ℕ → ℕ → PacketCall
  call_reuse_head : List ℕ → ℕ → HeadStruct → PacketCall
  call_on_seal : PacketCall
  call_on_stamp_seal : Timespec → PacketCall
  call_check_integrity : PacketCall
  call_reuse_as_heartbeat : ℕ → Timespec → PacketCall
  call_on_dealloc : PacketCall
  call_on_alloc : PacketCall

-- A buffer is of bytes and holds its `int32` size, and a syncword has 32 bits.
abbrev pub IsArgument : PacketCall → Type 0
IsArgument (call_reuse data_ptr size syncword) =
    IsBytes data_ptr × (size ≤ length data_ptr) × (size < 2 ^ 31) × (syncword < 2 ^ 32)
IsArgument (call_reuse_head data_ptr size head) =
    IsBytes data_ptr × (size ≤ length data_ptr) × (size < 2 ^ 31) × IsHead head
IsArgument (call_reuse_as_heartbeat syncword now) = syncword < 2 ^ 32
IsArgument _ = Unit {0}

abbrev pub AllArguments : List PacketCall → Type 0
AllArguments [] = Unit {0}
AllArguments (c ∷ cs) = IsArgument c × AllArguments cs

abbrev pub call : PacketCall → Packet → Access Packet
call (call_reuse data_ptr size syncword) p = reuse data_ptr size p syncword >>= λ r. done (r.0)
call (call_reuse_head data_ptr size head) p = reuse_head data_ptr size p head >>= λ r. done (r.0)
call call_on_seal p = on_seal p
call (call_on_stamp_seal now) p = on_stamp_seal p now
call call_check_integrity p = check_integrity p >>= λ r. done (r.0)
call (call_reuse_as_heartbeat syncword now) p = done (reuse_as_heartbeat p syncword now)
call call_on_dealloc p = done (on_dealloc p)
call call_on_alloc p = done (on_alloc p)

unfoldable pub call_all : List PacketCall → Packet → Access Packet
call_all [] p = done p
call_all (c ∷ cs) p = call c p >>= λ q. call_all cs q

IsTyped-IsSealable : (p : Packet) → IsTyped p → IsSealable p
IsTyped-IsSealable p v = record {
  body_fits = v.body_owned;
  body_bytes = v.body_bytes;
  fastcode_fits = v.head_typed.fastcode_fits;
}

-- A head with another fastcode of eight bits.
with_code : (d : HeadStruct) (c : ℕ) → c < 256 → IsHead d → IsHead (record d { fastcode = c })
with_code d c h v = record {
  syncword_fits = v.syncword_fits;
  version_fits = v.version_fits;
  fastcode_fits = h;
  uid_fits = v.uid_fits;
  size_fits = v.size_fits;
  reserved_fits = v.reserved_fits;
}

reset-IsHead :
    (d : HeadStruct) (syncword : ℕ)
    → syncword < 2 ^ 32
    → IsHead (record (Head.reset d) { syncword = syncword })
unfolding Head.reset
reset-IsHead d syncword h = record {
  syncword_fits = h;
  version_fits = omega arith;
  fastcode_fits = omega arith;
  uid_fits = omega arith;
  size_fits = omega arith;
  reserved_fits = omega arith;
}

xors-lt : (d : HeadStruct) (f : Foot.Foot) → bit_xor (Head.xor d) (Foot.xor f) < 256
unfolding Head.xor Foot.xor
xors-lt d f =
    bit_xor-lt 8 (xor_loop 0 (Head.to_bytes d)) (xor_loop 0 (Foot.to_bytes f))
      (xor_loop-lt (Head.to_bytes d) (head-IsBytes d))
      (xor_loop-lt (Foot.to_bytes f) (foot-IsBytes f))

abbrev IsTypedCall : Access Packet → Type 0
IsTypedCall m = (q : Packet) × (m ≡ done q) × IsTyped q

on_seal-IsTypedCall : (p : Packet) → IsTyped p → IsTypedCall (on_seal p)
on_seal-IsTypedCall p v =
    let s = IsTyped-IsSealable p v in
    let code = xor_loop-lt (image p) (image-IsBytes p v.body_bytes) in
    (
      _,
      (on_seal-eq p s).0,
      record {
        head_typed = with_code p.head (xor_loop 0 (image p)) code v.head_typed;
        foot_typed = v.foot_typed;
        body_owned = v.body_owned;
        body_bytes = v.body_bytes;
        body_small = v.body_small;
        sid_small = v.sid_small;
      },
    )

call-IsTypedCall : (c : PacketCall) (p : Packet) → IsArgument c → IsTyped p → IsTypedCall (call c p)
call-IsTypedCall (call_reuse data_ptr size syncword) p (h, held, small, word) v =
    let (q, n, e, w) = reuse-Reads data_ptr h size held small p syncword word v in
    (q, rw (e, ◌>>=◌) refl, w)
call-IsTypedCall (call_reuse_head data_ptr size head) p (h, held, small, d) v =
    let (q, n, e, w) = reuse_head-Reads data_ptr h size held small p head d v in
    (q, rw (e, ◌>>=◌) refl, w)
call-IsTypedCall call_on_seal p a v = on_seal-IsTypedCall p v
call-IsTypedCall (call_on_stamp_seal now) p a v =
    unfold on_stamp_seal in
    on_seal-IsTypedCall (record p { foot = Foot.set_now p.foot now })
      (record {
        head_typed = v.head_typed;
        foot_typed = set_now-IsFoot p.foot now;
        body_owned = v.body_owned;
        body_bytes = v.body_bytes;
        body_small = v.body_small;
        sid_small = v.sid_small;
      })
call-IsTypedCall call_check_integrity p a v =
    let (ok, e, i) = check_integrity_iff p (IsTyped-IsSealable p v) in
    (
      record p { fast_integrity = ok },
      rw (e, ◌>>=◌) refl,
      record {
        head_typed = v.head_typed;
        foot_typed = v.foot_typed;
        body_owned = v.body_owned;
        body_bytes = v.body_bytes;
        body_small = v.body_small;
        sid_small = v.sid_small;
      },
    )
call-IsTypedCall (call_reuse_as_heartbeat syncword now) p a v = (
  reuse_as_heartbeat p syncword now,
  refl,
  unfold reuse_as_heartbeat Body.reset in
      let foot = Foot.set_now p.foot now in
      let head : HeadStruct = record (Head.reset p.head) { syncword = syncword } in
      record {
        head_typed =
            with_code head (bit_xor (Head.xor head) (Foot.xor foot)) (xors-lt head foot)
              (reset-IsHead p.head syncword a);
        foot_typed = set_now-IsFoot p.foot now;
        body_owned = refl;
        body_bytes = tt;
        body_small = omega arith;
        sid_small = v.sid_small;
      },
)
call-IsTypedCall call_on_dealloc p a v = (
  on_dealloc p,
  refl,
  unfold on_dealloc Body.reset in
      let d = v.head_typed in
      record {
        head_typed = record {
          syncword_fits = d.syncword_fits;
          version_fits = d.version_fits;
          fastcode_fits = d.fastcode_fits;
          uid_fits = d.uid_fits;
          size_fits = omega arith;
          reserved_fits = d.reserved_fits;
        };
        foot_typed = v.foot_typed;
        body_owned = refl;
        body_bytes = tt;
        body_small = omega arith;
        sid_small = omega arith;
      },
)
call-IsTypedCall call_on_alloc p a v = (
  on_alloc p,
  refl,
  unfold on_alloc Head.reset Foot.reset in
      record {
        head_typed = reset-IsHead p.head (p.head.syncword) v.head_typed.syncword_fits;
        foot_typed = omega arith;
        body_owned = v.body_owned;
        body_bytes = v.body_bytes;
        body_small = v.body_small;
        sid_small = v.sid_small;
      },
)

-- For a packet whose fields are in the ranges of their C++ types, with a body of as many bytes
-- as its length says and a session id of 22 bits, any sequence of ReUse (both), OnSeal,
-- OnStampSeal, CheckIntegrity, ReUseAsHeartbeat, OnDealloc and OnAlloc, with buffers of bytes
-- that hold their sizes and arguments in range, returns without a fault such a packet.
pub call_all-IsTypedCall :
    (cs : List PacketCall) (p : Packet)
    → AllArguments cs
    → IsTyped p
    → (q : Packet) × (call_all cs p ≡ done q) × IsTyped q
unfolding call_all
call_all-IsTypedCall [] p hs v = (p, refl, v)
call_all-IsTypedCall (c ∷ cs) p (a, hs) v =
    let (q, e, w) = call-IsTypedCall c p a v in
    let (r, f, x) = call_all-IsTypedCall cs q hs w in (r, rw (e, ◌>>=◌) f, x)
