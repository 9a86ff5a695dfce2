-- ===== src/Link/Frame.antt =====
-- Frames: src/bitproto/protocol_utls.c. The codec of the header, which bitproto generates, is a
-- parameter: encoding gives the bytes that it wrote, decoding the number of bytes it read and the header.
pub mod Carried
pub mod Returned
use esp32s3tinyepaper.Base.{
  ℕ, zero, suc, ◌^◌, Bool, true, false, not, ◌||◌, List, [], ltb, ◌==◌, if◌then◌else◌, length,
}
use esp32s3tinyepaper.Base.Result.{
  Result, ok, err, Errno, eio, einval, ebadmsg, emsgsize, Action, pure, raise, raise_if, ◌>>=◌,
  ◌>>◌,
}
use esp32s3tinyepaper.Link.Socket.{Tcp, send_all, recv_all}

pub record FrameHeader : Type 0 where
  pub magic : ℕ
  pub version : ℕ
  pub payload_type : ℕ
  pub payload_length : ℕ

pub record HeaderCodec : Type 0 where
  pub encode : FrameHeader → List ℕ
  pub decode : List ℕ → ℕ × FrameHeader

abbrev pub bytes_length_frameheader : ℕ
bytes_length_frameheader = 4

abbrev pub frame_magic : ℕ
frame_magic = 0xB1

abbrev pub payload_type_drone : ℕ
payload_type_drone = 1

abbrev pub uint16_max : ℕ
uint16_max = 65535

-- The header of a frame with this many bytes of payload.
unfoldable pub frame_header : ℕ → FrameHeader
frame_header payload_len = record {
  magic = frame_magic;
  version = 0;
  payload_type = payload_type_drone;
  payload_length = payload_len;
}

-- `if (f() < 0) return -EIO;`
unfoldable pub or_eio : {N A : Type 0} → Action N A → Action N A
or_eio m n = let (r, t) = m n in elim r [ ok a ↦ (ok a, t) | err e ↦ (err eio, t) ]

module _ {N : Type 0} (codec : HeaderCodec) (tcp : Tcp N) where
  unfoldable pub write_frame : ℕ → List ℕ → Action N (Unit {0})
  write_frame sock payload = do
    let hdr_buf = codec.encode (frame_header (length payload))
    raise_if (ltb uint16_max (length payload)) einval
    raise_if (not (length hdr_buf == bytes_length_frameheader)) ebadmsg
    or_eio (send_all tcp sock hdr_buf)
    send_all tcp sock payload

  -- The checks on the header that was read, and the payload.
  unfoldable pub read_payload : ℕ → ℕ → ℕ × FrameHeader → Action N (List ℕ)
  read_payload sock payload_capacity (n, hdr) = do
    raise_if (not (n == bytes_length_frameheader)) ebadmsg
    raise_if (not (hdr.magic == frame_magic) || not (hdr.payload_type == payload_type_drone))
        ebadmsg
    raise_if (ltb payload_capacity hdr.payload_length) emsgsize
    or_eio (recv_all tcp sock hdr.payload_length)

  -- The payload; its length is what `*out_len` is set to.
  unfoldable pub read_frame : ℕ → ℕ → Action N (List ℕ)
  read_frame sock payload_capacity = do
    hdr_buf ← or_eio (recv_all tcp sock bytes_length_frameheader)
    read_payload sock payload_capacity (codec.decode hdr_buf)
