-- ===== src/Link/Session.antt =====
-- The round trip of a drone's state: src/drone.c. The codec of the payload, which bitproto generates,
-- is a parameter. `seq` counts the rounds, from 0.
pub mod Closed
pub mod Echo
pub mod Rounds
use esp32s3tinyepaper.Base.{
  ℕ, zero, suc, ◌+◌, ◌%◌, Bool, true, false, not, ◌||◌, List, [], ◌∷◌, ◌==◌, if◌then◌else◌, length,
  replicate,
}
use esp32s3tinyepaper.Base.Int.{ℤ, pos, negsuc, ◌+ℤ◌, ◌-ℤ◌}
use esp32s3tinyepaper.Base.Result.{
  Result, ok, err, Errno, eio, einval, ebadmsg, Action, pure, raise, raise_if, modify, attempt,
  of_result, ◌>>=◌, ◌>>◌,
}
use esp32s3tinyepaper.Link.Socket.{Tcp, connect_gpsec_socket}
use esp32s3tinyepaper.Link.Frame.{HeaderCodec, write_frame, read_frame}

pub record Position : Type 0 where
  pub latitude : ℤ
  pub longitude : ℤ
  pub altitude : ℤ

pub record Pose : Type 0 where
  pub yaw : ℤ
  pub pitch : ℤ
  pub roll : ℤ

pub record Flight : Type 0 where
  pub pose : Pose
  pub velocity : List ℤ
  pub acceleration : List ℤ

pub record Propeller : Type 0 where
  pub id : ℕ
  pub status : ℕ
  pub direction : ℕ

pub record Power : Type 0 where
  pub battery : ℕ
  pub status : ℕ
  pub is_charging : Bool

pub record Network : Type 0 where
  pub signal : ℕ
  pub heartbeat_at : ℤ

pub record Drone : Type 0 where
  pub status : ℕ
  pub position : Position
  pub flight : Flight
  pub propellers : List Propeller
  pub power : Power
  pub network : Network
  pub landing_gear : ℕ

abbrev drone_status_rising : ℕ
drone_status_rising = 2

abbrev power_status_on : ℕ
power_status_on = 2

abbrev rotating_direction_clock_wise : ℕ
rotating_direction_clock_wise = 1

abbrev propeller_status_rotating : ℕ
propeller_status_rotating = 2

abbrev landing_gear_status_folded : ℕ
landing_gear_status_folded = 2

unfoldable pub no_propeller : Propeller
no_propeller = record { id = 0; status = 0; direction = 0 }

unfoldable pub fill_drone : ℕ → Drone
fill_drone seq = record {
  status = drone_status_rising;
  position = record {
    longitude = pos (2000 + seq);
    latitude = pos (3000 + seq);
    altitude = pos (1080 + seq);
  };
  flight = record {
    pose = record { yaw = pos (4321 + seq); pitch = pos (1234 + seq); roll = pos (5678 + seq) };
    velocity = replicate 3 (pos 0);
    acceleration = (negsuc 1000 -ℤ pos seq) ∷ pos (1002 + seq) ∷ pos (1003 + seq) ∷ [];
  };
  propellers =
      record {
        id = 1;
        direction = rotating_direction_clock_wise;
        status = propeller_status_rotating;
      }
      ∷ replicate 3 no_propeller;
  power = record { is_charging = seq % 2 == 0; battery = 98; status = power_status_on };
  network = record { signal = 15; heartbeat_at = pos (1611280511628 + seq) };
  landing_gear = landing_gear_status_folded;
}

-- `EncodeDrone` gives the bytes that it wrote, `DecodeDrone` the number of bytes that it read.
pub record DroneCodec : Type 0 where
  pub encode : Drone → List ℕ
  pub decode : List ℕ → ℕ × Drone

abbrev pub bytes_length_drone : ℕ
bytes_length_drone = 65

abbrev pub gpsec_rounds : ℕ
gpsec_rounds = 3

-- `memcmp(a, b, length) == 0`, for buffers of one length.
unfoldable pub same_bytes : List ℕ → List ℕ → Bool
same_bytes [] b = true
same_bytes (x ∷ a) [] = false
same_bytes (x ∷ a) (y ∷ b) = let rest = same_bytes a b in if x == y then rest else false

-- How a round ends: with a `return` or a `break`, or at the end of the loop's body.
pub data Flow : Type 0 where
  leave : Result (Unit {0}) → Flow
  next_round : Flow

module _ {N : Type 0} (headers : HeaderCodec) (drones : DroneCodec) (tcp : Tcp N) where
  -- A branch that closes the socket and leaves the loop with an error.
  unfoldable pub close_if : ℕ → Bool → Errno → Action N (Unit {0})
  close_if sock b e = if b then (modify (tcp.close sock) >> raise e) else pure tt

  -- A call whose failure closes the socket and leaves the loop.
  unfoldable pub or_close : {A : Type 0} → ℕ → Action N A → Action N A
  or_close sock m n =
      let r = m n in elim r.0 [ ok a ↦ (ok a, r.1) | err e ↦ (err e, tcp.close sock r.1) ]

  -- The reply is the payload that was sent, and decodes.
  unfoldable pub check_reply : ℕ → List ℕ → List ℕ → Action N (Unit {0})
  check_reply sock payload reply = do
    close_if sock (not (length reply == length payload) || not (same_bytes reply payload)) eio
    close_if sock (not ((drones.decode reply).0 == bytes_length_drone)) ebadmsg

  -- What a round does with its socket. Each branch that fails closes it.
  unfoldable pub exchange : ℕ → List ℕ → Action N (Unit {0})
  exchange sock payload = do
    close_if sock (not (length payload == bytes_length_drone)) einval
    or_close sock (write_frame headers tcp sock payload)
    reply ← or_close sock (read_frame headers tcp sock bytes_length_drone)
    check_reply sock payload reply

  -- A `break` leaves the loop with `ret`. The successful branch closes the socket and breaks too, so that
  -- no branch reaches the end of the loop's body.
  unfoldable pub after_exchange : ℕ → Result (Unit {0}) → N → Flow × N
  after_exchange sock (err e) n = (leave (err e), n)
  after_exchange sock (ok a) n = (leave (ok a), tcp.close sock n)

  unfoldable pub with_socket : ℕ → Result ℕ → N → Flow × N
  with_socket seq (err e) n = (leave (err e), n)
  with_socket seq (ok sock) n =
      let r = exchange sock (drones.encode (fill_drone seq)) n in after_exchange sock r.0 r.1

  unfoldable pub session_round : ℕ → List ℕ → ℕ → N → Flow × N
  session_round seq srv_ip srv_port n =
      let (sock, connected) = connect_gpsec_socket tcp srv_ip srv_port n in
      with_socket seq sock connected

  unfoldable pub session_loop : ℕ → ℕ → List ℕ → ℕ → Action N (Unit {0})
  session_loop zero seq srv_ip srv_port n = (ok tt, n)
  session_loop (suc rounds) seq srv_ip srv_port n =
      let (flow, m) = session_round seq srv_ip srv_port n in
      elim flow [
        | leave ret ↦ (ret, m)
        | next_round ↦ session_loop rounds (suc seq) srv_ip srv_port m
      ]

  unfoldable pub run_roundtrip_session : List ℕ → ℕ → Action N (Unit {0})
  run_roundtrip_session srv_ip srv_port = session_loop gpsec_rounds 0 srv_ip srv_port
