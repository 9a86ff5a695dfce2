-- ===== src/Modem.antt =====
-- The EC801E modem's driver: drivers/ec801e/ec801e.c. The UART, the clock, the EN pin and the
-- configured APN are a parameter, the board. `Uart` is what every exchange of commands works on, and
-- `Driver` adds the flags that the file keeps between calls.
pub mod Replies
pub mod Line
pub mod Commands
pub mod Network
pub mod Sockets
pub mod Trace
pub mod Info
pub mod Kept
pub mod Offloaded
use esp32s3tinyepaper.Base.{ℕ, Bool, List, Option}
use esp32s3tinyepaper.Base.Result.{Result, Action, ok}

-- `poll_in` gives a byte or none, `rounds` is how many rounds a loop is followed that waits on the
-- line. Time passes in the calls: `now` reads the clock, in milliseconds.
pub record Board (W : Type 0) : Type 0 where
  pub poll_in : W → Option ℕ × W
  pub poll_out : ℕ → W → W
  pub now : W → ℕ
  pub sleep : ℕ → W → W
  pub uart_is_ready : Bool
  pub uart_configure : ℕ → W → Result (Unit {0}) × W
  pub has_power_port : Bool
  pub power_port_is_ready : Bool
  pub power_active_low : Bool
  pub pin_configure : W → Result (Unit {0}) × W
  pub pin_set : Bool → W → W
  pub pin_get : W → Result ℕ × W
  pub config_apn : List ℕ
  pub rounds : ℕ

pub record Uart (W : Type 0) : Type 0 where
  pub rsp_buf : List ℕ
  pub world : W

pub record Driver (W : Type 0) : Type 0 where
  pub uart_verified : Bool
  pub stack_ready : Bool
  pub socket_opened : Bool
  pub uart : Uart W

abbrev pub rx_buf_len : ℕ
rx_buf_len = 3072

abbrev pub cmd_buf_len : ℕ
cmd_buf_len = 256

abbrev pub short_timeout_ms : ℕ
short_timeout_ms = 1500

abbrev pub medium_timeout_ms : ℕ
medium_timeout_ms = 10000

abbrev pub long_timeout_ms : ℕ
long_timeout_ms = 60000

abbrev pub boot_wait_ms : ℕ
boot_wait_ms = 8000

abbrev pub qhttp_connect_timeout_ms : ℕ
qhttp_connect_timeout_ms = 125000

abbrev pub reboot_hit_threshold : ℕ
reboot_hit_threshold = 3

abbrev pub pdp_act_timeout_ms : ℕ
pdp_act_timeout_ms = 120000

module _ {W A : Type 0} where
  -- An exchange on the line leaves the flags alone.
  unfoldable pub on_uart : Action (Uart W) A → Action (Driver W) A
  on_uart m s = let (r, u) = m s.uart in (r, record s { uart = u })
