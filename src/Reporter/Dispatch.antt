-- ===== src/Reporter/Dispatch.antt =====
-- internal/reporter/dispatcher.go and internal/core/entities/master: handlers by message type.
use swat4master.Prelude.{ℕ, Option, none, some, List, [], ◌∷◌, ◌==◌, if◌then◌else◌}
use swat4master.Prelude.Bytes.{Bytes}
use swat4master.Reporter.{Peer, Reply, failed, no_associated_handler}

-- `master.Msg`, a byte
abbrev pub Msg : Type 0
Msg = ℕ

abbrev pub msg_challenge : Msg
msg_challenge = 0x01

abbrev pub msg_heartbeat : Msg
msg_heartbeat = 0x03

abbrev pub msg_keepalive : Msg
msg_keepalive = 0x08

abbrev pub msg_available : Msg
msg_available = 0x09

module _ (W : Type 0) where
  abbrev pub Handler : Type 0
  Handler = W → Peer → Bytes → W × Reply

  abbrev pub Dispatcher : Type 0
  Dispatcher = List (Msg × Handler)

  -- `none` is the error that the type has no handler
  unfoldable pub select_handler : Dispatcher → Msg → Option Handler
  select_handler [] msg = none
  select_handler ((type, handler) ∷ rest) msg =
      let later = select_handler rest msg in if type == msg then some handler else later

  abbrev pub register_over : Dispatcher → Msg → Handler → Option Handler → Option Dispatcher
  register_over d msg handler none = some ((msg, handler) ∷ d)
  register_over d msg handler (some another) = none

  -- `none` is the error that there is a handler already
  unfoldable pub register : Dispatcher → Msg → Handler → Option Dispatcher
  register d msg handler = register_over d msg handler (select_handler d msg)

  abbrev pub handled : Option Handler → W → Peer → Bytes → W × Reply
  handled none w peer payload = (w, failed no_associated_handler)
  handled (some handler) w peer payload = handler w peer payload

  -- the transport passes on no empty datagram; the first byte is the type
  unfoldable pub dispatch : Dispatcher → W → Peer → ℕ → Bytes → W × Reply
  dispatch d w peer msg rest = handled (select_handler d msg) w peer (msg ∷ rest)
