-- ===== src/Connection/InternalHdl.antt =====
-- src/connection/internal_hdl.rs: how the sender's and the receiver's task reach the connection.
use rrev.Prelude.{Async, pure, ◌>>◌}
use rrev.Channel.{MpscSender}
use rrev.Scheme.{Parser, TheirMessage}
use rrev.Connection.Types.{InternalHdl, InternalMessage}
use rrev.Runtime.{Tokio, World, to_internal, send}

abbrev pub new : {P : Parser} → MpscSender (InternalMessage P) → InternalHdl P
new tx = record { tx = tx }

module _ {P : Parser} {tokio : Tokio P} where
  -- `let _ = …`: a failed send is ignored.
  unfoldable pub close : InternalHdl P → Async (World tokio) (Unit {0})
  unfolding send
  close hdl = do send (to_internal hdl.tx InternalMessage.close); pure tt

  unfoldable pub new_message : InternalHdl P → TheirMessage P → Async (World tokio) (Unit {0})
  unfolding send
  new_message hdl m = do send (to_internal hdl.tx (InternalMessage.new_message m)); pure tt
