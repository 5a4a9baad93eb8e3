-- ===== src/Tests/Protocol.antt =====
-- src/protocol.c at concrete frames.
use nanokvm_rdp.Prelude.{
  ℕ, ◌≡◌, ◌<◌, ◌⊎◌, true, false, List, [], ◌∷◌, ◌++◌, arith, none, some, length, take, drop,
}
use nanokvm_rdp.Bytes.{write_u16}
use nanokvm_rdp.Protocol.{
  wrote, write_interrupted, write_failed, frame, protocol_send, RecvEvent, arrived,
  recv_interrupted, would_block, receive_available, finished, control_key,
}
use nanokvm_rdp.Protocol.Framing.{receive_available-frame, receive_available_complete, InFrame}
use nanokvm_rdp.Protocol.Sending.{protocol_send-frame, protocol_send-Takes, sent}

abbrev key : List ℕ
key = 0x1e ∷ 0 ∷ 0 ∷ []

abbrev bytewise : List RecvEvent
bytewise =
    arrived 0
    ∷ recv_interrupted
    ∷ arrived 0
    ∷ arrived 0
    ∷ arrived 0
    ∷ arrived 0
    ∷ arrived 0
    ∷ arrived 0
    ∷ []

receive_available_complete_example :
    receive_available bytewise [] (frame control_key key ++ 1 ∷ 9 ∷ [])
    ≡ finished (record { type = control_key; payload = key }) (1 ∷ 9 ∷ [])
receive_available_complete_example =
    receive_available_complete control_key key (1 ∷ 9 ∷ []) (omega arith) bytewise tt (omega arith)

receive_available-frame_example : InFrame control_key key [] (omega arith) (
    receive_available
      (arrived 1 ∷ would_block ∷ [])
      (take 2 (frame control_key key ++ []))
      (drop 2 (frame control_key key ++ [])))
receive_available-frame_example =
    receive_available-frame control_key key [] (omega arith) (arrived 1 ∷ would_block ∷ []) 2 tt
      (omega arith)

protocol_send-frame_example :
    (protocol_send (wrote 2 ∷ write_failed ∷ []) control_key key
      ≡ sent (some true) (frame control_key key) false)
    ⊎ ((n : ℕ) × (n < length (frame control_key key))
        × ((protocol_send (wrote 2 ∷ write_failed ∷ []) control_key key
              ≡ sent none (take n (frame control_key key)) false)
            ⊎ (protocol_send (wrote 2 ∷ write_failed ∷ []) control_key key
                ≡ sent (some false) (take n (frame control_key key)) true)))
protocol_send-frame_example =
    protocol_send-frame (wrote 2 ∷ write_failed ∷ []) control_key key (omega arith)

protocol_send-Takes_example :
    protocol_send
      (wrote 2 ∷ write_interrupted ∷ wrote 0 ∷ wrote 0 ∷ wrote 0 ∷ wrote 0 ∷ wrote 0 ∷ wrote 0 ∷ [])
      control_key
      key
    ≡ sent (some true) (frame control_key key) false
unfolding frame write_u16
protocol_send-Takes_example =
    protocol_send-Takes
      (wrote 2 ∷ write_interrupted ∷ wrote 0 ∷ wrote 0 ∷ wrote 0 ∷ wrote 0 ∷ wrote 0 ∷ wrote 0 ∷ [])
      control_key key (omega arith) tt (omega arith)
