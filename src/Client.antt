-- ===== src/Client.antt =====
-- The receiving end of the video stream on the gateway: src/rtp_client.c and src/rtp_client.h.
-- A client is the context of its own callbacks, which do not use its reassembler, so that the record
-- is that and the other fields. The access unit is the list of the bytes written to it, `realloc` is
-- the argument `alloc` as in the reassembler, and what `recv` answers is a list.
pub mod Assembled
pub mod Bounds
pub mod Delivery
pub mod Reading
pub mod Carried
pub mod Units
pub mod AccessUnit
use nanokvm_rdp.Prelude.{
  ℕ, zero, suc, ◌+◌, ◌*◌, ◌/◌, ◌^◌, Bool, true, false, ◌&&◌, ◌||◌, not, List, [], ◌∷◌, ◌++◌, Option,
  none, some, get_or, length, take, ltb, ◌==◌, if◌then◌else◌, add_u32, sub_u64, mul_u64, bit_and,
}
use nanokvm_rdp.Bytes.{read_u32}
use nanokvm_rdp.Rtp.Packetizer.{max_nal}
use nanokvm_rdp.Rtp.Reassembler.{Reassembler, reassembler_init, Callbacks, push}

-- The fields but the reassembler. `opened` says that `fd` is a descriptor, which it is not at -1.
pub record Context : Type 0 where
  pub opened : Bool
  pub receive_buffer_bytes : ℕ
  pub access_unit : List ℕ
  pub access_unit_capacity : ℕ
  pub access_unit_capacity_hint : ℕ
  pub access_unit_timestamp : ℕ
  pub access_unit_ssrc : ℕ
  pub have_access_unit : Bool
  pub losses : ℕ

pub record RtpClient : Type 0 where
  pub context : Context
  pub reassembler : Reassembler

abbrev pub closed_context : Context
closed_context = record {
  opened = false;
  receive_buffer_bytes = 0;
  access_unit = [];
  access_unit_capacity = 0;
  access_unit_capacity_hint = 0;
  access_unit_timestamp = 0;
  access_unit_ssrc = 0;
  have_access_unit = false;
  losses = 0;
}

-- `(RtpClient){ .fd = -1 }`.
abbrev pub closed_client : RtpClient
closed_client = record { context = closed_context; reassembler = reassembler_init }

abbrev pub doubled : ℕ → ℕ
doubled capacity = if ltb (max_nal / 2) capacity then max_nal else mul_u64 capacity 2

-- `while (capacity < needed)` of `append_access_unit`, on fuel.
unfoldable pub grow_access_unit : ℕ → ℕ → ℕ → ℕ
grow_access_unit zero capacity needed = capacity
grow_access_unit (suc fuel) capacity needed = elim (ltb capacity needed) [
  | true ↦ grow_access_unit fuel (doubled capacity) needed
  | false ↦ capacity
]

unfoldable pub append_access_unit : (ℕ → Bool) → Context → List ℕ → Bool × Context
append_access_unit alloc client bytes =
    let held = length client.access_unit in
    let needed = held + length bytes in
    let hinted =
      if client.access_unit_capacity == 0
      then client.access_unit_capacity_hint
      else client.access_unit_capacity in
    let first = if ltb hinted 4096 || ltb max_nal hinted then 4096 else hinted in
    let capacity = grow_access_unit 64 first needed in
    let written = client.access_unit ++ bytes in
    if ltb (sub_u64 max_nal held) (length bytes)
    then (false, client)
    else if ltb client.access_unit_capacity needed
    then if alloc capacity
      then (true, record client { access_unit = written; access_unit_capacity = capacity })
      else (false, client)
    else (true, record client { access_unit = written })

-- The loop of `access_unit_capacity_hint`, on fuel.
unfoldable pub hint_from : ℕ → ℕ → ℕ → ℕ
hint_from zero capacity size = capacity
hint_from (suc fuel) capacity size = elim (ltb capacity size && ltb capacity max_nal) [
  | true ↦ hint_from fuel (doubled capacity) size
  | false ↦ capacity
]

abbrev pub capacity_hint : ℕ → ℕ
capacity_hint size = hint_from 64 4096 size

abbrev pub start_code : List ℕ
start_code = 0 ∷ 0 ∷ 0 ∷ 1 ∷ []

-- The access unit that a NAL unit with this timestamp belongs to.
unfoldable pub in_access_unit : Context → ℕ → Context
in_access_unit client timestamp =
    if not client.have_access_unit || not (client.access_unit_timestamp == timestamp)
    then record client {
      access_unit = [];
      access_unit_timestamp = timestamp;
      have_access_unit = true;
    }
    else client

unfoldable pub save_nal : (ℕ → Bool) → Context → List ℕ → ℕ → Bool → Bool × Context
save_nal alloc client nal timestamp marker =
    let (started, client') =
      append_access_unit alloc (in_access_unit client timestamp) start_code in
    if started then append_access_unit alloc client' nal else (false, client')

unfoldable pub count_loss : Context → Context
count_loss client = record client {
  losses = add_u32 client.losses 1;
  access_unit = [];
  have_access_unit = false;
}

abbrev pub callbacks : (ℕ → Bool) → Callbacks Context
callbacks alloc = record { nal = some (save_nal alloc); loss = some count_loss }

-- What the system calls of `rtp_client_open` answer.
pub record OpenAnswers : Type 0 where
  pub has_socket : Bool
  pub has_timeout : Bool
  pub is_bound : Bool
  pub buffer_bytes : ℕ

unfoldable pub open_client : OpenAnswers → RtpClient → ℕ → Bool × RtpClient
open_client answers client port =
    let sized = record closed_context { receive_buffer_bytes = answers.buffer_bytes } in
    if port == 0
    then (false, client)
    else if not answers.has_socket
    then (false, closed_client)
    else if not answers.has_timeout || not answers.is_bound
    then (false, record closed_client { context = sized })
    else (true, record closed_client { context = record sized { opened = true } })

-- The client that has handed its access unit over, after the packet that ended it.
unfoldable pub handed : Context → List ℕ → Context
handed client packet = record client {
  access_unit_ssrc = read_u32 packet 8;
  access_unit_capacity_hint = capacity_hint (length client.access_unit);
  access_unit = [];
  access_unit_capacity = 0;
  have_access_unit = false;
}

-- What `rtp_client_read_h264` does with a packet: the access unit that it hands over, or `none` to
-- go on. The outer `none` would mean that the reassembler had not come to its end.
unfoldable pub read_packet : (ℕ → Bool) → RtpClient → List ℕ → Option (Option (List ℕ) × RtpClient)
read_packet alloc client packet =
    elim (push alloc (callbacks alloc) client.reassembler packet client.context) [
      | none ↦ none
      | some (pushed, r, next) ↦
          let ends = not (bit_and (get_or packet 1 0) 0x80 == 0) in
          if pushed && (ends && not (length next.access_unit == 0))
          then some
              (some next.access_unit, record { context = handed next packet; reassembler = r })
          else some (none, record { context = next; reassembler = r })
    ]

-- What a call of `recv` answers; a timeout is a failure.
pub data Recv : Type 0 where
  datagram : List ℕ → Recv
  interrupted : Recv
  failed : Recv

abbrev pub ReadResult : Type 0
ReadResult = Option (Option (List ℕ) × List Recv × RtpClient)

-- The loop, with the answers of `recv` that are left. A packet is at most 1500 bytes.
unfoldable pub read_loop : (ℕ → Bool) → List Recv → RtpClient → ReadResult
read_loop alloc [] client = some (none, [], client)
read_loop alloc (interrupted ∷ answers) client = read_loop alloc answers client
read_loop alloc (failed ∷ answers) client = some (none, answers, client)
read_loop alloc (datagram bytes ∷ answers) client = elim (length bytes == 0) [
  | true ↦ some (none, answers, client)
  | false ↦ elim (read_packet alloc client (take 1500 bytes)) [
    | none ↦ none
    | some (unit, client') ↦ elim unit [
      | none ↦ read_loop alloc answers client'
      | some data_ ↦ some (some data_, answers, client')
    ]
  ]
]

unfoldable pub read_h264 : (ℕ → Bool) → List Recv → RtpClient → ReadResult
read_h264 alloc answers client =
    if client.context.opened then read_loop alloc answers client else some (none, answers, client)
