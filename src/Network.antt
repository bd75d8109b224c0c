-- ===== src/Network.antt =====
-- Networking/net_hdr.h, netman.cpp and unixnet.cpp: the streams, and what their two threads do. The
-- steps of the threads and of the process are taken one after the other; the source locks the flags
-- and the messages, and the queue of received buffers not.
pub mod Handlers
pub mod Order
use virtual_processing_unit.Prelude.{
  ℕ, Bool, true, false, Option, none, some, List, [], ◌∷◌, ◌++◌, ◌==◌, if◌then◌else◌, take,
  replicate,
}
use virtual_processing_unit.Text.{Text}

pub data MsgCode : Type 0 where
  nop treat_received_buffer send_buffer add_endpoint : MsgCode

-- `sockaddr_in`, before its name is looked up.
pub record Address : Type 0 where
  pub ip_addr : Text
  pub port : ℕ

-- What `transferBuffer` points to: 256 bytes, or the bytes of an `ip_endpoint`.
pub data Transfer : Type 0 where
  bytes : List ℕ → Transfer
  endpoint : ℕ → Address → Transfer

-- The length of a buffer.
abbrev pub buffer_size : ℕ
buffer_size = 256

-- A stream: its `running_hdr` and `startup_hdr`, the `inet_data` of its threads, and what was handed
-- to `sendto`, with a null pointer where no endpoint has the selected identifier.
pub record Stream : Type 0 where
  pub receiver : Address
  pub this_port : ℕ
  pub has_received : Bool
  pub stop_receiving : Bool
  pub buffer_sent : Bool
  pub msg_code : MsgCode
  pub transfer_buffer : Transfer
  pub selected_ep : ℕ
  pub received_bytes : List (List ℕ)
  pub endpoints : ℕ → Option Address
  pub sent : List (Option Address × List ℕ)

-- A stream as `net_open` makes it, whose thread has bound its socket.
unfoldable pub new_stream : Address → ℕ → List ℕ → Stream
new_stream receiver this_port buffer = record {
  receiver = receiver;
  this_port = this_port;
  has_received = false;
  stop_receiving = false;
  buffer_sent = false;
  msg_code = nop;
  transfer_buffer = bytes buffer;
  selected_ep = 0;
  received_bytes = [];
  endpoints = λ id. if id == 0 then some receiver else none;
  sent = [];
}

-- The body of the loop of `recvThread`, with a buffer that `recv` has filled.
unfoldable pub receive : List ℕ → Stream → Stream
receive buffer st =
    if st.stop_receiving
    then st
    else record st { received_bytes = st.received_bytes ++ buffer ∷ []; has_received = true }

-- `treatRcvMsg`.
unfoldable pub treat_rcv_msg : Stream → Stream
treat_rcv_msg st = elim st.received_bytes [
  | [] ↦ record st { msg_code = nop; transfer_buffer = bytes (replicate buffer_size 0) }
  | buffer ∷ rest ↦ record st {
    msg_code = nop;
    transfer_buffer = bytes (take buffer_size buffer);
    received_bytes = rest;
  }
]

-- `sendFct`: the buffer counts as sent, whether `sendto` has taken it or not.
unfoldable pub send_fct : List ℕ → Stream → Stream
send_fct data' st = record st {
  sent = st.sent ++ (st.endpoints st.selected_ep, data') ∷ [];
  buffer_sent = true;
}

module _ (is_host : Text → Bool) where
  -- `addEndpoint`. `is_host` tells which addresses and names there are.
  unfoldable pub add_new_endpoint : ℕ → Address → Stream → Stream
  add_new_endpoint id address st =
      if is_host address.ip_addr
      then record st {
        endpoints = λ other. if other == id then some address else st.endpoints other;
      }
      else st

  -- The treatment of a message; the handlers put bytes and endpoints where they belong.
  unfoldable pub treat_message : MsgCode → Transfer → Stream → Stream
  unfolding treat_rcv_msg send_fct add_new_endpoint
  treat_message treat_received_buffer transfer st = treat_rcv_msg st
  treat_message send_buffer (bytes data') st = send_fct data' st
  treat_message send_buffer (endpoint id address) st = st
  treat_message add_endpoint (bytes data') st = st
  treat_message add_endpoint (endpoint id address) st = add_new_endpoint id address st
  treat_message nop transfer st = st

  -- The body of the loop of `unixnet_poststartup`.
  unfoldable pub thread_round : Stream → Stream
  unfolding treat_message
  thread_round st = record (treat_message st.msg_code st.transfer_buffer st) { msg_code = nop }

-- `netman`.
abbrev pub Netman : Type 0
Netman = ℕ → Option Stream

-- `closeStream`.
unfoldable pub close_stream : ℕ → Netman → Netman
close_stream id streams = λ other. if other == id then none else streams other

-- `openStream`, which closes the stream that has the identifier.
unfoldable pub open_stream : Stream → ℕ → Netman → Netman
unfolding close_stream
open_stream st id streams = elim (streams id) [
  | none ↦ λ other. if other == id then some st else streams other
  | some old ↦ λ other. if other == id then some st else close_stream id streams other
]

-- `getStream`.
unfoldable pub get_stream : ℕ → Netman → Option Stream
get_stream id streams = streams id

-- A stream that has changed behind its pointer.
unfoldable pub update_stream : ℕ → Stream → Netman → Netman
update_stream id st streams = λ other. if other == id then some st else streams other
