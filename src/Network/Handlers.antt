-- ===== src/Network/Handlers.antt =====
-- Networking/net_symbols.cpp: the handlers of the networking actions.
use virtual_processing_unit.Prelude.{
  ℕ, ◌/◌, ◌%◌, ◌^◌, true, false, Option, none, some, ◌>>=◌, List, [], ◌∷◌, ◌++◌, if◌then◌else◌,
}
use virtual_processing_unit.Bytes.{atoull, word_size}
use virtual_processing_unit.Registers.{get_num, set_num, rx, ld}
use virtual_processing_unit.Memory.{Machine, ms, mg, pop}
use virtual_processing_unit.Args.{ArgTuple, Host, arg_to_ull}
use virtual_processing_unit.NativeMaths.{with_regs}
use virtual_processing_unit.MemorySymbols.{with_mem}
use virtual_processing_unit.Text.{Text, to_string}
use virtual_processing_unit.Network.{
  treat_received_buffer, send_buffer, add_endpoint, Address, bytes, endpoint, Transfer, buffer_size,
  Stream, new_stream, Netman, open_stream, close_stream, get_stream, update_stream,
}

-- The loop that makes an address of the low 32 bits of RDI.
unfoldable pub dotted : ℕ → Text
dotted n =
    to_string (n / 2 ^ 24 % 256)
    ++ 46 ∷ []
    ++ to_string (n / 2 ^ 16 % 256)
    ++ 46 ∷ []
    ++ to_string (n / 2 ^ 8 % 256)
    ++ 46 ∷ []
    ++ to_string (n % 256)

-- The bytes that a transfer leaves in a buffer of the handler.
abbrev pub buffer_of : Transfer → Option (List ℕ)
buffer_of (bytes data') = some data'
buffer_of (endpoint id address) = none

module _ (host : Host) where
  -- `net_open`, which hands the two ports to `startup_hdr` the wrong way round.
  unfoldable pub net_open : ArgTuple → Netman → Machine → Option (Machine × Netman)
  unfolding dotted new_stream open_stream
  net_open arg streams s = do
    stream_id ← arg_to_ull host arg s.mem
    let recv_addr : Address = record {
      ip_addr = dotted s.regs.rdi;
      port = get_num (rx ld) s.regs % 2 ^ 32;
    }
    let this_port = s.regs.rsi % 2 ^ 32
    some (
      s,
      open_stream (new_stream recv_addr this_port (host.uninit buffer_size)) stream_id streams,
    )

  -- `net_close`.
  unfoldable pub net_close : ArgTuple → Netman → Machine → Option (Machine × Netman)
  unfolding close_stream
  net_close arg streams s = do
    stream_id ← arg_to_ull host arg s.mem
    some (s, close_stream stream_id streams)

  -- `net_hrecv`.
  unfoldable pub net_hrecv : ArgTuple → Netman → Machine → Option (Machine × Netman)
  unfolding get_stream update_stream
  net_hrecv arg streams s = do
    stream_id ← arg_to_ull host arg s.mem
    elim (get_stream stream_id streams) [
      | none ↦ some (s, streams)
      | some st ↦ some (
        with_regs s (set_num (rx ld) (if st.has_received then 1 else 0) s.regs),
        update_stream stream_id (record st { has_received = false }) streams,
      )
    ]

  -- `net_selep`: the endpoint comes from the stack, into the buffer that held the stream.
  unfoldable pub net_selep : ArgTuple → Netman → Machine → Option (Machine × Netman)
  unfolding get_stream update_stream
  net_selep arg streams s = do
    temp ← mg (host.uninit word_size) arg.vaddr s.mem
    (ep_id, s') ← pop temp true s
    elim (get_stream (atoull temp) streams) [
      | none ↦ some (s', streams)
      | some st ↦
          some (s', update_stream (atoull temp) (record st { selected_ep = atoull ep_id }) streams)
    ]

  -- The handlers that wait: `elapsed` is what the threads of the stream do while they sleep.
  module _ (elapsed : Stream → Stream) where
    -- `net_get`, from where the stream is found on.
    unfoldable pub net_get_from : Stream → ℕ → Netman → Machine → Option (Machine × Netman)
    unfolding update_stream
    net_get_from st stream_id streams s = do
      let asked = record st {
        transfer_buffer = bytes (host.uninit buffer_size);
        msg_code = treat_received_buffer;
      }
      let st' = elapsed asked
      temp ← buffer_of st'.transfer_buffer
      m ← ms temp s.regs.rdi s.mem
      some (with_mem s m, update_stream stream_id st' streams)

    -- `net_get`.
    unfoldable pub net_get : ArgTuple → Netman → Machine → Option (Machine × Netman)
    unfolding get_stream net_get_from
    net_get arg streams s = do
      stream_id ← arg_to_ull host arg s.mem
      elim (get_stream stream_id streams) [
        | none ↦ some (s, streams)
        | some st ↦ net_get_from st stream_id streams s
      ]

    -- `net_send`, which waits until the buffer is sent: if it never is, for ever.
    unfoldable pub net_send : ArgTuple → Netman → Machine → Option (Machine × Netman)
    unfolding get_stream update_stream
    net_send arg streams s = do
      stream_id ← arg_to_ull host arg s.mem
      temp ← mg (host.uninit buffer_size) s.regs.rdi s.mem
      elim (get_stream stream_id streams) [
        | none ↦ some (s, streams)
        | some st ↦
            let st' =
              elapsed (record st { transfer_buffer = bytes temp; msg_code = send_buffer }) in
            if st'.buffer_sent
            then some (s, update_stream stream_id (record st' { buffer_sent = false }) streams)
            else none
      ]

    -- `net_crtep`, which puts the old buffer back.
    unfoldable pub net_crtep : ArgTuple → Netman → Machine → Option (Machine × Netman)
    unfolding get_stream update_stream dotted
    net_crtep arg streams s = do
      stream_id ← arg_to_ull host arg s.mem
      elim (get_stream stream_id streams) [
        | none ↦ some (s, streams)
        | some st ↦
            let address : Address = record {
              ip_addr = dotted s.regs.rdi;
              port = s.regs.rsi % 2 ^ 32;
            } in
            let asked = record st {
              transfer_buffer = endpoint (get_num (rx ld) s.regs) address;
              msg_code = add_endpoint;
            } in
            let st' = elapsed asked in
            some (
              s,
              update_stream stream_id (record st' { transfer_buffer = st.transfer_buffer }) streams,
            )
      ]
