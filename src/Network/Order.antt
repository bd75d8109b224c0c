-- ===== src/Network/Order.antt =====
-- Networking/unixnet.cpp and net_symbols.cpp: which buffer a process gets, in any order of the steps of
-- the threads.
use virtual_processing_unit.Prelude.{
  ==_refl, ℕ, ◌≡◌, refl, sym, ap, subst, ◌∙◌, arith, Bool, true, false, Option, none, some, List,
  [], ◌∷◌, ◌++◌, append-nil, append_assoc, if◌then◌else◌, length, take, replicate, take-all,
}
use virtual_processing_unit.Memory.{Memory, Machine}
use virtual_processing_unit.Memory.Heap.{
  IsAllocated, InRange, cells_from, store, ms-InRange, cells_from-store,
}
use virtual_processing_unit.Args.{ArgTuple, Host, arg_to_ull}
use virtual_processing_unit.MemorySymbols.{with_mem}
use virtual_processing_unit.Text.{Text}
use virtual_processing_unit.Network.{
  treat_received_buffer, bytes, buffer_size, Stream, receive, treat_rcv_msg, treat_message,
  thread_round, Netman, get_stream, update_stream,
}
use virtual_processing_unit.Network.Handlers.{net_get, net_get_from}

-- Buffers that arrive one after the other.
unfoldable pub receive_all : List (List ℕ) → Stream → Stream
receive_all [] st = st
receive_all (buffer ∷ rest) st = receive_all rest (receive buffer st)

-- The buffers, and what an empty queue gives.
abbrev pub oldest : List (List ℕ) → List ℕ
oldest [] = replicate buffer_size 0
oldest (buffer ∷ rest) = buffer

abbrev pub newer : List (List ℕ) → List (List ℕ)
newer [] = []
newer (buffer ∷ rest) = rest

-- A stream with this queue that is as another one otherwise.
abbrev HasQueue : List (List ℕ) → Stream → Stream → Type 0
HasQueue queue st st' =
    (st'.received_bytes ≡ queue)
    × (st'.msg_code ≡ st.msg_code)
    × (st'.transfer_buffer ≡ st.transfer_buffer)
    × (st'.stop_receiving ≡ false)

-- What arrives goes to the end of the queue, and disturbs no message.
receive_all-queue :
    (arrived : List (List ℕ)) (st : Stream)
    → st.stop_receiving ≡ false
    → HasQueue (st.received_bytes ++ arrived) st (receive_all arrived st)
unfolding receive_all receive
receive_all-queue [] st live = (sym (append-nil st.received_bytes), refl, refl, live)
receive_all-queue (buffer ∷ rest) st live =
    let next : Stream = record st {
      received_bytes = st.received_bytes ++ buffer ∷ [];
      has_received = true;
    } in
    let received : (if st.stop_receiving then st else next) ≡ next =
      ap (λ (stopped : Bool). if stopped then st else next) live in
    let (queue, code, transfer, live') = receive_all-queue rest next live in
    subst (λ (x : Stream). HasQueue (st.received_bytes ++ buffer ∷ rest) st (receive_all rest x))
      (sym received)
      (queue ∙ append_assoc st.received_bytes (buffer ∷ []) rest, code, transfer, live')

module _ (is_host : Text → Bool) where
  -- A round of the thread with the message of `net_get` hands over the oldest buffer.
  thread_round-oldest :
      (queue : List (List ℕ)) (st : Stream)
      → st.msg_code ≡ treat_received_buffer
      → st.received_bytes ≡ queue
      → ((thread_round is_host st).transfer_buffer ≡ bytes (take buffer_size (oldest queue)))
        × ((thread_round is_host st).received_bytes ≡ newer queue)
        × ((thread_round is_host st).stop_receiving ≡ st.stop_receiving)
  unfolding thread_round treat_message treat_rcv_msg
  thread_round-oldest [] st asked e = rw (asked, e) (refl, refl, refl)
  thread_round-oldest (buffer ∷ rest) st asked e = rw (asked, e) (refl, refl, refl)

  -- What the threads do while `net_get` sleeps: a round, with arrivals before and after.
  unfoldable pub elapsed : List (List ℕ) → List (List ℕ) → Stream → Stream
  elapsed before after st = receive_all after (thread_round is_host (receive_all before st))

  waited :
      (before after queue : List (List ℕ)) (st : Stream)
      → st.msg_code ≡ treat_received_buffer
      → st.stop_receiving ≡ false
      → st.received_bytes ++ before ≡ queue
      → ((elapsed before after st).transfer_buffer ≡ bytes (take buffer_size (oldest queue)))
        × ((elapsed before after st).received_bytes ≡ newer queue ++ after)
  unfolding elapsed
  waited before after queue st asked live e =
      let (q, code, transfer, live') = receive_all-queue before st live in
      let (handed, left, live'') =
        thread_round-oldest queue (receive_all before st) (code ∙ asked) (q ∙ e) in
      let (q', code', transfer', _) =
        receive_all-queue after (thread_round is_host (receive_all before st)) (live'' ∙ live') in
      (transfer' ∙ handed, q' ∙ ap (λ (x : List (List ℕ)). x ++ after) left)

  net_get_found :
      (host : Host) (wait : Stream → Stream) (arg : ArgTuple) (streams : Netman) (s : Machine)
      (id : ℕ) (st : Stream)
      → arg_to_ull host arg s.mem ≡ some id
      → get_stream id streams ≡ some st
      → net_get host wait arg streams s ≡ net_get_from host wait st id streams s
  unfolding net_get get_stream
  net_get_found host wait arg streams s id st read found =
      let next : Option Stream → Option (Machine × Netman) = λ found_stream. elim found_stream [
        | none ↦ some (s, streams)
        | some st' ↦ net_get_from host wait st' id streams s
      ] in
      rw read (ap next found)

  -- While `net_get` waits, the thread of the stream does its round, and buffers arrive before and after it: then
  -- the memory gets the oldest buffer, or zeros if there is none, and the others stay in the order in which
  -- they came, those that came after the round behind.
  pub net_get-oldest :
      (host : Host) (before after queue : List (List ℕ)) (arg : ArgTuple) (streams : Netman)
      (s : Machine) (id : ℕ) (st : Stream)
      → IsAllocated s.mem
      → InRange s.mem s.regs.rdi buffer_size
      → arg_to_ull host arg s.mem ≡ some id
      → get_stream id streams ≡ some st
      → st.stop_receiving ≡ false
      → st.received_bytes ++ before ≡ queue
      → length (oldest queue) ≡ buffer_size
      → (m : Memory) × (streams' : Netman) × (st' : Stream) × (net_get host
            (elapsed before after)
            arg
            streams
            s
          ≡ some (with_mem s m, streams'))
        × (get_stream id streams' ≡ some st')
        × (cells_from m.cells s.regs.rdi buffer_size ≡ oldest queue)
        × (st'.received_bytes ≡ newer queue ++ after)
  unfolding net_get_from update_stream get_stream
  net_get-oldest host before after queue arg streams s id st ok range read found live e size =
      let asked : Stream = record st {
        transfer_buffer = bytes (host.uninit buffer_size);
        msg_code = treat_received_buffer;
      } in
      let (handed, left) = waited before after queue asked refl live e in
      let whole : take buffer_size (oldest queue) ≡ oldest queue =
        rw (← size) (take-all (oldest queue)) in
      let stored =
        ms-InRange (oldest queue) s.regs.rdi s.mem ok (omega (arith, size)) (rw size range) in
      (
        record s.mem { cells = store s.mem.cells s.regs.rdi (oldest queue) },
        update_stream id (elapsed before after asked) streams,
        elapsed before after asked,
        net_get_found host (elapsed before after) arg streams s id st read found
            ∙ rw (handed ∙ ap bytes whole, stored) refl,
        ap (λ (same : Bool). if same then some (elapsed before after asked) else streams id)
            (==_refl id),
        ap (cells_from (store s.mem.cells s.regs.rdi (oldest queue)) s.regs.rdi) (sym size)
            ∙ cells_from-store s.mem.cells s.regs.rdi (oldest queue),
        left,
      )
