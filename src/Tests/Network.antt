-- ===== src/Tests/Network.antt =====
-- A stream at concrete buffers.
use virtual_processing_unit.Prelude.{
  ◌≡◌, refl, arith, true, none, some, List, [], ◌∷◌, ℕ, if◌then◌else◌, ◌==◌, replicate,
}
use virtual_processing_unit.Bytes.{atoull}
use virtual_processing_unit.Memory.{Machine, Memory, mg, read}
use virtual_processing_unit.Memory.Heap.{cells_from}
use virtual_processing_unit.Args.{ArgTuple, arg_to_ull}
use virtual_processing_unit.MemorySymbols.{with_mem}
use virtual_processing_unit.Text.{codes}
use virtual_processing_unit.Network.{Stream, new_stream, Netman, get_stream}
use virtual_processing_unit.Network.Handlers.{net_get}
use virtual_processing_unit.Network.Order.{elapsed, net_get-oldest}
use virtual_processing_unit.Tests.Memory.{
  some_regs, some_memory, some_machine, some_memory-IsAllocated,
}
use virtual_processing_unit.Tests.Actions.{host}

-- The word at 16 is 40, the identifier of the stream; the buffer goes to 32.
abbrev stream_machine : Machine
stream_machine = record some_machine { regs = record some_regs { rdi = 32 } }

abbrev stream_arg : ArgTuple
stream_arg = record { vaddr = 16; vsize = 8; vopt = 0 }

abbrev some_stream : Stream
some_stream = new_stream (record { ip_addr = codes "127.0.0.1"; port = 80 }) 81 []

abbrev some_streams : Netman
some_streams = λ id. if id == 40 then some some_stream else none

abbrev ones : List ℕ
ones = replicate 256 1

abbrev twos : List ℕ
twos = replicate 256 2

stream_read : arg_to_ull host stream_arg some_memory ≡ some 40
unfolding arg_to_ull mg read atoull
stream_read = refl

stream_found : get_stream 40 some_streams ≡ some some_stream
unfolding get_stream
stream_found = refl

net_get-oldest_example :
    (m : Memory) × (streams' : Netman) × (st' : Stream) × (net_get host
        (elapsed (λ name. true) (ones ∷ []) (twos ∷ []))
        stream_arg
        some_streams
        stream_machine
      ≡ some (with_mem stream_machine m, streams'))
    × (get_stream 40 streams' ≡ some st')
    × (cells_from m.cells 32 256 ≡ ones)
    × (st'.received_bytes ≡ twos ∷ [])
unfolding new_stream
net_get-oldest_example =
    net_get-oldest (λ name. true) host (ones ∷ []) (twos ∷ []) (ones ∷ []) stream_arg some_streams
      stream_machine 40 some_stream some_memory-IsAllocated (omega arith) stream_read stream_found
      refl refl refl
