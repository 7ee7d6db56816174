-- ===== src/Memory/Handlers.antt =====
-- DataMemory: what `memReadReqHandler` and `memWriteReqHandler` compute; Memory/Packets has them with
-- the request packet, which both recycle at the end. A pointer into the bytes is read at its width
-- whether or not it is aligned, where C++ itself promises nothing for one that is not.
use aias_lab.Prelude.{ℕ, zero, suc, ◌+◌, ◌*◌, ◌/◌, ◌%◌, List, [], ◌∷◌}
use aias_lab.Prelude.Result.{Result, ok, ◌>>=◌}
use aias_lab.Prelude.Word.{u8, u16, u32, sext8, sext16}
use aias_lab.Instr.{InstrType, lb, lbu, lh, lhu, lw, sb, sh, sw}
use aias_lab.Memory.Bytes.{read_data, write_data}

-- A little-endian load of all the bytes given, and the bytes of a store.
abbrev pub le_value : List ℕ → ℕ
le_value [] = 0
le_value (b ∷ bs) = b + 256 * le_value bs

abbrev pub le_bytes : ℕ → ℕ → List ℕ
le_bytes zero v = []
le_bytes (suc n) v = (v % 256) ∷ le_bytes n (v / 256)

-- The first switch of `memReadReqHandler`: the bytes to read.
unfoldable pub read_size : InstrType → ℕ
read_size lb = 1
read_size lbu = 1
read_size lh = 2
read_size lhu = 2
read_size lw = 4
read_size _ = 0

-- Its second switch: the value, widened to uint32_t.
unfoldable pub read_value : InstrType → List ℕ → ℕ
read_value lb bytes = sext8 (le_value bytes)
read_value lbu bytes = le_value bytes
read_value lh bytes = sext16 (le_value bytes)
read_value lhu bytes = le_value bytes
read_value lw bytes = le_value bytes
read_value _ bytes = 0

-- `memReadReqHandler` at a request for `op` at `addr`.
unfoldable pub mem_read_req_handler : List ℕ → InstrType → ℕ → Result ℕ
unfolding read_size read_value
mem_read_req_handler mem op addr = do
  bytes ← read_data mem addr (read_size op)
  ok (read_value op bytes)

-- `memWriteReqHandler`; another `op` writes nothing.
unfoldable pub mem_write_req_handler : List ℕ → InstrType → ℕ → ℕ → Result (List ℕ)
mem_write_req_handler mem sb addr v = write_data mem (le_bytes 1 (u8 v)) addr
mem_write_req_handler mem sh addr v = write_data mem (le_bytes 2 (u16 v)) addr
mem_write_req_handler mem sw addr v = write_data mem (le_bytes 4 (u32 v)) addr
mem_write_req_handler mem _ addr v = ok mem
