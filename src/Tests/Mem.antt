-- ===== src/Tests/Mem.antt =====
-- The data memory on sixteen bytes.
use aias_lab.Prelude.{ℕ, ◌+◌, ◌%◌, ◌^◌, ◌≤◌, ◌<◌, ◌≡◌, refl, inl, arith, List, [], ◌∷◌, length}
use aias_lab.Prelude.Result.{assertion, ok, err}
use aias_lab.Instr.{lb, lh, lw, sh, sw}
use aias_lab.Memory.Bytes.{read_data, write_data, memcpy}
use aias_lab.Memory.Handlers.{mem_read_req_handler, mem_write_req_handler}
use aias_lab.Memory.Rw.{extend, load_width, store_width, load-store, load-store_disjoint}
use aias_lab.Memory.Safety.{mem_read_req_handler-in_range, mem_write_req_handler-in_range}
use aias_lab.Tests.Data.{bytes}

signed_byte : mem_read_req_handler bytes lb 15 ≡ ok 0xffff_ffff
unfolding mem_read_req_handler read_data
signed_byte = refl

past_the_end : mem_read_req_handler bytes lw 13 ≡ err assertion
unfolding mem_read_req_handler read_data
past_the_end = refl

abbrev after_sw : List ℕ
after_sw = unfold memcpy in memcpy bytes 4 (0xf0 ∷ 0xde ∷ 0xbc ∷ 0x9a ∷ [])

sw_runs : mem_write_req_handler bytes sw 4 0x9abc_def0 ≡ ok after_sw
unfolding mem_write_req_handler write_data memcpy
sw_runs = refl

load-store_example :
    (mem' : List ℕ) × (mem_write_req_handler bytes sh 6 0x1_8001 ≡ ok mem')
    × (mem_read_req_handler mem' lh 6 ≡ ok (extend lh (0x1_8001 % 256 ^ load_width lh)))
load-store_example = load-store bytes sh lh 6 0x1_8001 (omega arith) refl (omega arith)

load-store_disjoint_example : mem_read_req_handler after_sw lh 2 ≡ mem_read_req_handler bytes lh 2
load-store_disjoint_example =
    load-store_disjoint bytes after_sw sw lh 4 0x9abc_def0 2 (inl (omega arith)) (omega arith)
      (omega arith) sw_runs

mem_read_req_handler-in_range_example :
    ((13 + load_width lw ≤ length bytes) → (v : ℕ) × (mem_read_req_handler bytes lw 13 ≡ ok v))
    × (length bytes < 13 + load_width lw → mem_read_req_handler bytes lw 13 ≡ err assertion)
mem_read_req_handler-in_range_example = mem_read_req_handler-in_range bytes lw 13 (omega arith)

mem_write_req_handler-in_range_example :
    ((4 + store_width sw ≤ length bytes)
      → (mem' : List ℕ) × (mem_write_req_handler bytes sw 4 9 ≡ ok mem'))
    × (length bytes < 4 + store_width sw → mem_write_req_handler bytes sw 4 9 ≡ err assertion)
mem_write_req_handler-in_range_example = mem_write_req_handler-in_range bytes sw 4 9 (omega arith)
