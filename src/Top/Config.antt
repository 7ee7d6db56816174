-- ===== src/Top/Config.antt =====
-- The default parameters of src/riscv/include/SystemConfig.hh. `asm_file_path` is left out: the
-- model takes the file itself.
use aias_lab.Prelude.{ℕ}
use aias_lab.Emulator.Lines.{Config}

-- `EmulatorConfig`.
abbrev pub emulator_config : Config
emulator_config = record {
  memory_size = 65536;
  data_offset = 8192;
  text_offset = 0;
  max_label_count = 128;
  max_src_len = 1_048_576;
}

-- `SOCConfig`, whose latencies nothing reads.
pub record SocConfig : Type 0 where
  pub memory_read_latency : ℕ
  pub memory_write_latency : ℕ

abbrev pub soc_config : SocConfig
soc_config = record { memory_read_latency = 1; memory_write_latency = 1 }
