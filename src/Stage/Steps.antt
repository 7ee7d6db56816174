-- ===== src/Stage/Steps.antt =====
-- One tick of each stage, and the synchronisation of the pipe registers between ticks. A packet
-- that a simulator accepts reaches its `instPacketHandler` by `InstPacket::visit`; the handlers'
-- CLASS_ERROR messages are counted.
use aias_lab.Prelude.{
  ℕ, ◌+◌, Bool, false, not, ◌&&◌, ◌||◌, Option, none, some, List, [], ◌∷◌, ◌++◌, if◌then◌else◌,
}
use aias_lab.Packet.{Store}
use aias_lab.Port.{SimPort}
use aias_lab.Pipe.{PipeRegister}
use aias_lab.Stage.Hazard.{get_dest_reg, check_data_hazard}

-- `p && checkDataHazard(getDestReg(p->inst), inst of q)`.
unfoldable pub hazard_with : Store → Option ℕ → ℕ → Bool
hazard_with store none q = false
hazard_with store (some p) q = check_data_hazard (get_dest_reg (store p).inst) (store q).inst

-- What the dynamic_cast of `InstPacket::visit` tells apart.
pub data Visitor : Type 0 where
  if_stage exe_stage wb_stage other_simulator any_module : Visitor

module _ (ports : SimPort) (regs : PipeRegister) where
  open ports use {Port, is_pop_valid, front}
  open regs use {Reg}

  -- The members of the three stages, the port "soc-s", the registers prIF2EXE and prEXE2WB, the
  -- packets handed back to the recycle container, the steps that the IF stage asked to have
  -- forced, and the CLASS_ERROR messages.
  pub record Pipeline : Type 0 where
    pub packets : Store
    pub port : Port
    pub exe_inst_packet : Option ℕ
    pub wb_inst_packet : Option ℕ
    pub if_exe : Reg
    pub exe_wb : Reg
    pub exe_stage_wb : Option ℕ
    pub recycled : List ℕ
    pub forced : ℕ
    pub errors : ℕ

  -- The data hazard of `IFStage::step`: with the packet in front, if there is one.
  unfoldable pub data_hazard : Pipeline → Bool
  unfolding hazard_with
  data_hazard s =
      if is_pop_valid s.port
      then elim (front s.port) [
        | none ↦ false
        | some q ↦
            hazard_with s.packets s.exe_inst_packet q || hazard_with s.packets s.wb_inst_packet q
      ]
      else false

  -- Its control hazard: a taken branch in EXE.
  unfoldable pub control_hazard : Pipeline → Bool
  control_hazard s = elim s.exe_inst_packet [
    | none ↦ false
    | some e ↦ (s.packets e).is_taken_branch
  ]

  -- `IFStage::instPacketHandler`.
  unfoldable pub if_handler : ℕ → Pipeline → Pipeline
  if_handler p s =
      let (taken, r) = regs.push s.if_exe p in
      record s {
        if_exe = r;
        errors = if taken then s.errors else s.errors + 1;
        wb_inst_packet = s.exe_inst_packet;
        exe_inst_packet = some p;
      }

  -- `EXEStage::instPacketHandler`.
  unfoldable pub exe_handler : ℕ → Pipeline → Pipeline
  exe_handler p s =
      let (taken, r) = regs.push s.exe_wb p in
      record s {
        exe_wb = r;
        errors = if taken then s.errors else s.errors + 1;
        exe_stage_wb = some p;
      }

  -- `WBStage::instPacketHandler`.
  unfoldable pub wb_handler : ℕ → Pipeline → Pipeline
  wb_handler p s = record s { recycled = s.recycled ++ p ∷ [] }

  -- `InstPacket::visit`, which a simulator's `accept` calls: the handler of the stage it is given, or
  -- an error.
  abbrev pub visit : Visitor → ℕ → Pipeline → Pipeline
  visit if_stage p s = if_handler p s
  visit exe_stage p s = exe_handler p s
  visit wb_stage p s = wb_handler p s
  visit other_simulator p s = record s { errors = s.errors + 1 }
  visit any_module p s = record s { errors = s.errors + 1 }

  -- `IFStage::step`.
  unfoldable pub if_step : Pipeline → Pipeline
  if_step s =
      if is_pop_valid s.port
      then if not (data_hazard s) && not (control_hazard s)
        then (let (p, port') = ports.pop s.port in visit if_stage p (record s { port = port' }))
        else record s {
          wb_inst_packet = s.exe_inst_packet;
          exe_inst_packet = none;
          forced = s.forced + 1;
        }
      else s

  -- `EXEStage::step`.
  unfoldable pub exe_step : Pipeline → Pipeline
  exe_step s =
      if regs.is_valid s.if_exe && not (regs.is_stalled s.exe_wb)
      then (let (p, r) = regs.pop s.if_exe in visit exe_stage p (record s { if_exe = r }))
      else s

  -- `WBStage::step`.
  unfoldable pub wb_step : Pipeline → Pipeline
  wb_step s =
      if regs.is_valid s.exe_wb
      then (let (p, r) = regs.pop s.exe_wb in visit wb_stage p (record s { exe_wb = r }))
      else s

  -- `TopPipeRegisterManager::runSyncPipeRegister`.
  unfoldable pub run_sync_pipe_register : Pipeline → Pipeline
  run_sync_pipe_register s = record s {
    if_exe = regs.clear_stall_flag (regs.sync s.if_exe);
    exe_wb = regs.clear_stall_flag (regs.sync s.exe_wb);
  }
