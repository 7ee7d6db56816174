-- ===== src/Emulator/Field.antt =====
-- The numbers of a source line as fields of the manual's instruction formats.
use aias_lab.Prelude.{ℕ, ◌^◌, ◌<◌, ◌≡◌, refl, arith, List, [], ◌∷◌}
use aias_lab.Isa.{Fields, wrap, to_signed}
use aias_lab.Emulator.Numbers.{signextend}
use aias_lab.Emulator.Immediates.{signextend-to_signed}
use aias_lab.Emulator.Forms.{Form, registers, immediate, memory, upper, form_of, Values, IsWritable}
use aias_lab.Emulator.Listing.{Statement, AreLines}

-- The fields of the manual. An address has its base in the second operand; the first is what a
-- load writes and what a store reads. Fields of 12 bits are in two's complement.
abbrev pub form_fields : Form → Values → Fields
form_fields registers v = record { rd = v.r1; rs1 = v.r2; rs2 = v.r3; imm = 0 }
form_fields immediate v = record { rd = v.r1; rs1 = v.r2; rs2 = 0; imm = wrap (to_signed 12 v.imm) }
form_fields memory v = record { rd = v.r1; rs1 = v.r2; rs2 = v.r1; imm = wrap (to_signed 12 v.imm) }
form_fields upper v = record { rd = v.r1; rs1 = 0; rs2 = 0; imm = v.imm }
form_fields _ v = record { rd = 0; rs1 = 0; rs2 = 0; imm = 0 }

-- The fields that the assembler fills in.
abbrev pub filled_fields : Form → Values → Fields
filled_fields registers v = record { rd = v.r1; rs1 = v.r2; rs2 = v.r3; imm = 0 }
filled_fields immediate v = record { rd = v.r1; rs1 = v.r2; rs2 = 0; imm = signextend v.imm 12 }
filled_fields memory v = record { rd = v.r1; rs1 = v.r2; rs2 = v.r1; imm = v.imm }
filled_fields upper v = record { rd = v.r1; rs1 = 0; rs2 = 0; imm = v.imm }
filled_fields _ v = record { rd = 0; rs1 = 0; rs2 = 0; imm = 0 }

-- An offset whose sign bit is clear.
abbrev pub IsForward : Form → Values → Type 0
IsForward memory v = v.imm < 2 ^ 11
IsForward _ v = Unit

abbrev pub AllForward : List Statement → Type 0
AllForward [] = Unit
AllForward (x ∷ xs) = IsForward (form_of x.op) x.values × AllForward xs

-- The number fits its field, which for an offset excludes the sign bit.
abbrev pub IsInField : Form → Values → Type 0
IsInField immediate v = v.imm < 2 ^ 12
IsInField memory v = v.imm < 2 ^ 11
IsInField _ v = Unit

abbrev pub AllInField : List Statement → Type 0
AllInField [] = Unit
AllInField (x ∷ xs) = IsInField (form_of x.op) x.values × AllInField xs

IsWritable-IsInField : (f : Form) (v : Values) → IsWritable f v → IsForward f v → IsInField f v
IsWritable-IsInField immediate v w p = w.width
IsWritable-IsInField memory v w p = p
IsWritable-IsInField _ v w p = tt

pub AreLines-AllInField :
    (xs : List Statement) (file : List (List ℕ)) → AreLines xs file → AllForward xs → AllInField xs
AreLines-AllInField [] file lines p = tt
AreLines-AllInField (x ∷ xs) [] lines p = absurd lines
AreLines-AllInField (x ∷ xs) (buf ∷ file) ((_, w), lines) (p, ps) =
    (IsWritable-IsInField (form_of x.op) x.values w p, AreLines-AllInField xs file lines ps)

-- In these bounds the assembler's fields are the manual's.
pub filled_fields-form_fields :
    (f : Form) (v : Values) → IsInField f v → filled_fields f v ≡ form_fields f v
filled_fields-form_fields immediate v e =
    λ j. record { rd = v.r1; rs1 = v.r2; rs2 = 0; imm = signextend-to_signed v.imm e j }
filled_fields-form_fields memory v e =
    let same : v.imm ≡ wrap (to_signed 12 v.imm) = ground arith in
    λ j. record { rd = v.r1; rs1 = v.r2; rs2 = v.r1; imm = same j }
filled_fields-form_fields _ v e = refl
