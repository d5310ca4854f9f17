-- ===== src/Isa/Tests.antt =====
-- Instruction words through the decoder, the first ones from test_decoder_rv64, and the theorems at
-- concrete instructions.
use nullrvsim.Prelude.{◌+◌, ◌-◌, ◌^◌, bit_or, ◌≡◌, ◌↔◌, refl, true, some, [], arith}
use nullrvsim.Isa.Codes.OpCode
use nullrvsim.Isa.Codes.IntOp
use nullrvsim.Isa.Codes.BranchOp
use nullrvsim.Isa.Codes.LsWidth
use nullrvsim.Isa.Codes.Flag
use nullrvsim.Isa.Decoded.{Decoded, clear, int_op, branch}
use nullrvsim.Isa.Decode.{decode_rv64, decode_by_opcode, decode_u}
use nullrvsim.Isa.Predecode.{is_b, is_uniq}
use nullrvsim.Isa.Agree.{DecodesTo, is_b-decode_rv64}
use nullrvsim.Isa.Encode.{IForm, RForm, SForm, encode_b}
use nullrvsim.Isa.RoundTrip.IForms.{IsIForm}
use nullrvsim.Isa.RoundTrip.RForms.{IsRForm}
use nullrvsim.Isa.RoundTrip.SForms.{IsSForm, decode_rv64-encode_branch}
use nullrvsim.Isa.Fields.{get_imm_u}
use nullrvsim.Isa.Expand.Forms.{full_lw}
use nullrvsim.Isa.Expand.Defs.{expand, expand0, as_rvc}
use nullrvsim.Isa.Expand.Agree.{decode_rv64-expand}
use nullrvsim.Isa.Bounds.{IsInFile, decode_rv64-IsInFile}

-- A decoded instruction that another left behind.
abbrev used : Decoded
used = record {
  pc = 0x1000;
  opcode = OpCode.jalr;
  param = int_op 7;
  rs1 = 3;
  rs2 = 4;
  rs3 = 5;
  rd = 6;
  imm = 77;
  flag = 1;
  debug_name = [];
}

-- lui a5, 2
lui_word :
    decode_rv64 0x0000_27b7 used
    ≡ (true, record (clear used) { opcode = OpCode.lui; rd = 15; imm = 8192; flag = Flag.rd_int })
unfolding decode_rv64 decode_by_opcode decode_u get_imm_u
lui_word = refl

-- lw x5, -4(x6)
abbrev load_form : IForm
load_form = record { rd = 5; funct3 = LsWidth.word; rs1 = 6; imm = 4092 }

load_form-IsIForm : IsIForm load_form
load_form-IsIForm = omega arith

-- srai x5, x6, 33: bit 10 of the field marks the arithmetic shift.
abbrev shift_form : IForm
shift_form = record { rd = 5; funct3 = IntOp.srl; rs1 = 6; imm = 1024 + 33 }

shift_form-IsIForm : IsIForm shift_form
shift_form-IsIForm = omega arith

-- sub x5, x6, x7
abbrev sub_form : RForm
sub_form = record { rd = 5; funct3 = 0; rs1 = 6; rs2 = 7; funct7 = 32 }

sub_form-IsRForm : IsRForm sub_form
sub_form-IsRForm = omega arith

-- sd x7, -8(x2)
abbrev store_form : SForm
store_form = record { funct3 = LsWidth.dword; rs1 = 2; rs2 = 7; imm = 4088 }

store_form-IsSForm : IsSForm 12 store_form
store_form-IsSForm = omega arith

-- bltu x2, x7, -4096
abbrev branch_form : SForm
branch_form = record { funct3 = BranchOp.bltu; rs1 = 2; rs2 = 7; imm = 4096 }

branch_form-IsSForm : IsSForm 13 branch_form
branch_form-IsSForm = omega arith

decode_rv64-encode_branch_example : decode_rv64 (encode_b OpCode.branch branch_form) used ≡ (
  true,
  record (clear used) {
    opcode = OpCode.branch;
    rs1 = 2;
    rs2 = 7;
    imm = 2 ^ 64 - 4096;
    param = branch BranchOp.bltu;
    flag = bit_or Flag.s1_int Flag.s2_int;
  },
)
decode_rv64-encode_branch_example = decode_rv64-encode_branch used branch_form-IsSForm refl

-- 0x4190 is c.lw a2, 0(a1), which stands for lw a2, 0(a1), the word 0x0005a603.
expand-c_lw : expand 0x4190 ≡ some 0x0005_a603
unfolding expand expand0 full_lw
expand-c_lw = refl

decode_rv64-expand_example : decode_rv64 0x4190 used ≡ as_rvc (decode_rv64 0x0005_a603 used)
decode_rv64-expand_example = decode_rv64-expand 0x4190 used expand-c_lw

-- 0x00b50463 is beq a0, a1, 8.
is_b-decode_rv64_example : (is_b 0x00b5_0463 ≡ true) ↔ DecodesTo OpCode.branch 0x00b5_0463 used
is_b-decode_rv64_example = is_b-decode_rv64 0x00b5_0463 used

decode_rv64-IsInFile_example : IsInFile (decode_rv64 0xffff_ffff used).1
decode_rv64-IsInFile_example = decode_rv64-IsInFile 0xffff_ffff used

-- A compressed instruction other than c.ebreak, 0x9002, counts as unique too.
is_uniq-c_lw : is_uniq 0x4190 ≡ true
unfolding is_uniq
is_uniq-c_lw = refl
