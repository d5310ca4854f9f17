-- ===== src/Isa/Predecode.antt =====
-- src/cpu/isa.h and src/cpu/isa.cpp: the pdec_ functions, by which the fetch unit classifies raw
-- instructions and computes jump targets before they are decoded.
use nullrvsim.Prelude.{ℕ, ◌/◌, ◌^◌, bit_and, bit_or, Bool, true, ◌==◌, ◌&&◌, ◌||◌, not}
use nullrvsim.Prelude.{if◌then◌else◌, Option, none, some}
use nullrvsim.Prelude.Bits.{low_bits}
use nullrvsim.Isa.Codes.OpCode
use nullrvsim.Isa.Fields.{get_bits, bit_set, imm_b_low, imm_j_low}
use nullrvsim.Isa.Compressed.Imm.{imm_cj_low, imm_cb_low, sign_mask12}
use nullrvsim.Isa.Decode.{is_rvc}

-- `inst & 0x7F`
abbrev pub low7 : ℕ → ℕ
low7 inst = get_bits inst 0 7

unfoldable pub is_fence_i : ℕ → Bool
is_fence_i inst = low7 inst == 15 && get_bits inst 12 3 == 1

unfoldable pub is_j : ℕ → Bool
is_j inst =
    if is_rvc inst
    then (get_bits inst 0 2 == 1 && get_bits inst 13 3 == 5)
      || (low7 inst == 2 && get_bits inst 13 3 == 4)
    else low7 inst == OpCode.jal || low7 inst == OpCode.jalr

unfoldable pub is_jr : ℕ → Bool
is_jr inst =
    if is_rvc inst
    then low7 inst == 2 && get_bits inst 13 3 == 4 && not (get_bits inst 7 5 == 0)
    else low7 inst == OpCode.jalr

unfoldable pub is_ji : ℕ → Bool
is_ji inst =
    if is_rvc inst
    then get_bits inst 0 2 == 1 && get_bits inst 13 3 == 5
    else low7 inst == OpCode.jal

unfoldable pub is_call_i : ℕ → Bool
is_call_i inst = low7 inst == OpCode.jal && get_bits inst 7 5 == 1

unfoldable pub is_call_r : ℕ → Bool
is_call_r inst =
    if is_rvc inst
    then low7 inst == 2 && get_bits inst 12 4 == 9 && not (get_bits inst 7 5 == 0)
    else low7 inst == OpCode.jalr && get_bits inst 7 5 == 1

unfoldable pub is_ret : ℕ → Bool
is_ret inst =
    if is_rvc inst
    then low7 inst == 2 && get_bits inst 12 4 == 8 && get_bits inst 7 5 == 1
    else low7 inst == OpCode.jalr && not (get_bits inst 7 5 == 1) && get_bits inst 15 5 == 1

unfoldable pub is_b : ℕ → Bool
is_b inst =
    if is_rvc inst
    then (get_bits inst 0 2 == 1 && get_bits inst 13 3 == 6)
      || (get_bits inst 0 2 == 1 && get_bits inst 13 3 == 7)
    else low7 inst == OpCode.branch

-- The test of the compressed case is written `if(inst = 0x9002)`: an assignment, always true.
unfoldable pub is_uniq : ℕ → Bool
is_uniq inst =
    if is_rvc inst then true else low7 inst == OpCode.misc_mem || low7 inst == OpCode.system

-- `*target`, as the 32 bits of an int32_t; `none` where the function returns false and writes
-- nothing.
unfoldable pub get_j_target : ℕ → Option ℕ
get_j_target inst =
    if is_rvc inst
    then (if get_bits inst 0 2 == 1 && get_bits inst 13 3 == 5
        then some (sign_mask12 inst 0xffff_f800 (imm_cj_low inst))
        else none)
    else if low7 inst == OpCode.jal
    then some (if bit_set inst 31 then bit_or (imm_j_low inst) 0xfff0_0000 else imm_j_low inst)
    else none

-- The uncompressed case computes in 64 bits; the assignment to `*target` keeps the low 32. In the
-- compressed case `uimm` has 32 bits, so that the mask loses its upper half.
unfoldable pub get_b_target : ℕ → Option ℕ
get_b_target inst =
    if is_rvc inst
    then (if get_bits inst 0 2 == 1 && bit_and (inst / 2 ^ 13) 6 == 6
        then some (low_bits (sign_mask12 inst 0xffff_ffff_ffff_ff00 (imm_cb_low inst)) 32)
        else none)
    else if low7 inst == OpCode.branch
    then some (
        low_bits
          (if bit_set inst 31
            then bit_or (imm_b_low inst) 0xffff_ffff_ffff_f000
            else imm_b_low inst)
          32)
    else none
