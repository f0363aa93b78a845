-- ===== src/Switch.antt =====
-- The switch between two routines: `bSwap` of src/b_swap.S, instruction by instruction, on the
-- registers and the memory of an x86-64 processor, and the layout of `bContext` of src/b_context.h.
-- The memory holds 64-bit words at the addresses of their first bytes. Numbers do not wrap.
pub mod Saved
pub mod Restored
pub mod Resumed
pub mod First
mod Examples
use b_routine.Base.{ℕ, ◌+◌, ◌-◌, ◌*◌, List, [], ◌∷◌, ◌++◌, ◌==◌, if◌then◌else◌}

-- The registers, by the numbers that the processor encodes them with.
abbrev pub rax : ℕ
rax = 0

abbrev pub rcx : ℕ
rcx = 1

abbrev pub rdx : ℕ
rdx = 2

abbrev pub rbx : ℕ
rbx = 3

abbrev pub rsp : ℕ
rsp = 4

abbrev pub rbp : ℕ
rbp = 5

abbrev pub rsi : ℕ
rsi = 6

abbrev pub rdi : ℕ
rdi = 7

abbrev pub r8 : ℕ
r8 = 8

abbrev pub r9 : ℕ
r9 = 9

abbrev pub r12 : ℕ
r12 = 12

abbrev pub r13 : ℕ
r13 = 13

abbrev pub r14 : ℕ
r14 = 14

abbrev pub r15 : ℕ
r15 = 15

-- The indices of `regs` that `bContext::init` writes, and the byte offset of an entry.
abbrev pub k_rdi : ℕ
k_rdi = 7

abbrev pub k_rsi : ℕ
k_rsi = 8

abbrev pub k_ret_addr : ℕ
k_ret_addr = 9

abbrev pub k_rsp : ℕ
k_rsp = 13

-- The bytes of `regs`, which `bContext` starts with.
abbrev pub regs_bytes : ℕ
regs_bytes = 112

pub record Cpu : Type 0 where
  pub reg : ℕ → ℕ
  pub mem : ℕ → ℕ
  pub rip : ℕ

abbrev pub put : (ℕ → ℕ) → ℕ → ℕ → ℕ → ℕ
put f p v a = if a == p then v else f a

-- The instructions of `bSwap`, with their operands in the order of the assembler: `lea disp base to`,
-- `store from disp base`, `load disp base to`, `xor_self r`, `push disp base`.
pub data Instr : Type 0 where
  lea : ℕ → ℕ → ℕ → Instr
  store : ℕ → ℕ → ℕ → Instr
  load : ℕ → ℕ → ℕ → Instr
  xor_self : ℕ → Instr
  push : ℕ → ℕ → Instr
  ret : Instr

unfoldable pub exec : Instr → Cpu → Cpu
exec (lea disp base to) c = record c { reg = put c.reg to (c.reg base + disp) }
exec (store from disp base) c = record c { mem = put c.mem (c.reg base + disp) (c.reg from) }
exec (load disp base to) c = record c { reg = put c.reg to (c.mem (c.reg base + disp)) }
exec (xor_self r) c = record c { reg = put c.reg r 0 }
exec (push disp base) c = record c {
  reg = put c.reg rsp (c.reg rsp - 8);
  mem = put c.mem (c.reg rsp - 8) (c.mem (c.reg base + disp));
}
exec ret c = record c { rip = c.mem (c.reg rsp); reg = put c.reg rsp (c.reg rsp + 8) }

unfoldable pub run : List Instr → Cpu → Cpu
unfolding exec
run [] c = c
run (i ∷ is) c = run is (exec i c)

-- The first half of `bSwap`, which saves the registers in the context at `rdi`.
abbrev pub save_code : List Instr
save_code =
    lea 0 rsp rax
    ∷ store rax 104 rdi
    ∷ store rbx 96 rdi
    ∷ store rcx 88 rdi
    ∷ store rdx 80 rdi
    ∷ load 0 rax rax
    ∷ store rax 72 rdi
    ∷ store rsi 64 rdi
    ∷ store rdi 56 rdi
    ∷ store rbp 48 rdi
    ∷ store r8 40 rdi
    ∷ store r9 32 rdi
    ∷ store r12 24 rdi
    ∷ store r13 16 rdi
    ∷ store r14 8 rdi
    ∷ store r15 0 rdi
    ∷ xor_self rax
    ∷ []

-- The second half, which loads those of the context at `rsi`.
abbrev pub restore_code : List Instr
restore_code =
    load 48 rsi rbp
    ∷ load 104 rsi rsp
    ∷ load 0 rsi r15
    ∷ load 8 rsi r14
    ∷ load 16 rsi r13
    ∷ load 24 rsi r12
    ∷ load 32 rsi r9
    ∷ load 40 rsi r8
    ∷ load 56 rsi rdi
    ∷ load 80 rsi rdx
    ∷ load 88 rsi rcx
    ∷ load 96 rsi rbx
    ∷ lea 8 rsp rsp
    ∷ push 72 rsi
    ∷ load 64 rsi rsi
    ∷ ret
    ∷ []

-- `bSwap`, called with the two contexts in `rdi` and `rsi` and its return address on the stack.
unfoldable pub b_swap : Cpu → Cpu
b_swap c = run restore_code (run save_code c)

-- What `bContext::init` writes into the context at `p`.
pub init_context : (p sp self routine_begin : ℕ) → (ℕ → ℕ) → ℕ → ℕ
init_context p sp self routine_begin mem =
    put (put (put (put mem (p + 8 * k_rsp) sp) (p + 8 * k_rdi) self) (p + 8 * k_rsi) 0)
      (p + 8 * k_ret_addr) routine_begin
