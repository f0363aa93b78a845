-- ===== src/Switch/Restored.antt =====
-- What the second half of `bSwap` (src/b_swap.S) leaves, and `bSwap` as a whole.
use b_routine.Base.{ℕ, ◌+◌, ◌≤◌, ◌≡◌, ◌≢◌, sym, ap, ◌∙◌, ◌⊎◌, arith}
use b_routine.Switch.{
  rcx, rdx, rbx, rsp, rbp, rsi, rdi, r8, r9, r12, r13, r14, r15, regs_bytes, Cpu, run, save_code,
  restore_code, b_swap,
}
use b_routine.Switch.Saved.{Outside, Holds, save_code-Saved}

-- The processor goes on behind a call that was made with the registers `reg`.
pub record Resumes (e : Cpu) (reg : ℕ → ℕ) (ret : ℕ) : Type 0 where
  pub at : e.rip ≡ ret
  pub stack : e.reg rsp ≡ reg rsp + 8
  pub rbx_back : e.reg rbx ≡ reg rbx
  pub rbp_back : e.reg rbp ≡ reg rbp
  pub r12_back : e.reg r12 ≡ reg r12
  pub r13_back : e.reg r13 ≡ reg r13
  pub r14_back : e.reg r14 ≡ reg r14
  pub r15_back : e.reg r15 ≡ reg r15
  pub rcx_back : e.reg rcx ≡ reg rcx
  pub rdx_back : e.reg rdx ≡ reg rdx
  pub rsi_back : e.reg rsi ≡ reg rsi
  pub rdi_back : e.reg rdi ≡ reg rdi
  pub r8_back : e.reg r8 ≡ reg r8
  pub r9_back : e.reg r9 ≡ reg r9

pub record Restored (d e : Cpu) (reg : ℕ → ℕ) (ret : ℕ) : Type 0 where
  pub resumes : Resumes e reg ret
  pub ret_word : e.mem (reg rsp) ≡ ret
  pub others : (x : ℕ) → x ≢ reg rsp → e.mem x ≡ d.mem x

restore_code-Restored :
    (d : Cpu) (reg : ℕ → ℕ) (ret : ℕ)
    → Holds d.mem (d.reg rsi) reg ret
    → Outside (d.reg rsi) (reg rsp)
    → Restored d (run restore_code d) reg ret
unfolding run
restore_code-Restored d reg ret h out = record {
  resumes = record {
    at = ground arith;
    stack = ground arith;
    rbx_back = ground arith;
    rbp_back = ground arith;
    r12_back = ground arith;
    r13_back = ground arith;
    r14_back = ground arith;
    r15_back = ground arith;
    rcx_back = ground arith;
    rdx_back = ground arith;
    rsi_back = ground arith;
    rdi_back = ground arith;
    r8_back = ground arith;
    r9_back = ground arith;
  };
  ret_word = ground arith;
  others = λ x n. ground arith;
}

-- The contexts at `p` and `q` do not overlap.
abbrev pub Apart : ℕ → ℕ → Type 0
Apart p q = (p + regs_bytes ≤ q) ⊎ (q + regs_bytes ≤ p)

-- A context holds what it held where its words have not changed.
pub Holds-kept :
    (f g : ℕ → ℕ) (p : ℕ) (reg : ℕ → ℕ) (ret : ℕ)
    → ((k : ℕ) → k + 8 ≤ regs_bytes → g (p + k) ≡ f (p + k))
    → Holds f p reg ret
    → Holds g p reg ret
Holds-kept f g p reg ret same h =
    let zero : p ≡ p + 0 = omega arith in
    record {
      at_r15 = ap g zero ∙ same 0 (omega arith) ∙ ap f (sym zero) ∙ h.at_r15;
      at_r14 = same 8 (omega arith) ∙ h.at_r14;
      at_r13 = same 16 (omega arith) ∙ h.at_r13;
      at_r12 = same 24 (omega arith) ∙ h.at_r12;
      at_r9 = same 32 (omega arith) ∙ h.at_r9;
      at_r8 = same 40 (omega arith) ∙ h.at_r8;
      at_rbp = same 48 (omega arith) ∙ h.at_rbp;
      at_rdi = same 56 (omega arith) ∙ h.at_rdi;
      at_rsi = same 64 (omega arith) ∙ h.at_rsi;
      at_ret = same 72 (omega arith) ∙ h.at_ret;
      at_rdx = same 80 (omega arith) ∙ h.at_rdx;
      at_rcx = same 88 (omega arith) ∙ h.at_rcx;
      at_rbx = same 96 (omega arith) ∙ h.at_rbx;
      at_rsp = same 104 (omega arith) ∙ h.at_rsp;
    }

-- `bSwap` from one context to another: what it saves, and where it goes on.
pub record Swapped (c e : Cpu) (reg : ℕ → ℕ) (ret : ℕ) : Type 0 where
  pub saved : Holds e.mem (c.reg rdi) c.reg (c.mem (c.reg rsp))
  pub resumes : Resumes e reg ret
  pub ret_word : e.mem (reg rsp) ≡ ret
  pub others : (x : ℕ) → x ≢ reg rsp → Outside (c.reg rdi) x → e.mem x ≡ c.mem x

pub b_swap-Swapped :
    (c : Cpu) (reg : ℕ → ℕ) (ret : ℕ)
    → Holds c.mem (c.reg rsi) reg ret
    → Apart (c.reg rdi) (c.reg rsi)
    → Outside (c.reg rdi) (c.reg rsp)
    → Outside (c.reg rdi) (reg rsp)
    → Outside (c.reg rsi) (reg rsp)
    → Swapped c (b_swap c) reg ret
unfolding b_swap
b_swap-Swapped c reg ret h apart own from to =
    let d = run save_code c in
    let s = save_code-Saved c own in
    let same = s.regs rsi (omega arith) in
    let held : Holds d.mem (c.reg rsi) reg ret =
      Holds-kept c.mem d.mem (c.reg rsi) reg ret
        (λ k small. s.others (c.reg rsi + k) (omega (arith, apart, small))) h in
    let r = restore_code-Restored d reg ret (rw same held) (rw same to) in
    record {
      saved =
          Holds-kept d.mem (run restore_code d).mem (c.reg rdi) c.reg (c.mem (c.reg rsp))
            (λ k small. r.others (c.reg rdi + k) (λ e. absurd (omega (arith, from, small, e))))
            s.context;
      resumes = r.resumes;
      ret_word = r.ret_word;
      others = λ x n o. r.others x n ∙ s.others x o;
    }
